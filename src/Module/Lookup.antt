-- ===== src/Module/Lookup.antt =====
-- cpg_virtual_ip.c: the virtual ip that a profile of FreeSWITCH belongs to.
use freeswitch_mod_cpg.Base.{
  ◌≡◌, refl, ap, inl, inr, Bool, true, false, not, is_neg, Bool-cases, Option, none, some, [], ◌∷◌,
  ◌++◌, Bytes, All,
}
use freeswitch_mod_cpg.Types.{VirtualIp}
use freeswitch_mod_cpg.VirtualIp.Profiles.{
  has_profile, virtual_ip_profile_index, has_profile_of_index,
}
use freeswitch_mod_cpg.Module.{Hash, find_virtual_ip_from_profile}

-- Whether `virtual_ip_profile_index` gives an index and not -1 or -2.
abbrev pub has_index : VirtualIp → Bytes → Bool
has_index v profile_name = not (is_neg (virtual_ip_profile_index v profile_name))

-- The first virtual ip that has an index for the name, or none where none has one.
abbrev pub FirstWith : Hash → Bytes → Option VirtualIp → Type 0
FirstWith hash profile_name none = All (λ e. has_index e.1 profile_name ≡ false) hash
FirstWith hash profile_name (some v) =
    (before : Hash) × (key : Bytes) × (rest : Hash) × (hash ≡ before ++ (key, v) ∷ rest)
    × (has_index v profile_name ≡ true)
    × All (λ e. has_index e.1 profile_name ≡ false) before

has_profile-has_index :
    (v : VirtualIp) (profile_name : Bytes)
    → has_profile v.config.profiles profile_name ≡ has_index v profile_name
unfolding virtual_ip_profile_index
has_profile-has_index v profile_name = has_profile_of_index 0 v.config.profiles profile_name

FirstWith-later :
    (key : Bytes) (v : VirtualIp) (hash : Hash) (profile_name : Bytes) (r : Option VirtualIp)
    → has_index v profile_name ≡ false
    → FirstWith hash profile_name r
    → FirstWith ((key, v) ∷ hash) profile_name r
FirstWith-later key v hash profile_name none h f = (h, f)
FirstWith-later key v hash profile_name (some q) h (before, k, rest, e, i, a) =
    ((key, v) ∷ before, k, rest, ap (◌∷◌ (key, v)) e, i, (h, a))

-- `find_virtual_ip_from_profile` gives the first virtual ip of the hash for which
-- `virtual_ip_profile_index` gives an index, and NULL where it gives one for none.
pub find_virtual_ip_from_profile-FirstWith :
    (hash : Hash) (profile_name : Bytes)
    → FirstWith hash profile_name (find_virtual_ip_from_profile hash profile_name)
unfolding find_virtual_ip_from_profile
find_virtual_ip_from_profile-FirstWith [] profile_name = tt
find_virtual_ip_from_profile-FirstWith ((key, v) ∷ hash) profile_name =
    elim (Bool-cases (has_index v profile_name)) [
      | inl hit ↦ rw (has_profile-has_index v profile_name, hit) ([], key, hash, refl, hit, tt)
      | inr miss ↦
          rw (has_profile-has_index v profile_name, miss)
            (FirstWith-later key v hash profile_name _ miss
              (find_virtual_ip_from_profile-FirstWith hash profile_name))
    ]
