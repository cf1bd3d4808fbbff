-- ===== src/VirtualIp/Profiles.antt =====
-- cpg_virtual_ip.c: where a profile stands in the array of a virtual ip.
use freeswitch_mod_cpg.Base.{
  ℕ, suc, ◌+◌, ℤ, pos, negsuc, ◌≡◌, ◌≢◌, refl, Bool, true, false, not, is_neg, Bool-cases, take,
  ◌⊎◌, ap, ◌∙◌, inl, inr, some, List, [], ◌∷◌, Bytes, All, zstr, bytes_eq, bytes_eq_ne,
  bytes_eq_sound, get_elem?, if◌then◌else◌, arith,
}
use freeswitch_mod_cpg.Types.{SofiaProfile, VirtualIp}

-- The loop over the profiles, from an index on.
unfoldable pub index_from : ℕ → List SofiaProfile → Bytes → ℤ
index_from i [] profile_name = negsuc 1
index_from i (p ∷ profiles) profile_name =
    let rest = index_from (suc i) profiles profile_name in
    if zstr p.name then negsuc 0 else if bytes_eq p.name profile_name then pos i else rest

-- -1 where an empty name ends the profiles, -2 where the array is full of other names.
unfoldable pub virtual_ip_profile_index : VirtualIp → Bytes → ℤ
unfolding index_from
virtual_ip_profile_index vip profile_name = index_from 0 vip.config.profiles profile_name

-- The inner loop of `find_virtual_ip_from_profile`.
unfoldable pub has_profile : List SofiaProfile → Bytes → Bool
has_profile [] profile_name = false
has_profile (p ∷ profiles) profile_name =
    let rest = has_profile profiles profile_name in
    if zstr p.name then false else if bytes_eq p.name profile_name then true else rest

abbrev pub Differs : Bytes → SofiaProfile → Type 0
Differs profile_name p = (p.name ≢ []) × (p.name ≢ profile_name)

-- What the index says of the array: the first profile of that name, before any empty one; or -1,
-- and an empty entry ends the profiles before it comes; or -2, and no entry has the name.
abbrev pub Indexes : ℕ → List SofiaProfile → Bytes → ℤ → Type 0
Indexes i profiles profile_name z =
    ((j : ℕ) × (p : SofiaProfile) × (z ≡ pos (i + j))
      × (get_elem? profiles j ≡ some p)
      × (p.name ≡ profile_name)
      × All (Differs profile_name) (take j profiles))
    ⊎ (((j : ℕ) × (p : SofiaProfile) × (z ≡ negsuc 0)
          × (get_elem? profiles j ≡ some p)
          × (p.name ≡ [])
          × All (Differs profile_name) (take j profiles))
        ⊎ ((z ≡ negsuc 1) × All (Differs profile_name) profiles))

zstr_sound : (s : Bytes) → zstr s ≡ true → s ≡ []
zstr_sound [] h = refl
zstr_sound (c ∷ s) h = cc

zstr_ne : (s : Bytes) → zstr s ≡ false → s ≢ []
zstr_ne [] h = cc
zstr_ne (c ∷ s) h = λ e. cc

index_from-Indexes :
    (i : ℕ) (profiles : List SofiaProfile) (profile_name : Bytes)
    → Indexes i profiles profile_name (index_from i profiles profile_name)
unfolding index_from
index_from-Indexes i [] profile_name = inr (inr (refl, tt))
index_from-Indexes i (p ∷ profiles) profile_name = elim (Bool-cases (zstr p.name)) [
  | inl last ↦ rw last (inr (inl (0, p, refl, refl, zstr_sound p.name last, tt)))
  | inr more ↦ elim (Bool-cases (bytes_eq p.name profile_name)) [
    | inl hit ↦
        rw (more, hit)
          (inl (0, p, ap pos (omega arith), refl, bytes_eq_sound p.name profile_name hit, tt))
    | inr miss ↦
        let d : Differs profile_name p = (zstr_ne p.name more, bytes_eq_ne p.name _ miss) in
        rw (more, miss) (step d (index_from-Indexes (suc i) profiles profile_name))
  ]
]
  where
    step :
        {z : ℤ}
        → Differs profile_name p
        → Indexes (suc i) profiles profile_name z
        → Indexes i (p ∷ profiles) profile_name z
    step d (inl (j, q, e, f, g, a)) = inl (suc j, q, e ∙ ap pos (omega arith), f, g, (d, a))
    step d (inr (inl (j, q, e, f, g, a))) = inr (inl (suc j, q, e, f, g, (d, a)))
    step d (inr (inr (e, a))) = inr (inr (e, (d, a)))

-- `virtual_ip_profile_index` gives the index of the first profile of the name where it comes before
-- an empty entry, -1 where an empty entry comes first, and -2 where there is neither.
pub virtual_ip_profile_index-Indexes :
    (vip : VirtualIp) (profile_name : Bytes)
    → Indexes 0 vip.config.profiles profile_name (virtual_ip_profile_index vip profile_name)
unfolding virtual_ip_profile_index
virtual_ip_profile_index-Indexes vip profile_name =
    index_from-Indexes 0 vip.config.profiles profile_name

-- The two loops agree: the one finds a profile where the other has an index for it.
pub has_profile_of_index :
    (i : ℕ) (profiles : List SofiaProfile) (profile_name : Bytes)
    → has_profile profiles profile_name ≡ not (is_neg (index_from i profiles profile_name))
unfolding has_profile index_from
has_profile_of_index i [] profile_name = refl
has_profile_of_index i (p ∷ profiles) profile_name =
    ground (arith, has_profile_of_index (suc i) profiles profile_name)
