-- ===== src/Config/Registry.antt =====
-- The hash of the virtual ips as `do_config` of cpg_config.c leaves it.
use freeswitch_mod_cpg.Base.{
  ℕ, ◌≤◌, pos, ◌≤ℤ◌, ◌≡◌, ◌≢◌, refl, sym, inl, inr, false, Bool-cases, [], ◌∷◌, Bytes, All, length,
  bytes_eq, bytes_eq_ne, bytes_eq_apart, arith,
}
use freeswitch_mod_cpg.Types.{VirtualIp}
use freeswitch_mod_cpg.Module.{Hash, find_virtual_ip}
use freeswitch_mod_cpg.Config.{zeroed, hash_insert, is_some}
use freeswitch_mod_cpg.Config.Profiles.{Filled}

-- A virtual ip as configured, with nothing of a run in it yet, and texts that fit their fields.
pub record IsConfigured (v : VirtualIp) : Type 0 where
  pub fresh : v ≡ record zeroed { config = v.config }
  pub netmask_low : pos 1 ≤ℤ v.config.netmask
  pub netmask_high : v.config.netmask ≤ℤ pos 32
  pub address : length v.config.address ≤ 15
  pub device : length v.config.device ≤ 5
  pub mac : length v.config.mac ≤ 17
  pub profiles : (k : ℕ) × (k ≤ 8) × Filled k v.config.profiles

abbrev pub HasDistinctKeys : Hash → Type 0
HasDistinctKeys [] = Unit {0}
HasDistinctKeys ((key, v) ∷ hash) = All (λ e. e.0 ≢ key) hash × HasDistinctKeys hash

-- Every virtual ip stands under its address, and no address stands twice.
pub record IsLoaded (hash : Hash) : Type 0 where
  pub entries : All (λ e. (e.0 ≡ e.1.config.address) × IsConfigured e.1) hash
  pub keys : HasDistinctKeys hash

pub find_virtual_ip-absent :
    (hash : Hash) (address : Bytes)
    → is_some (find_virtual_ip hash address) ≡ false
    → All (λ e. e.0 ≢ address) hash
unfolding find_virtual_ip
find_virtual_ip-absent [] address h = tt
find_virtual_ip-absent ((key, v) ∷ hash) address h = elim (Bool-cases (bytes_eq key address)) [
  | inl same ↦ absurd (ground arith)
  | inr other ↦ (bytes_eq_ne key address other, find_virtual_ip-absent hash address (rw other at h))
]

All-hash_insert :
    (P : Bytes × VirtualIp → Type 0) (hash : Hash) (address : Bytes) (v : VirtualIp)
    → All (λ e. e.0 ≢ address) hash
    → All P hash
    → P (address, v)
    → All P (hash_insert hash address v)
unfolding hash_insert
All-hash_insert P [] address v absent h p = (p, tt)
All-hash_insert P ((key, q) ∷ hash) address v absent h p =
    rw (bytes_eq_apart key address absent.0) (h.0, All-hash_insert P hash address v absent.1 h.1 p)

HasDistinctKeys-hash_insert :
    (hash : Hash) (address : Bytes) (v : VirtualIp)
    → All (λ e. e.0 ≢ address) hash
    → HasDistinctKeys hash
    → HasDistinctKeys (hash_insert hash address v)
unfolding hash_insert
HasDistinctKeys-hash_insert [] address v absent h = (tt, tt)
HasDistinctKeys-hash_insert ((key, q) ∷ hash) address v absent h =
    rw (bytes_eq_apart key address absent.0) (
      All-hash_insert (λ e. e.0 ≢ key) hash address v absent.1 h.0 (λ e. absent.0 (sym e)),
      HasDistinctKeys-hash_insert hash address v absent.1 h.1,
    )

pub IsLoaded-hash_insert :
    (hash : Hash) (v : VirtualIp)
    → IsLoaded hash
    → All (λ e. e.0 ≢ v.config.address) hash
    → IsConfigured v
    → IsLoaded (hash_insert hash v.config.address v)
IsLoaded-hash_insert hash v l absent c = record {
  entries = All-hash_insert _ hash v.config.address v absent l.entries (refl, c);
  keys = HasDistinctKeys-hash_insert hash v.config.address v absent l.keys;
}
