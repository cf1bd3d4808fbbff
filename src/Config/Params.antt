-- ===== src/Config/Params.antt =====
-- The parameters of a virtual ip in cpg_config.c.
use freeswitch_mod_cpg.Base.{
  ℕ, zero, suc, ◌≤◌, ◌≡◌, ◌∙◌, refl, inl, inr, Bool-cases, Option, none, some, List, [], ◌∷◌, Bytes,
  length, take, snprintf, bytes_eq, codes, arith,
}
use freeswitch_mod_cpg.Types.{Config}
use freeswitch_mod_cpg.World.{Env, World, M}
use freeswitch_mod_cpg.World.Returns.{Returns, returns, bind, weaken, of_Ensures}
use freeswitch_mod_cpg.Utils.Ip.{utils_get_mac_addr}
use freeswitch_mod_cpg.Config.{XmlParam, with_mac, and_maybe, set_param, params_loop}
use freeswitch_mod_cpg.Config.Profiles.{Same}

-- What the parameters leave alone and what fits.
pub record Keeps (c c' : Config) : Type 0 where
  pub address : c'.address ≡ c.address
  pub netmask : c'.netmask ≡ c.netmask
  pub profiles : c'.profiles ≡ c.profiles
  pub device : length c.device ≤ 5 → length c'.device ≤ 5
  pub mac : length c.mac ≤ 17 → length c'.mac ≤ 17

abbrev pub KeepsAll : Config → Option Config → Type 0
KeepsAll c none = Unit {0}
KeepsAll c (some c') = Keeps c c'

length-take_le : {A : Type 0} (n : ℕ) (xs : List A) → length (take n xs) ≤ n
length-take_le zero xs = omega arith
length-take_le (suc n) [] = omega arith
length-take_le (suc n) (x ∷ xs) = omega (arith, length-take_le n xs)

Keeps-trans : (a b c : Config) → Keeps a b → Keeps b c → Keeps a c
Keeps-trans a b c h k = record {
  address = k.address ∙ h.address;
  netmask = k.netmask ∙ h.netmask;
  profiles = k.profiles ∙ h.profiles;
  device = λ l. k.device (h.device l);
  mac = λ l. k.mac (h.mac l);
}

Keeps-same_fields :
    (c c' : Config)
    → c'.address ≡ c.address
    → c'.netmask ≡ c.netmask
    → c'.profiles ≡ c.profiles
    → c'.device ≡ c.device
    → c'.mac ≡ c.mac
    → Keeps c c'
Keeps-same_fields c c' a n p d m = record {
  address = a;
  netmask = n;
  profiles = p;
  device = λ l. rw d l;
  mac = λ l. rw m l;
}

module _ (env : Env) where
  utils_get_mac_addr-Same :
      (interface : Bytes) (w : World)
      → Returns (λ r w'. Same w w') (utils_get_mac_addr env interface w)
  unfolding utils_get_mac_addr
  utils_get_mac_addr-Same interface w = of_Ensures (λ r w'. Same w w') _ (ground arith)

  with_mac-KeepsAll :
      (c : Config) (value : Bytes) (mac : Option Bytes)
      → KeepsAll c (with_mac (snprintf 6 value) c mac)
  with_mac-KeepsAll c value none = tt
  with_mac-KeepsAll c value (some mac) = record {
    address = refl;
    netmask = refl;
    profiles = refl;
    device = λ l. length-take_le 5 value;
    mac = λ l. length-take_le 17 mac;
  }

  set_param-KeepsAll :
      (x : XmlParam) (c : Config) (w : World)
      → Returns (λ r w'. KeepsAll c r × Same w w') (set_param env x c w)
  unfolding set_param
  set_param-KeepsAll x c w = elim (Bool-cases (bytes_eq x.name (codes "device"))) [
    | inl device ↦ rw device (
        bind (utils_get_mac_addr-Same (snprintf 6 x.value) w)
          λ mac w1 k. returns (with_mac-KeepsAll c x.value mac, k))
    | inr other ↦ rw other (
        returns (
          Keeps-same_fields c _ (ground arith) (ground arith) (ground arith) (ground arith)
              (ground arith),
          (refl, refl),
        ))
  ]

  KeepsAll-after : (c c' : Config) (r : Option Config) → Keeps c c' → KeepsAll c' r → KeepsAll c r
  KeepsAll-after c c' none k h = tt
  KeepsAll-after c c' (some c2) k h = Keeps-trans c c' c2 k h

  and_maybe-KeepsAll :
      (rest : Config → M (Option Config)) (c : Config) (r : Option Config) (w w1 : World)
      → KeepsAll c r × Same w w1
      → ((c' : Config) → Returns (λ r' w2. KeepsAll c' r' × Same w1 w2) (rest c' w1))
      → Returns (λ r' w2. KeepsAll c r' × Same w w2) (and_maybe rest r w1)
  and_maybe-KeepsAll rest c none w w1 h k = returns h
  and_maybe-KeepsAll rest c (some c') w w1 (h, (v, r)) k =
      weaken (k c') (λ r' w2 (h', (v', r'')). (KeepsAll-after c c' r' h h', (v' ∙ v, r'' ∙ r)))

  pub params_loop-KeepsAll :
      (xs : List XmlParam) (c : Config) (w : World)
      → Returns (λ r w'. KeepsAll c r × Same w w') (params_loop env xs c w)
  unfolding params_loop
  params_loop-KeepsAll [] c w =
      returns (Keeps-same_fields c c refl refl refl refl refl, (refl, refl))
  params_loop-KeepsAll (x ∷ xs) c w = bind (set_param-KeepsAll x c w) λ r w1 k.
      and_maybe-KeepsAll (params_loop env xs) c r w w1 k (λ c'. params_loop-KeepsAll xs c' w1)
