-- ===== src/Config/Profiles.antt =====
-- The array of profiles that `do_config` of cpg_config.c fills.
use freeswitch_mod_cpg.Base.{
  ℕ, zero, suc, ◌+◌, ◌≤◌, ◌<◌, leb, ◌≡◌, ◌≢◌, ◌∙◌, refl, ap, inl, inr, false, not, ◌||◌, Bool-cases,
  List, [], ◌∷◌, ◌++◌, Bytes, All, length, set, take, drop, length-set, bytes_eq, bytes_eq_ne, sym,
  arith,
}
use freeswitch_mod_cpg.Types.{SofiaProfile, max_sofia_profiles, max_sofia_name}
use freeswitch_mod_cpg.World.{Env, World, is_success}
use freeswitch_mod_cpg.World.Returns.{Returns, returns, bind, weaken}
use freeswitch_mod_cpg.Utils.Sofia.{utils_profile_control}
use freeswitch_mod_cpg.Config.{
  XmlProfile, empty_profile, profile_name_is_present, filled, profiles_loop,
}

abbrev pub Unnamed : Bytes → List SofiaProfile → Type 0
Unnamed name profiles = All (λ p. p.name ≢ name) profiles

abbrev pub HasDistinctNames : List SofiaProfile → Type 0
HasDistinctNames [] = Unit {0}
HasDistinctNames (p ∷ profiles) = Unnamed p.name profiles × HasDistinctNames profiles

-- The first `k` of the eight entries are in use, with distinct names that fit their fields, and the
-- others are as allocated.
pub record Filled (k : ℕ) (profiles : List SofiaProfile) : Type 0 where
  pub size : length profiles ≡ 8
  pub names : HasDistinctNames (take k profiles)
  pub fit : All (λ p. length p.name < max_sofia_name) (take k profiles)
  pub rest : All (λ p. p ≡ empty_profile) (drop k profiles)

take-set :
    {A : Type 0} (k : ℕ) (xs : List A) (v : A)
    → k < length xs
    → take (suc k) (set xs k v) ≡ take k xs ++ v ∷ []
take-set zero [] v h = absurd (omega arith)
take-set zero (x ∷ xs) v h = refl
take-set (suc k) [] v h = absurd (omega arith)
take-set (suc k) (x ∷ xs) v h = ap (◌∷◌ x) (take-set k xs v (omega arith))

drop-set : {A : Type 0} (k : ℕ) (xs : List A) (v : A) → drop (suc k) (set xs k v) ≡ drop (suc k) xs
drop-set zero [] v = refl
drop-set zero (x ∷ xs) v = refl
drop-set (suc k) [] v = refl
drop-set (suc k) (x ∷ xs) v = drop-set k xs v

All-drop :
    {A : Type 0} (P : A → Type 0) (k : ℕ) (xs : List A)
    → All P (drop k xs)
    → All P (drop (suc k) xs)
All-drop P zero [] h = tt
All-drop P zero (x ∷ xs) h = h.1
All-drop P (suc k) [] h = tt
All-drop P (suc k) (x ∷ xs) h = All-drop P k xs h

All-snoc :
    {A : Type 0} (P : A → Type 0) (xs : List A) (x : A) → All P xs → P x → All P (xs ++ x ∷ [])
All-snoc P [] x h p = (p, tt)
All-snoc P (y ∷ xs) x h p = (h.0, All-snoc P xs x h.1 p)

HasDistinctNames-snoc :
    (profiles : List SofiaProfile) (p : SofiaProfile)
    → HasDistinctNames profiles
    → Unnamed p.name profiles
    → HasDistinctNames (profiles ++ p ∷ [])
HasDistinctNames-snoc [] p d u = (tt, tt)
HasDistinctNames-snoc (q ∷ profiles) p d u = (
  All-snoc (λ r. r.name ≢ q.name) profiles p d.0 (λ e. u.0 (sym e)),
  HasDistinctNames-snoc profiles p d.1 u.1,
)

profile_name_is_present-Unnamed :
    (profiles : List SofiaProfile) (k : ℕ) (name : Bytes)
    → profile_name_is_present profiles k name ≡ false
    → Unnamed name (take k profiles)
unfolding profile_name_is_present
profile_name_is_present-Unnamed profiles zero name h = tt
profile_name_is_present-Unnamed [] (suc k) name h = tt
profile_name_is_present-Unnamed (p ∷ profiles) (suc k) name h =
    elim (Bool-cases (bytes_eq p.name name)) [
      | inl same ↦ absurd (ground arith)
      | inr other ↦ (
        bytes_eq_ne p.name name other,
        profile_name_is_present-Unnamed profiles k name (ground arith),
      )
    ]

Filled-set :
    (k : ℕ) (profiles : List SofiaProfile) (p : SofiaProfile)
    → Filled k profiles
    → k < 8
    → Unnamed p.name (take k profiles)
    → length p.name < max_sofia_name
    → Filled (suc k) (set profiles k p)
Filled-set k profiles p f lt u short = record {
  size = length-set profiles k p ∙ f.size;
  names = rw (take-set k profiles p (omega (arith, f.size))) (HasDistinctNames-snoc _ p f.names u);
  fit =
      rw (take-set k profiles p (omega (arith, f.size)))
        (All-snoc (λ q. length q.name < max_sofia_name) _ p f.fit short);
  rest = rw (drop-set k profiles p) (All-drop (λ q. q ≡ empty_profile) k profiles f.rest);
}

-- Elements that fit: no more than the array has room for, with names that fit their fields.
abbrev pub Fits : List XmlProfile → Type 0
Fits xs = All (λ x. length x.name < max_sofia_name) xs

-- The world but for its log.
abbrev pub Same : World → World → Type 0
Same w w' = (w'.vip ≡ w.vip) × (w'.rings ≡ w.rings)

pub utils_profile_control-Same :
    (env : Env) (name : Bytes) (w : World)
    → Returns (λ r w'. Same w w') (utils_profile_control env name w)
unfolding utils_profile_control
utils_profile_control-Same env name w = returns (refl, refl)

-- Where there is room, the loop faults on no element, and fills a further part of the array.
pub profiles_loop-Filled :
    (env : Env) (xs : List XmlProfile) (k : ℕ) (profiles : List SofiaProfile) (w : World)
    → Filled k profiles
    → k + length xs ≤ 8
    → Fits xs
    → Returns
        (λ r w'. ((k' : ℕ) × (k' ≤ 8) × Filled k' r) × Same w w')
        (profiles_loop env xs k profiles w)
unfolding profiles_loop
profiles_loop-Filled env [] k profiles w f room short = returns ((k, omega arith, f), (refl, refl))
profiles_loop-Filled env (x ∷ xs) k profiles w f room short =
    let inside : leb max_sofia_profiles k ≡ false = ground arith in
    let fits : leb max_sofia_name (length x.name) ≡ false = ground (arith, short.0) in
    rw inside (
      bind (utils_profile_control-Same env x.name w) λ defined w1 (v, r).
        elim (Bool-cases (not (is_success defined) || profile_name_is_present profiles k x.name)) [
          | inl skip ↦ rw skip (
              weaken (profiles_loop-Filled env xs k profiles w1 f (omega arith) short.1)
                (λ ps w2 (h, (v', r')). (h, (v' ∙ v, r' ∙ r))))
          | inr keep ↦
              let new = profile_name_is_present-Unnamed profiles k x.name (ground arith) in
              rw (keep, fits)
                (weaken
                  (profiles_loop-Filled env xs (suc k) (set profiles k (filled x)) w1
                    (Filled-set k profiles (filled x) f (omega arith) new short.0) (omega arith)
                    short.1)
                  (λ ps w2 (h, (v', r')). (h, (v' ∙ v, r' ∙ r))))
        ])
