-- ===== src/VirtualIp/Delivery.antt =====
-- cpg_virtual_ip.c: `send_message` returns where corosync does not answer CPG_ERR_TRY_AGAIN for
-- ever, and sending touches no state.
use freeswitch_mod_cpg.Base.{
  ℕ, zero, suc, ℤ, eqb_ℤ, is_zero, zstr, length, Option, none, some, true, ◌≡◌, refl, inl, inr,
  List, [], ◌∷◌, Bytes, Bool-cases, arith, ◌∙◌,
}
use freeswitch_mod_cpg.Types.{SofiaProfile}
use freeswitch_mod_cpg.World.{
  Env, World, Log, entry, cpg_mcast_joined, yield_us, malloc, free_buffer, core_get_uuid,
  event_create, event_fire,
}
use freeswitch_mod_cpg.World.Returns.{Returns, returns, bind, of_Ensures, weaken}
use freeswitch_mod_cpg.Utils.Sofia.{utils_send_request_all}
use freeswitch_mod_cpg.VirtualIp.Message.{
  sql_message, mcast_loop, send_message, virtual_ip_send_state, virtual_ip_send_sql,
  request_all_loop, virtual_ip_send_all_sql,
}

module _ (env : Env) where
  -- The answer of corosync to one more try of a multicast.
  abbrev pub try : ℕ → Bytes → Log → ℤ
  try h buf log = env.answer log (cpg_mcast_joined h buf)

  -- The log after a try that is to be repeated, and the pause after it.
  abbrev pub retried : ℕ → Bytes → Log → Log
  retried h buf log =
      let tried = entry (cpg_mcast_joined h buf) (try h buf log) ∷ log in
      entry (yield_us 1000) (env.answer tried (yield_us 1000)) ∷ tried

  -- Corosync takes or refuses the message within `n` tries.
  abbrev pub Settles : ℕ → ℕ → Bytes → Log → Type 0
  Settles zero h buf log = ⊥
  Settles (suc n) h buf log =
      eqb_ℤ (try h buf log) env.cs_err_try_again ≡ true → Settles n h buf (retried h buf log)

  -- It does so for every message at any time.
  pub record Responsive : Type 0 where
    pub settles : (h : ℕ) (buf : Bytes) (log : Log) → Settles env.patience h buf log

  -- What is read off the log does not depend on the calls made to send something.
  pub record IgnoresSending (X : Type 0) (f : Log → X) : Type 0 where
    pub mcast :
        (h : ℕ) (buf : Bytes) (a : ℤ) (l : Log) → f (entry (cpg_mcast_joined h buf) a ∷ l) ≡ f l
    pub pause : (n : ℕ) (a : ℤ) (l : Log) → f (entry (yield_us n) a ∷ l) ≡ f l
    pub alloc : (n : ℕ) (a : ℤ) (l : Log) → f (entry (malloc n) a ∷ l) ≡ f l
    pub release : (a : ℤ) (l : Log) → f (entry free_buffer a ∷ l) ≡ f l
    pub uuid : (a : ℤ) (l : Log) → f (entry core_get_uuid a ∷ l) ≡ f l
    pub event : (a : ℤ) (l : Log) → f (entry event_create a ∷ l) ≡ f l
    pub fire : (h : List (Bytes × Bytes)) (a : ℤ) (l : Log) → f (entry (event_fire h) a ∷ l) ≡ f l

  -- The virtual ip, the rings and the view of the log are left alone.
  abbrev pub Quiet : {A : Type 0} (X : Type 0) (f : Log → X) → World → A → World → Type 0
  Quiet X f w a w' = (w'.vip ≡ w.vip) × (w'.rings ≡ w.rings) × (f w'.log ≡ f w.log)

  module _ (X : Type 0) (f : Log → X) (view : IgnoresSending X f) where
    mcast_loop-Quiet :
        (n h : ℕ) (buf : Bytes) (w : World)
        → Settles n h buf w.log
        → Returns (Quiet X f w) (mcast_loop env n h buf w)
    unfolding mcast_loop
    mcast_loop-Quiet zero h buf w s = absurd s
    mcast_loop-Quiet (suc n) h buf w s =
        elim (Bool-cases (eqb_ℤ (try h buf w.log) env.cs_err_try_again)) [
          | inl again ↦ rw again (
              weaken (mcast_loop-Quiet n h buf (record w { log = retried h buf w.log }) (s again))
                (λ a w' (v, r, l). (v, r, l ∙ view.pause _ _ _ ∙ view.mcast _ _ _ _)))
          | inr settled ↦ rw settled (returns (refl, refl, view.mcast _ _ _ _))
        ]

    module _ (responsive : Responsive) where
      pub send_message-Quiet :
          (h : ℕ) (buf : Bytes) (w : World) → Returns (Quiet X f w) (send_message env h buf w)
      unfolding send_message
      send_message-Quiet h buf w =
          bind (mcast_loop-Quiet env.patience h buf w (responsive.settles h buf w.log))
            λ error w' k. returns k

      pub virtual_ip_send_state-Quiet :
          (w : World) → Returns (Quiet X f w) (virtual_ip_send_state env w)
      unfolding virtual_ip_send_state
      virtual_ip_send_state-Quiet w = elim (Bool-cases (is_zero (env.answer w.log (malloc 56)))) [
        | inl full ↦ rw full (returns (refl, refl, view.alloc _ _ _))
        | inr room ↦ rw room (
            bind (send_message-Quiet _ _ _) λ status w' (v, r, l).
              returns (v, r, view.release _ _ ∙ l ∙ view.uuid _ _ ∙ view.alloc _ _ _))
      ]

      pub virtual_ip_send_sql-Quiet :
          (name : Option Bytes) (text : Bytes) (w : World)
          → Returns (Quiet X f w) (virtual_ip_send_sql env name text w)
      unfolding virtual_ip_send_sql
      virtual_ip_send_sql-Quiet none text w = returns (refl, refl, refl)
      virtual_ip_send_sql-Quiet (some name) text w =
          let buf = sql_message (env.beyond name) name text in
          elim (Bool-cases (is_zero (env.answer w.log (malloc (length buf))))) [
            | inl full ↦ rw full (returns (refl, refl, view.alloc _ _ _))
            | inr room ↦ rw room (
                bind (send_message-Quiet _ _ _)
                  λ status w' (v, r, l). returns (v, r, view.release _ _ ∙ l ∙ view.alloc _ _ _))
          ]

    utils_send_request_all-Quiet :
        (name : Bytes) (w : World) → Returns (Quiet X f w) (utils_send_request_all env name w)
    unfolding utils_send_request_all
    utils_send_request_all-Quiet name w =
        of_Ensures (Quiet X f w) _ (grind (arith, view.event, view.fire))

    pub request_all_loop-Quiet :
        (l : List SofiaProfile) (w : World) → Returns (Quiet X f w) (request_all_loop env l w)
    unfolding request_all_loop
    request_all_loop-Quiet [] w = returns (refl, refl, refl)
    request_all_loop-Quiet (p ∷ l) w = elim (Bool-cases (zstr p.name)) [
      | inl last ↦ rw last (returns (refl, refl, refl))
      | inr more ↦ rw more (
          bind (utils_send_request_all-Quiet p.name w) λ a w' (v, r, e).
            weaken (request_all_loop-Quiet l w') (λ b w'' (v', r', e'). (v' ∙ v, r' ∙ r, e' ∙ e)))
    ]

    pub virtual_ip_send_all_sql-Quiet :
        (w : World) → Returns (Quiet X f w) (virtual_ip_send_all_sql env w)
    unfolding virtual_ip_send_all_sql
    virtual_ip_send_all_sql-Quiet w =
        bind (request_all_loop-Quiet w.vip.config.profiles w) λ a w' k. returns k
