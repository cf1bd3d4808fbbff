-- ===== src/GroupThread/Balance.antt =====
-- How `vip_thread` of cpg_virtual_ip.c joins and leaves its process group.
use freeswitch_mod_cpg.Base.{
  ℕ, zero, suc, ◌+◌, ◌≤◌, ℤ, eqb_ℤ, not, inl, inr, Bool-cases, ◌∷◌, ◌==◌, ◌≡◌, ◌∙◌, refl, arith,
}
use freeswitch_mod_cpg.World.{
  Env, World, M, Log, entry, cpg_leave, select_fd, cpg_context_set, cpg_fd_get, cpg_local_get,
}
use freeswitch_mod_cpg.World.Sleep.{slept}
use freeswitch_mod_cpg.GroupThread.{
  more_retries, is_idle, initialize, join_group, dispatch_loop, finalize, serve_group, join_part,
  opened_part, vip_thread,
}
use freeswitch_mod_cpg.GroupThread.Protocol.{
  Balanced, Membership, unopened, opened, joined, protocol, KeepsMembership, waited, initializes_of,
  joins_of, protocol-slept,
}
use freeswitch_mod_cpg.GroupThread.Retry.{retry_loop-Tried, initialize-Tried, join_group-Tried}
use freeswitch_mod_cpg.World.Partial.{IfReturns, returned, and_then-IfReturns, weaken_if}

module _ (env : Env) (elsewhere : World → World) (dispatch : M ℤ)
    (keeps : KeepsMembership env elsewhere dispatch) where
  dispatch_loop-protocol :
      (n fd : ℕ) (w : World)
      → IfReturns
          (λ u w'. protocol env w'.log ≡ protocol env w.log)
          (dispatch_loop env elsewhere dispatch n fd w)
  unfolding dispatch_loop protocol
  dispatch_loop-protocol zero fd w = returned refl
  dispatch_loop-protocol (suc n) fd w = elim (Bool-cases (is_idle w.vip.state)) [
    | inl gone ↦ rw gone (returned refl)
    | inr here ↦
        let w1 = waited env elsewhere fd w in
        let same : protocol env w1.log ≡ protocol env w.log = keeps.others _ in
        elim (Bool-cases (not (env.stored w.log (select_fd fd) == 0))) [
          | inl readable ↦
              rw (here, readable)
                (and_then-IfReturns (keeps.callbacks w1) λ r w2 k.
                  elim (Bool-cases (eqb_ℤ r env.cs_ok)) [
                    | inl ok ↦
                        rw ok (weaken_if (dispatch_loop-protocol n fd w2) (λ u w3 m. m ∙ k ∙ same))
                    | inr not_ok ↦ rw not_ok (returned (k ∙ same))
                  ])
          | inr silent ↦
              rw (here, silent) (weaken_if (dispatch_loop-protocol n fd w1) (λ u w3 m. m ∙ same))
        ]
  ]

  -- What is left of a thread, from a membership on: no try more, and unopened at the end.
  abbrev Finishes : M (Unit {0}) → Membership → Type 0
  Finishes rest before =
      (w : World)
      → (protocol env w.log).membership ≡ before
      → IfReturns
          (λ u w'. protocol env w'.log ≡ record (protocol env w.log) { membership = unopened })
          (rest w)

  finalize-Finishes : Finishes (finalize env elsewhere dispatch) opened
  unfolding protocol
  finalize-Finishes w h = returned (keeps.others _ ∙ ground arith)

  serve_group-Finishes :
      (rounds fd : ℕ) → Finishes (serve_group env elsewhere dispatch rounds fd) joined
  unfolding protocol
  serve_group-Finishes rounds fd w h =
      and_then-IfReturns (dispatch_loop-protocol rounds fd w) λ u w1 k.
        weaken_if
          (finalize-Finishes (left w1)
            (ground (arith, protocol-slept env elsewhere dispatch keeps 10000 (leave w1))))
          (λ u' w2 m. ground (arith, protocol-slept env elsewhere dispatch keeps 10000 (leave w1)))
    where
      leave : World → World
      leave w = record w { log = entry cpg_leave (env.answer w.log cpg_leave) ∷ w.log }

      left : World → World
      left w = slept env elsewhere 10000 (leave w)

  -- From the join on.
  joins_group :
      (rounds fd : ℕ) (w : World)
      → (protocol env w.log).membership ≡ opened
      → IfReturns
          (λ u w'.
            ((protocol env w'.log).membership ≡ unopened)
            × ((protocol env w'.log).initializes ≡ (protocol env w.log).initializes)
            × ((protocol env w'.log).joins ≤ (protocol env w.log).joins + 10))
          (join_part env elsewhere dispatch rounds fd w)
  joins_group rounds fd w h =
      and_then-IfReturns
        (retry_loop-Tried env elsewhere dispatch keeps joins_of initializes_of opened joined
          (join_group env elsewhere dispatch) (join_group-Tried env elsewhere dispatch keeps)
          more_retries w h)
        λ r w1 k. elim (Bool-cases (eqb_ℤ r env.cs_ok)) [
          | inl ok ↦ rw ok (
              weaken_if (serve_group-Finishes rounds fd w1 (ground arith)) (λ u w2 m. ground arith))
          | inr not_ok ↦
              rw not_ok (weaken_if (finalize-Finishes w1 (ground arith)) (λ u w2 m. ground arith))
        ]

  -- From `cpg_context_set` on.
  opens_group :
      (rounds : ℕ) (w : World)
      → (protocol env w.log).membership ≡ opened
      → IfReturns
          (λ u w'.
            ((protocol env w'.log).membership ≡ unopened)
            × ((protocol env w'.log).initializes ≡ (protocol env w.log).initializes)
            × ((protocol env w'.log).joins ≤ (protocol env w.log).joins + 10))
          (opened_part env elsewhere dispatch rounds w)
  unfolding protocol
  opens_group rounds w h = elim (Bool-cases (eqb_ℤ (env.answer w.log cpg_context_set) env.cs_ok)) [
    | inl set ↦ elim (Bool-cases (eqb_ℤ (env.answer (asked_fd w.log) cpg_local_get) env.cs_ok)) [
      | inl got ↦ rw (set, got) (weaken_if (joins_group rounds _ _ h) (λ u w2 m. m))
      | inr not_got ↦ rw (set, not_got) (weaken_if (finalize-Finishes _ h) (λ u w2 m. ground arith))
    ]
    | inr not_set ↦ rw not_set (weaken_if (finalize-Finishes _ h) (λ u w2 m. ground arith))
  ]
    where
      -- The log where `cpg_local_get` is called.
      asked_fd : Log → Log
      asked_fd log =
          let set = entry cpg_context_set (env.answer log cpg_context_set) ∷ log in
          entry cpg_fd_get (env.answer set cpg_fd_get) ∷ set

  -- If the whole thread returns, it is balanced.
  pub vip_thread-Balanced :
      (rounds : ℕ) (w : World)
      → (protocol env w.log).membership ≡ unopened
      → IfReturns (λ u w'. Balanced env w w') (vip_thread env elsewhere dispatch rounds w)
  unfolding vip_thread
  vip_thread-Balanced rounds w h =
      and_then-IfReturns
        (retry_loop-Tried env elsewhere dispatch keeps initializes_of joins_of unopened opened
          (initialize env elsewhere dispatch) (initialize-Tried env elsewhere dispatch keeps)
          more_retries w h)
        λ r w1 k. elim (Bool-cases (eqb_ℤ r env.cs_ok)) [
          | inl ok ↦
              rw ok (weaken_if (opens_group rounds w1 (ground arith)) (λ u w2 m. ground arith))
          | inr not_ok ↦
              rw not_ok
                (returned (ground (arith, protocol-slept env elsewhere dispatch keeps 10000 w1)))
        ]
