-- ===== src/GroupThread/Retry.antt =====
-- The two loops of `vip_thread` in cpg_virtual_ip.c over CS_MAX_RETRIES.
use freeswitch_mod_cpg.Base.{ℕ, zero, suc, ℤ, eqb_ℤ, inl, inr, Bool-cases, ◌≡◌, arith}
use freeswitch_mod_cpg.World.{Env, World, M}
use freeswitch_mod_cpg.World.Sleep.{slept}
use freeswitch_mod_cpg.GroupThread.{retry_loop, initialize, join_group}
use freeswitch_mod_cpg.GroupThread.Protocol.{
  Membership, unopened, opened, joined, Protocol, protocol, KeepsMembership, Tried, initializes_of,
  joins_of, protocol-slept,
}
use freeswitch_mod_cpg.World.Partial.{IfReturns, returned, and_then-IfReturns, weaken_if, of_Allows}

module _ (env : Env) (elsewhere : World → World) (dispatch : M ℤ)
    (keeps : KeepsMembership env elsewhere dispatch) where
  -- What one try does, at most `n + 1` tries do.
  pub retry_loop-Tried :
      (count other : Protocol → ℕ) (before won : Membership) (attempt : M ℤ)
      → ((w : World)
          → (protocol env w.log).membership ≡ before
          → IfReturns (Tried env count other before won 1 w) (attempt w))
      → (n : ℕ) (w : World) → (protocol env w.log).membership ≡ before
      → IfReturns
          (Tried env count other before won (suc n) w)
          (retry_loop env elsewhere dispatch n attempt w)
  unfolding retry_loop
  retry_loop-Tried count other before won attempt once zero w h =
      and_then-IfReturns (once w h) λ r w1 k. elim (Bool-cases (eqb_ℤ r env.cs_ok)) [
        | inl ok ↦ rw ok (returned (ground arith))
        | inr not_ok ↦ elim (Bool-cases (eqb_ℤ r env.cs_err_try_again)) [
          | inl again ↦
              rw (not_ok, again)
                (returned (ground (arith, protocol-slept env elsewhere dispatch keeps 10000 w1)))
          | inr settled ↦ rw (not_ok, settled) (returned (ground arith))
        ]
      ]
  retry_loop-Tried count other before won attempt once (suc n) w h =
      and_then-IfReturns (once w h) λ r w1 k. elim (Bool-cases (eqb_ℤ r env.cs_ok)) [
        | inl ok ↦ rw ok (returned (ground arith))
        | inr not_ok ↦ elim (Bool-cases (eqb_ℤ r env.cs_err_try_again)) [
          | inl again ↦
              let same = protocol-slept env elsewhere dispatch keeps 10000 w1 in
              rw (not_ok, again)
                (weaken_if
                  (retry_loop-Tried count other before won attempt once n
                    (slept env elsewhere 10000 w1) (ground (arith, same)))
                  (λ r' w2 m. ground (arith, same)))
          | inr settled ↦ rw (not_ok, settled) (returned (ground arith))
        ]
      ]

  pub initialize-Tried :
      (w : World)
      → (protocol env w.log).membership ≡ unopened
      → IfReturns
          (Tried env initializes_of joins_of unopened opened 1 w)
          (initialize env elsewhere dispatch w)
  unfolding protocol
  initialize-Tried w h =
      of_Allows (Tried env initializes_of joins_of unopened opened 1 w) _ (ground arith)

  pub join_group-Tried :
      (w : World)
      → (protocol env w.log).membership ≡ opened
      → IfReturns
          (Tried env joins_of initializes_of opened joined 1 w)
          (join_group env elsewhere dispatch w)
  unfolding protocol
  join_group-Tried w h =
      of_Allows (Tried env joins_of initializes_of opened joined 1 w) _ (ground arith)
