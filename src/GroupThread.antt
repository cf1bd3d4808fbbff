-- ===== src/GroupThread.antt =====
-- cpg_virtual_ip.c: the thread that joins the process group of a virtual ip, lets corosync call the
-- callbacks, and leaves the group again. `elsewhere` is what the other threads make of the world
-- while this one sleeps or waits, `dispatch` is `cpg_dispatch` of corosync with the callbacks that
-- it makes.
pub mod Protocol
pub mod Retry
pub mod Balance
pub mod Soundness
pub mod Silence
pub mod Whole
use freeswitch_mod_cpg.Base.{
  ℕ, zero, suc, ℤ, eqb_ℤ, Bool, true, false, not, ◌||◌, ◌∷◌, ◌==◌, if◌then◌else◌,
}
use freeswitch_mod_cpg.Types.{State, idle, VirtualIp}
use freeswitch_mod_cpg.World.{
  Env, World, M, entry, done, cpg_initialize, cpg_context_set, cpg_fd_get, cpg_local_get, cpg_join,
  cpg_leave, cpg_finalize, select_fd, ◌>>=◌, ◌>>◌, pure, gets, modify, ask, tell, ask_stored,
}
use freeswitch_mod_cpg.World.Sleep.{sleep}

-- CS_MAX_RETRIES, less the first try.
abbrev pub more_retries : ℕ
more_retries = 9

abbrev pub is_idle : State → Bool
is_idle idle = true
is_idle _ = false

module _ (env : Env) (elsewhere : World → World) (dispatch : M ℤ) where
  -- The two loops over CS_MAX_RETRIES, with the result of the last try.
  unfoldable pub retry_loop : ℕ → M ℤ → M ℤ
  retry_loop zero attempt = do
    result ← attempt
    if eqb_ℤ result env.cs_ok || not (eqb_ℤ result env.cs_err_try_again)
        then pure result
        else do sleep env elsewhere 10000; pure result
  retry_loop (suc k) attempt = do
    result ← attempt
    let rest = retry_loop k attempt
    if eqb_ℤ result env.cs_ok || not (eqb_ℤ result env.cs_err_try_again)
        then pure result
        else do sleep env elsewhere 10000; rest

  abbrev pub initialize : M ℤ
  initialize = do
    (result, handle) ← ask_stored env cpg_initialize
    modify (λ v. record v { handle = handle })
    pure result

  abbrev pub join_group : M ℤ
  join_group = do group_name ← gets (λ v. v.config.group_name); ask env (cpg_join group_name)

  -- Whether `select` finds the descriptor readable; the others run for up to a second.
  abbrev pub wait_readable : ℕ → M Bool
  wait_readable fd = do
    (result, readable) ← ask_stored env (select_fd fd)
    λ w. done (not (readable == 0)) (elsewhere w)

  -- The `while` loop; `globals.running` stays true for so many rounds.
  unfoldable pub dispatch_loop : ℕ → ℕ → M (Unit {0})
  dispatch_loop zero fd = pure tt
  dispatch_loop (suc k) fd = do
    state ← gets (λ v. v.state)
    let rest = dispatch_loop k fd
    if is_idle state then pure tt else do
      readable ← wait_readable fd
      if not readable
          then rest
          else do result ← dispatch; if eqb_ℤ result env.cs_ok then rest else pure tt

  -- From the label `finalize` on.
  abbrev pub finalize : M (Unit {0})
  finalize = do tell env cpg_finalize; sleep env elsewhere 10000

  -- From the loop on.
  abbrev pub serve_group : ℕ → ℕ → M (Unit {0})
  serve_group rounds fd = do
    dispatch_loop rounds fd
    tell env cpg_leave
    sleep env elsewhere 10000
    finalize

  -- From the second loop over CS_MAX_RETRIES on.
  abbrev pub join_part : ℕ → ℕ → M (Unit {0})
  join_part rounds fd = do
    result ← retry_loop more_retries join_group
    if not (eqb_ℤ result env.cs_ok) then finalize else serve_group rounds fd

  -- From `cpg_context_set` on.
  abbrev pub opened_part : ℕ → M (Unit {0})
  opened_part rounds = do
    result ← ask env cpg_context_set
    if not (eqb_ℤ result env.cs_ok) then finalize else do
      (_, fd) ← ask_stored env cpg_fd_get
      (result, node_id) ← ask_stored env cpg_local_get
      modify (λ v. record v { node_id = node_id })
      if not (eqb_ℤ result env.cs_ok) then finalize else join_part rounds fd

  -- `globals.running` stays true for so many rounds of the `while` loop.
  unfoldable pub vip_thread : ℕ → M (Unit {0})
  unfolding retry_loop dispatch_loop
  vip_thread rounds = do
    result ← retry_loop more_retries initialize
    if not (eqb_ℤ result env.cs_ok) then sleep env elsewhere 10000 else opened_part rounds
