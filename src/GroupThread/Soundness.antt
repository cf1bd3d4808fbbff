-- ===== src/GroupThread/Soundness.antt =====
-- `vip_thread` of cpg_virtual_ip.c with the callbacks that corosync makes through it.
use freeswitch_mod_cpg.Base.{
  ℕ, zero, suc, ℤ, eqb_ℤ, Bool, true, false, not, ◌||◌, List, [], ◌∷◌, Bytes, All, ◌≡◌, ◌∙◌, refl,
  if◌then◌else◌,
}
use freeswitch_mod_cpg.World.{
  Env, World, M, Log, Call, entry, cpg_leave, cpg_finalize, cpg_dispatch, yield_us, select_fd,
  cpg_context_set, cpg_fd_get, cpg_local_get, ◌>>=◌, ◌>>◌, pure, modify, ask, tell, ask_stored,
}
use freeswitch_mod_cpg.World.Sleep.{sleep}
use freeswitch_mod_cpg.World.Returns.{Returns, returns, bind, weaken}
use freeswitch_mod_cpg.Utils.Ip.Bound.{Target, target, bound}
use freeswitch_mod_cpg.Utils.Garp.{Addresses}
use freeswitch_mod_cpg.VirtualIp.Delivery.{Responsive}
use freeswitch_mod_cpg.Input.Safety.{IsSound}
use freeswitch_mod_cpg.Callbacks.{HasContext}
use freeswitch_mod_cpg.Callbacks.Safety.{
  Callback, Receivable, Keeps, call_back, call_back-Keeps, IsSound-relogged,
}
use freeswitch_mod_cpg.GroupThread.{
  more_retries, is_idle, retry_loop, initialize, join_group, wait_readable, dispatch_loop, finalize,
  serve_group, join_part, opened_part, vip_thread,
}

-- `cpg_dispatch` with CS_DISPATCH_ALL: it makes the callbacks that are pending, in their order.
unfoldable pub call_all : Env → List Callback → M (Unit {0})
call_all env [] = pure tt
call_all env (cb ∷ pending) = do call_back env cb; call_all env pending

abbrev pub dispatch_pending : Env → (World → List Callback) → M ℤ
dispatch_pending env pending w = (call_all env (pending w) >>= λ u. ask env cpg_dispatch) w

-- A call that says nothing of the address on the interface.
abbrev IsElsewhere : Call → Type 0
IsElsewhere c = (t : Target) (a : ℤ) (log : Log) → bound t (entry c a ∷ log) ≡ bound t log

module _ (env : Env) (ether ip : Bytes) where
  abbrev pub Reads : World → Type 0
  Reads w = Addresses env w.vip.config.mac w.vip.config.address ether ip

  -- What keeps the invariant and the configuration wherever it is run.
  abbrev pub KeepsSound : {A : Type 0} → M A → Type 0
  KeepsSound m = (w : World) → Reads w → IsSound w → Returns (Keeps w) (m w)

  then_lem :
      {A B : Type 0} {m : M A} {k : A → M B}
      → KeepsSound m
      → ((a : A) → KeepsSound (k a))
      → KeepsSound (m >>= k)
  then_lem first rest w reads sound =
      bind (first w reads sound)
        λ a w1 h. weaken (rest a w1 (rw h.1 reads) h.0) (λ b w2 g. (g.0, g.1 ∙ h.1))

  pure-KeepsSound : {A : Type 0} (a : A) → KeepsSound (pure a)
  pure-KeepsSound a w reads sound = returns (sound, refl)

  ask-KeepsSound : (c : Call) → IsElsewhere c → KeepsSound (ask env c)
  ask-KeepsSound c out w reads sound =
      returns
        (IsSound-relogged w _ refl refl refl refl (out (target w.vip.config) _ w.log) sound, refl)

  tell-KeepsSound : (c : Call) → IsElsewhere c → KeepsSound (tell env c)
  tell-KeepsSound c out w reads sound =
      returns
        (IsSound-relogged w _ refl refl refl refl (out (target w.vip.config) _ w.log) sound, refl)

  ask_stored-KeepsSound : (c : Call) → IsElsewhere c → KeepsSound (ask_stored env c)
  ask_stored-KeepsSound c out w reads sound =
      returns
        (IsSound-relogged w _ refl refl refl refl (out (target w.vip.config) _ w.log) sound, refl)

  if_lem :
      {A : Type 0} (t : Bool) {m n : M A}
      → KeepsSound m
      → KeepsSound n
      → KeepsSound (if t then m else n)
  if_lem true h k = h
  if_lem false h k = k

  module _ (elsewhere : World → World) (dispatch : M ℤ)
      (others : (w : World) → Reads w → IsSound w → Keeps w (tt {0}) (elsewhere w))
      (callbacks : KeepsSound dispatch) where
    sleep-KeepsSound : (us : ℕ) → KeepsSound (sleep env elsewhere us)
    unfolding bound
    sleep-KeepsSound us w reads sound =
        let w1 : World = record w {
          log = entry (yield_us us) (env.answer w.log (yield_us us)) ∷ w.log;
        } in
        returns (others w1 reads (IsSound-relogged w w1 refl refl refl refl refl sound))

    retry_loop-KeepsSound :
        (n : ℕ) (attempt : M ℤ)
        → KeepsSound attempt
        → KeepsSound (retry_loop env elsewhere dispatch n attempt)
    unfolding retry_loop
    retry_loop-KeepsSound zero attempt once = then_lem once λ r.
        if_lem (eqb_ℤ r env.cs_ok || not (eqb_ℤ r env.cs_err_try_again)) (pure-KeepsSound r)
          (then_lem (sleep-KeepsSound 10000) λ u. pure-KeepsSound r)
    retry_loop-KeepsSound (suc n) attempt once = then_lem once λ r.
        if_lem (eqb_ℤ r env.cs_ok || not (eqb_ℤ r env.cs_err_try_again)) (pure-KeepsSound r)
          (then_lem (sleep-KeepsSound 10000) λ u. retry_loop-KeepsSound n attempt once)

    initialize-KeepsSound : KeepsSound (initialize env elsewhere dispatch)
    unfolding bound
    initialize-KeepsSound w reads sound =
        returns (IsSound-relogged w _ refl refl refl refl refl sound, refl)

    join_group-KeepsSound : KeepsSound (join_group env elsewhere dispatch)
    unfolding bound
    join_group-KeepsSound w reads sound =
        returns (IsSound-relogged w _ refl refl refl refl refl sound, refl)

    wait_readable-KeepsSound : (fd : ℕ) → KeepsSound (wait_readable env elsewhere dispatch fd)
    unfolding bound
    wait_readable-KeepsSound fd w reads sound =
        let w1 : World = record w {
          log = entry (select_fd fd) (env.answer w.log (select_fd fd)) ∷ w.log;
        } in
        returns (others w1 reads (IsSound-relogged w w1 refl refl refl refl refl sound))

    dispatch_loop-KeepsSound : (n fd : ℕ) → KeepsSound (dispatch_loop env elsewhere dispatch n fd)
    unfolding dispatch_loop
    dispatch_loop-KeepsSound zero fd w = pure-KeepsSound tt w
    dispatch_loop-KeepsSound (suc n) fd w =
        if_lem (is_idle w.vip.state) (pure-KeepsSound tt)
          (then_lem (wait_readable-KeepsSound fd) λ readable.
            if_lem (not readable) (dispatch_loop-KeepsSound n fd) (
              then_lem callbacks λ r.
                if_lem (eqb_ℤ r env.cs_ok) (dispatch_loop-KeepsSound n fd) (pure-KeepsSound tt)))
          w

    finalize-KeepsSound : KeepsSound (finalize env elsewhere dispatch)
    unfolding bound
    finalize-KeepsSound =
        then_lem (tell-KeepsSound cpg_finalize (λ a i l. refl)) λ u. sleep-KeepsSound 10000

    serve_group-KeepsSound :
        (rounds fd : ℕ) → KeepsSound (serve_group env elsewhere dispatch rounds fd)
    unfolding bound
    serve_group-KeepsSound rounds fd = then_lem (dispatch_loop-KeepsSound rounds fd) λ u.
        then_lem (tell-KeepsSound cpg_leave (λ a i l. refl))
          λ u. then_lem (sleep-KeepsSound 10000) λ u. finalize-KeepsSound

    join_part-KeepsSound : (rounds fd : ℕ) → KeepsSound (join_part env elsewhere dispatch rounds fd)
    join_part-KeepsSound rounds fd =
        then_lem (retry_loop-KeepsSound more_retries _ join_group-KeepsSound) λ r.
          if_lem (not (eqb_ℤ r env.cs_ok)) finalize-KeepsSound (serve_group-KeepsSound rounds fd)

    -- `cpg_local_get` with the store of the node id.
    store_node_id-KeepsSound :
        (node_id : ℕ) → KeepsSound (modify (λ v. record v { node_id = node_id }))
    store_node_id-KeepsSound node_id w reads sound =
        returns (IsSound-relogged w _ refl refl refl refl refl sound, refl)

    opened_part-KeepsSound : (rounds : ℕ) → KeepsSound (opened_part env elsewhere dispatch rounds)
    unfolding bound
    opened_part-KeepsSound rounds = then_lem (ask-KeepsSound cpg_context_set (λ a i l. refl)) λ r.
        if_lem (not (eqb_ℤ r env.cs_ok)) finalize-KeepsSound (
          then_lem (ask_stored-KeepsSound cpg_fd_get (λ a i l. refl)) λ (_, fd).
            then_lem (ask_stored-KeepsSound cpg_local_get (λ a i l. refl)) λ (r, node_id).
              then_lem (store_node_id-KeepsSound node_id) λ u.
                if_lem (not (eqb_ℤ r env.cs_ok)) finalize-KeepsSound
                  (join_part-KeepsSound rounds fd))

    pub vip_thread-KeepsSound : (rounds : ℕ) → KeepsSound (vip_thread env elsewhere dispatch rounds)
    unfolding vip_thread
    vip_thread-KeepsSound rounds =
        then_lem (retry_loop-KeepsSound more_retries _ initialize-KeepsSound) λ r.
          if_lem (not (eqb_ℤ r env.cs_ok)) (sleep-KeepsSound 10000) (opened_part-KeepsSound rounds)

  module _ (responsive : Responsive env) (context : HasContext env) where
    call_all-KeepsSound :
        (pending : List Callback) → All Receivable pending → KeepsSound (call_all env pending)
    unfolding call_all
    call_all-KeepsSound [] h = pure-KeepsSound tt
    call_all-KeepsSound (cb ∷ pending) h =
        then_lem (λ w. call_back-Keeps env ether ip responsive cb w h.0 context)
          λ u. call_all-KeepsSound pending h.1

    dispatch_pending-KeepsSound :
        (pending : World → List Callback)
        → ((w : World) → All Receivable (pending w))
        → KeepsSound (dispatch_pending env pending)
    unfolding bound
    dispatch_pending-KeepsSound pending h w =
        then_lem (call_all-KeepsSound (pending w) (h w))
          (λ u. ask-KeepsSound cpg_dispatch (λ a i l. refl)) w

-- The group thread, with the callbacks that `cpg_dispatch` makes on pending messages and changes of
-- the group, returns and keeps the invariant and the configuration of a virtual ip, for any number
-- of rounds and whatever corosync answers. That is so where libc reads the configured addresses,
-- corosync settles every message and finds the context in every callback, each pending message is
-- one of the module with fields that fit and not from node 0, and the other threads keep the
-- invariant and the configuration too.
pub vip_thread-Keeps :
    (env : Env) (ether ip : Bytes) (elsewhere : World → World) (pending : World → List Callback)
    (rounds : ℕ) (w : World)
    → Responsive env
    → HasContext env
    → ((w : World) → All Receivable (pending w))
    → ((w : World) → Reads env ether ip w → IsSound w → Keeps w (tt {0}) (elsewhere w))
    → Reads env ether ip w
    → IsSound w
    → Returns (Keeps w) (vip_thread env elsewhere (dispatch_pending env pending) rounds w)
vip_thread-Keeps env ether ip elsewhere pending rounds w responsive context receivable others reads
      sound =
    vip_thread-KeepsSound env ether ip elsewhere (dispatch_pending env pending) others
      (dispatch_pending-KeepsSound env ether ip responsive context pending receivable) rounds w
      reads sound
