-- ===== src/GroupThread/Whole.antt =====
-- `vip_thread` of cpg_virtual_ip.c from its start to its end, with the callbacks of corosync.
use freeswitch_mod_cpg.Base.{ℕ, ◌≡◌, List, Bytes, All}
use freeswitch_mod_cpg.World.{Env, World}
use freeswitch_mod_cpg.World.Returns.{Returns, both}
use freeswitch_mod_cpg.World.Partial.{also}
use freeswitch_mod_cpg.VirtualIp.Delivery.{Responsive}
use freeswitch_mod_cpg.Input.Safety.{IsSound}
use freeswitch_mod_cpg.Callbacks.{HasContext}
use freeswitch_mod_cpg.Callbacks.Safety.{Callback, Receivable, Keeps}
use freeswitch_mod_cpg.GroupThread.{vip_thread}
use freeswitch_mod_cpg.GroupThread.Protocol.{Balanced, protocol, unopened}
use freeswitch_mod_cpg.GroupThread.Balance.{vip_thread-Balanced}
use freeswitch_mod_cpg.GroupThread.Soundness.{Reads, dispatch_pending, vip_thread-Keeps}
use freeswitch_mod_cpg.GroupThread.Silence.Callbacks.{dispatch_pending-Silent}

-- What the other threads leave alone while this one sleeps or waits: the invariant, the
-- configuration, and the membership of this thread.
pub record KeepsAside (env : Env) (ether ip : Bytes) (elsewhere : World → World) : Type 0 where
  pub soundness : (w : World) → Reads env ether ip w → IsSound w → Keeps w (tt {0}) (elsewhere w)
  pub membership : (w : World) → protocol env (elsewhere w).log ≡ protocol env w.log

-- The thread is balanced, and the invariant and the configuration are kept.
abbrev pub Completes : {A : Type 0} → Env → World → A → World → Type 0
Completes env w u w' = Balanced env w w' × Keeps w u w'

-- The group thread, with the callbacks that `cpg_dispatch` makes on pending messages and changes of
-- the group, returns for any number of rounds until the module stops, and whatever corosync
-- answers. It calls `cpg_initialize` and `cpg_join` at most ten times each; it joins only after it
-- has initialized, leaves just where it has joined, and finalizes just where it has initialized,
-- after it has left, so that it ends with nothing open. It keeps the invariant and the
-- configuration of the virtual ip. That is so where it starts with nothing open and with the
-- invariant, libc reads the configured addresses, corosync settles every message and finds the
-- context in every callback, each pending message is one of the module with fields that fit and not
-- from node 0, and the other threads keep the invariant, the configuration and the membership of
-- this thread.
pub vip_thread-Completes :
    (env : Env) (ether ip : Bytes) (elsewhere : World → World) (pending : World → List Callback)
    (rounds : ℕ) (w : World)
    → Responsive env
    → HasContext env
    → ((w : World) → All Receivable (pending w))
    → KeepsAside env ether ip elsewhere
    → Reads env ether ip w
    → IsSound w
    → (protocol env w.log).membership ≡ unopened
    → Returns (Completes env w) (vip_thread env elsewhere (dispatch_pending env pending) rounds w)
vip_thread-Completes env ether ip elsewhere pending rounds w responsive context receivable aside
      reads sound closed =
    let dispatch = dispatch_pending env pending in
    let lives =
      vip_thread-Keeps env ether ip elsewhere pending rounds w responsive context receivable
        aside.soundness reads sound in
    let balances =
      vip_thread-Balanced env elsewhere dispatch
        (record { others = aside.membership; callbacks = dispatch_pending-Silent env pending })
        rounds w closed in
    both (λ u w'. Balanced env w w') (Keeps w) (vip_thread env elsewhere dispatch rounds w)
      (also lives balances) lives
