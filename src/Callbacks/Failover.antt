-- ===== src/Callbacks/Failover.antt =====
-- The loss of the master (`confchg_callback` of cpg_virtual_ip.c, `fsm_input_node_down` of
-- fsm_input.c, `react` of fsm.c).
use freeswitch_mod_cpg.Base.{ℕ, ◌≡◌, ◌≢◌, ◌⊎◌, ◌∙◌, refl, ap, false, List, [], ◌∷◌, Bytes, arith}
use freeswitch_mod_cpg.Types.{master_down, idle, backup, master, VirtualIp, Node}
use freeswitch_mod_cpg.World.{Env, World}
use freeswitch_mod_cpg.World.Returns.{Returns, returns, bind, weaken, both, of_Ensures}
use freeswitch_mod_cpg.Arp.Frame.{arp_frame}
use freeswitch_mod_cpg.Arp.Ring.{HasRings}
use freeswitch_mod_cpg.Arp.Send.{sent}
use freeswitch_mod_cpg.Node.{node_first, node_unlink, node_remove}
use freeswitch_mod_cpg.Utils.Ip.Bound.{Target, target, bound}
use freeswitch_mod_cpg.Utils.Garp.{Addresses, gratuitous}
use freeswitch_mod_cpg.VirtualIp.Delivery.{Responsive}
use freeswitch_mod_cpg.Fsm.{fsm_do_transaction, table}
use freeswitch_mod_cpg.Fsm.Takeover.{network, HasAddress, react-TakesOver}
use freeswitch_mod_cpg.Input.{down_event, forget_rollback, fsm_input_node_down}
use freeswitch_mod_cpg.Input.Safety.{IsSound, forget_rollback-keeps}
use freeswitch_mod_cpg.Input.Views.{node_remove-unlinked, forget_rollback-node_id}
use freeswitch_mod_cpg.Callbacks.{left_loop, confchg_callback}
use freeswitch_mod_cpg.Callbacks.Safety.{IsSound-relogged, asked}
use freeswitch_mod_cpg.Callbacks.{HasContext}

-- A node with the list `l` has taken the address over as the first of the list, or is down, or is
-- not the first and stays behind, with nothing changed on the network.
abbrev pub FailsOver : Bytes → List Node → World → World → Type 0
FailsOver frame l w w' =
    ((w.vip.node_id ≡ node_first l)
      × (w'.vip.state ≡ master)
      × (w'.vip.node_list ≡ l)
      × HasAddress (target w.vip.config) frame w w')
    ⊎ (((w.vip.node_id ≡ node_first l) × (w'.vip.state ≡ idle))
        ⊎ ((w.vip.node_id ≢ node_first l)
            × (w'.vip.state ≡ backup)
            × (w'.vip.node_list ≡ l)
            × (network (target w.vip.config) w'.log ≡ network (target w.vip.config) w.log)))

-- A run that starts where another one has only changed the list.
pub FailsOver-then :
    (frame : Bytes) (l : List Node) (w w1 w' : World)
    → w1.vip.node_id ≡ w.vip.node_id
    → w1.vip.config ≡ w.vip.config
    → network (target w.vip.config) w1.log ≡ network (target w.vip.config) w.log
    → FailsOver frame l w1 w'
    → FailsOver frame l w w'
FailsOver-then frame l w w1 w' n c k t = ground arith

module _ (env : Env) (ether ip : Bytes) (responsive : Responsive env) where
  abbrev frame : Bytes
  frame = arp_frame (gratuitous ether ip)

  abbrev Reads : World → Type 0
  Reads w = Addresses env w.vip.config.mac w.vip.config.address ether ip

  master_down-FailsOver :
      (w : World)
      → Reads w
      → HasRings w.rings
      → w.vip.state ≡ backup
      → Returns
          (λ s w'. FailsOver frame w.vip.node_list w w')
          (fsm_do_transaction env master_down w)
  unfolding fsm_do_transaction table
  master_down-FailsOver w a rings b =
      simp b (weaken (react-TakesOver env w ether ip responsive a rings) (λ s w' t. ground arith))

  node_remove-network :
      (t : Target) (l : List Node) (id : ℕ) (w : World)
      → Returns
          (λ l' w'. (network t w'.log ≡ network t w.log) × (w'.rings ≡ w.rings))
          (node_remove env l id w)
  unfolding node_remove bound sent
  node_remove-network t l id w =
      of_Ensures (λ l' w'. (network t w'.log ≡ network t w.log) × (w'.rings ≡ w.rings)) _
        (ground arith)

  down_event-master :
      (v : VirtualIp) (nodeid : ℕ) → v.master_id ≡ nodeid → down_event v nodeid ≡ master_down
  down_event-master v nodeid e = ground arith

  node_down-FailsOver :
      (nodeid : ℕ) (w : World)
      → Reads w
      → IsSound w
      → w.vip.state ≡ backup
      → w.vip.master_id ≡ nodeid
      → Returns
          (λ s w'. FailsOver frame (node_unlink w.vip.node_list nodeid) w w')
          (fsm_input_node_down env nodeid w)
  unfolding fsm_input_node_down
  node_down-FailsOver nodeid w a sound b m = rw (down_event-master w.vip nodeid m) (
      bind
        (both _ _ _ (node_remove-unlinked env w.vip.node_list nodeid w)
          (node_remove-network (target w.vip.config) w.vip.node_list nodeid w))
        λ l w1 k.
          let v = record (w1.vip) { node_list = l } in
          let same = forget_rollback-keeps nodeid v in
          let w2 = record w1 { vip = forget_rollback nodeid v } in
          let config = same.0 ∙ ap (λ (q : VirtualIp). q.config) k.0.1 in
          weaken
            (master_down-FailsOver w2 (rw config a) (rw k.1.1 sound.safe.rings)
              (same.1 ∙ ap (λ (q : VirtualIp). q.state) k.0.1 ∙ b))
            (λ s w' t.
              FailsOver-then frame (node_unlink w.vip.node_list nodeid) w w2 w'
                (forget_rollback-node_id nodeid v ∙ ap (λ (q : VirtualIp). q.node_id) k.0.1) config
                k.1.0 (rw (same.2 ∙ k.0.0) at t)))

  left_loop-FailsOver :
      (nodeid : ℕ) (w : World)
      → Reads w
      → IsSound w
      → w.vip.state ≡ backup
      → w.vip.master_id ≡ nodeid
      → Returns
          (λ u w'. FailsOver frame (node_unlink w.vip.node_list nodeid) w w')
          (left_loop env (nodeid ∷ []) w)
  unfolding left_loop
  left_loop-FailsOver nodeid w a sound b m =
      bind (node_down-FailsOver nodeid w a sound b m) λ s w' t. returns t

  -- Corosync tells a node in the state BACKUP, which satisfies the invariant, that the node that it
  -- has recorded as the master is gone. Where libc reads the configured addresses and corosync
  -- settles every message and finds its context, the node returns, and is MASTER now, as the first
  -- of the nodes that are left, with these in its list, its address on the interface and one
  -- gratuitous ARP request for it sent; or it is the first of them and IDLE now; or it is not the
  -- first of them and is still BACKUP, with these in its list, and the binding of its address
  -- and the frames sent are as before.
  pub confchg_callback-FailsOver :
      (members nodeid : ℕ) (w : World)
      → HasContext env
      → Reads w
      → IsSound w
      → w.vip.state ≡ backup
      → w.vip.master_id ≡ nodeid
      → Returns
          (λ u w'. FailsOver frame (node_unlink w.vip.node_list nodeid) w w')
          (confchg_callback env members (nodeid ∷ []) false w)
  unfolding confchg_callback bound sent
  confchg_callback-FailsOver members nodeid w context a sound b m =
      let w0 = record (asked env w) { vip = record (w.vip) { member_list_entries = members } } in
      let s0 : IsSound w0 = IsSound-relogged w w0 refl refl refl refl refl sound in
      rw (context w.log) (bind (left_loop-FailsOver nodeid w0 a s0 b m) λ u w' t. returns t)
