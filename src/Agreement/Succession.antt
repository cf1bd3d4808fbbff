-- ===== src/Agreement/Succession.antt =====
-- A master announces itself to a node that stays behind it, and is lost later.
use freeswitch_mod_cpg.Base.{
  ℕ, ℤ, ◌≡◌, ◌≢◌, ◌⊎◌, ◌∙◌, refl, ap, inl, inr, false, Bool-cases, List, [], ◌∷◌, arith,
}
use freeswitch_mod_cpg.Types.{
  duplicate, max_events, backup, master, state_code, VirtualIp, Node, NodeMsg,
}
use freeswitch_mod_cpg.World.{Env, World, success, done}
use freeswitch_mod_cpg.World.Returns.{Returns, returns, bind, both, of_Ensures}
use freeswitch_mod_cpg.Arp.Frame.{arp_frame}
use freeswitch_mod_cpg.Arp.Send.{sent}
use freeswitch_mod_cpg.Node.{is_null, node_search, node_unlink, node_add}
use freeswitch_mod_cpg.Node.Announcements.{HasMemory}
use freeswitch_mod_cpg.Utils.Ip.Bound.{Target, target, bound}
use freeswitch_mod_cpg.Utils.Garp.{gratuitous}
use freeswitch_mod_cpg.Fsm.{fsm_do_transaction, table, dup_warn}
use freeswitch_mod_cpg.Fsm.Takeover.{network}
use freeswitch_mod_cpg.Input.{message_event, note_master, fsm_input_new_state_message}
use freeswitch_mod_cpg.Input.Safety.{note_master-keeps}
use freeswitch_mod_cpg.Input.Views.{heard, node_add-heard, note_master-node_id}
use freeswitch_mod_cpg.Node.Order.{node_search-Fresh}
use freeswitch_mod_cpg.Node.Contents.{unlink-insert}
use freeswitch_mod_cpg.Input.Views.{unlink-missing}
use freeswitch_mod_cpg.VirtualIp.Message.{state_message}
use freeswitch_mod_cpg.Callbacks.{HasContext, deliver_callback}
use freeswitch_mod_cpg.Callbacks.Roundtrip.{Fits, deliver-state_message}
use freeswitch_mod_cpg.Callbacks.Safety.{state_from, confchg, call_back, asked, call_back-Keeps}
use freeswitch_mod_cpg.Agreement.{call_backs, Member}
use freeswitch_mod_cpg.Callbacks.Failover.{FailsOver, FailsOver-then, confchg_callback-FailsOver}

-- The node has recorded the sender, and stays where it was.
abbrev pub Recorded : List Node → ℕ → World → World → Type 0
Recorded l nodeid w w' =
    (w'.vip.state ≡ w.vip.state)
    × (w'.vip.master_id ≡ nodeid)
    × (w'.vip.node_list ≡ l)
    × (w'.vip.node_id ≡ w.vip.node_id)
    × (w'.vip.config ≡ w.vip.config)
    × (network (target w.vip.config) w'.log ≡ network (target w.vip.config) w.log)

message_event-backup :
    (v : VirtualIp) (nm : NodeMsg) (nodeid : ℕ)
    → (message_event backup v nm nodeid ≡ duplicate)
      ⊎ (message_event backup v nm nodeid ≡ max_events)
unfolding message_event
message_event-backup v nm nodeid = ground arith

note_master-master :
    (nm : NodeMsg) (nodeid : ℕ) (v : VirtualIp)
    → nm.state ≡ state_code master
    → (note_master nm nodeid v).master_id ≡ nodeid
note_master-master nm nodeid v m = ground arith

module _ (env : Env) where
  node_add-network :
      (t : Target) (l : List Node) (id : ℕ) (p : ℤ) (w : World)
      → Returns (λ l' w'. network t w'.log ≡ network t w.log) (node_add env l id p w)
  unfolding node_add bound sent
  node_add-network t l id p w =
      of_Ensures (λ l' w'. network t w'.log ≡ network t w.log) _ (ground arith)

  duplicate-backup :
      (w : World) → w.vip.state ≡ backup → fsm_do_transaction env duplicate w ≡ done success w
  unfolding fsm_do_transaction table dup_warn
  duplicate-backup w b = simp b refl

  message-Recorded :
      (nm : NodeMsg) (nodeid : ℕ) (w : World)
      → HasMemory env
      → w.vip.state ≡ backup
      → nm.state ≡ state_code master
      → Returns
          (λ s w'. Recorded (heard w.vip.node_list nodeid nm.priority) nodeid w w')
          (fsm_input_new_state_message env nm nodeid w)
  unfolding fsm_input_new_state_message
  message-Recorded nm nodeid w room b m =
      bind
        (both _ _ _ (node_add-heard env w.vip.node_list nodeid nm.priority w room)
          (node_add-network (target w.vip.config) w.vip.node_list nodeid nm.priority w))
        λ l w1 k.
          let v = record (w1.vip) { node_list = l } in
          let same = note_master-keeps nm nodeid v in
          let v1 = note_master nm nodeid v in
          let state = same.1 ∙ ap (λ (q : VirtualIp). q.state) k.0.1 in
          let recorded : Recorded (heard w.vip.node_list nodeid nm.priority) nodeid w
              (record w1 { vip = v1 }) =
            (
              state,
              note_master-master nm nodeid v m,
              same.2 ∙ k.0.0,
              note_master-node_id nm nodeid v ∙ ap (λ (q : VirtualIp). q.node_id) k.0.1,
              same.0 ∙ ap (λ (q : VirtualIp). q.config) k.0.1,
              k.1,
            ) in
          rw (state ∙ b) (elim (message_event-backup v1 nm nodeid) [
            | inl dup ↦
                rw (dup, duplicate-backup (record w1 { vip = v1 }) (state ∙ b)) (returns recorded)
            | inr none ↦ rw none (returns recorded)
          ])

  pub deliver-Recorded :
      (nm : NodeMsg) (nodeid : ℕ) (w : World)
      → Fits nm
      → HasContext env
      → HasMemory env
      → w.vip.state ≡ backup
      → nm.state ≡ state_code master
      → Returns
          (λ u w'. Recorded (heard w.vip.node_list nodeid nm.priority) nodeid w w')
          (deliver_callback env nodeid (state_message nm) w)
  unfolding bound sent
  deliver-Recorded nm nodeid w f context room b m =
      rw (deliver-state_message env nm nodeid w f context)
        (bind (message-Recorded nm nodeid (asked env w) room b m) λ s w1 t. returns t)

unlink-heard : (l : List Node) (id : ℕ) (p : ℤ) → node_unlink (heard l id p) id ≡ node_unlink l id
unfolding heard
unlink-heard l id p = elim (Bool-cases (is_null (node_search l id))) [
  | inl absent ↦
      rw (absent, unlink-missing l id absent)
        (unlink-insert l (record { nodeid = id; priority = p }) (node_search-Fresh l id absent))
  | inr present ↦ rw present refl
]

-- A node in the state BACKUP, which satisfies the invariant, gets a state message from a node that
-- is not 0 and says that it is the master, and is told later that this node is gone. Where the
-- fields of the message fit, libc reads the configured addresses, corosync settles every message and
-- finds its context, and memory for a new node is there, it returns from both, and is MASTER now, as
-- the first of the nodes in its list but that one, with these in its list, its address on the
-- interface and one gratuitous ARP request for it sent; or it is the first of them and IDLE now; or
-- it is not the first of them and is still BACKUP, with these in its list, and the binding of its
-- address and the frames sent are as before.
pub call_backs-FailsOver :
    (env : Env) (nm : NodeMsg) (nodeid members : ℕ) (w : World) (member : Member env w)
    → Fits nm
    → nodeid ≢ 0
    → nm.state ≡ state_code master
    → w.vip.state ≡ backup
    → Returns
        (λ u w'.
          FailsOver
            (arp_frame (gratuitous member.ether member.ip))
            (node_unlink w.vip.node_list nodeid)
            w
            w')
        (call_backs env (state_from nm nodeid ∷ confchg members (nodeid ∷ []) false ∷ []) w)
unfolding call_backs call_back
call_backs-FailsOver env nm nodeid members w member f nz m b =
    bind
      (both _ _ _
        (call_back-Keeps env member.ether member.ip member.responsive (state_from nm nodeid) w
          (f, nz) member.context member.addresses member.sound)
        (deliver-Recorded env nm nodeid w f member.context member.memory b m))
      λ u w1 (keeps, (state, recorded, l, id, config, same)).
        bind
          (confchg_callback-FailsOver env member.ether member.ip member.responsive members nodeid w1
            member.context (rw config member.addresses) keeps.0 (state ∙ b) recorded)
          λ u2 w2 t. returns (
            FailsOver-then (arp_frame (gratuitous member.ether member.ip))
              (node_unlink w.vip.node_list nodeid) w w1 w2 id config same
              (rw
                (ap (λ l. node_unlink l nodeid) l ∙ unlink-heard w.vip.node_list nodeid nm.priority)
                at t))
