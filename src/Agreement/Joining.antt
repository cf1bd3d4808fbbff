-- ===== src/Agreement/Joining.antt =====
-- A node that is told of an arrival announces itself, and a member that gets the announcement knows
-- it (`confchg_callback` and `deliver_callback` of cpg_virtual_ip.c).
use freeswitch_mod_cpg.Base.{
  ℕ, ◌^◌, ◌-◌, ◌≤◌, ◌<◌, pos, negsuc, ◌≤ℤ◌, ◌≡◌, ◌≢◌, ◌⊎◌, ◌∙◌, ap, inl, inr, true, some, [], ◌∷◌,
  Bytes, length, arith, ◌==◌, if◌then◌else◌,
}
use freeswitch_mod_cpg.Types.{State, idle, start, backup, state_code, NodeMsg}
use freeswitch_mod_cpg.World.{Env, World, Log, core_get_uuid}
use freeswitch_mod_cpg.World.Returns.{Returns, returns, bind, weaken, both}
use freeswitch_mod_cpg.Node.Contents.{priority_of}
use freeswitch_mod_cpg.VirtualIp.Message.{state_message}
use freeswitch_mod_cpg.VirtualIp.Delivery.{Responsive}
use freeswitch_mod_cpg.VirtualIp.Multicast.{
  multicast, HasCodes, Takes, HasBuffers, SentState, virtual_ip_send_state-SentState,
}
use freeswitch_mod_cpg.Fsm.{fsm_do_transaction, nodeup, table}
use freeswitch_mod_cpg.Input.{fsm_input_node_up}
use freeswitch_mod_cpg.Callbacks.{deliver_callback, confchg_callback, left_loop}
use freeswitch_mod_cpg.Callbacks.Roundtrip.{IsText, Fits}
use freeswitch_mod_cpg.Callbacks.{HasContext}
use freeswitch_mod_cpg.Callbacks.Safety.{state_from, call_back, Receivable, Keeps, call_back-Keeps}
use freeswitch_mod_cpg.Callbacks.Views.{view_after, call_back-Views}
use freeswitch_mod_cpg.Agreement.{Member, or_else}
use freeswitch_mod_cpg.Agreement.Known.{priority_of-heard}

-- A node that waits for the master or behind it, and is able to announce itself: corosync takes its
-- messages, each within the fuel, and finds its context, CPG_OK is not CPG_ERR_TRY_AGAIN, malloc
-- gives the buffer of a message, the uuid of FreeSWITCH fits its field, the priority is an int, and
-- the node has an id.
pub record Announcer (env : Env) (w : World) : Type 0 where
  pub waits : (w.vip.state ≡ start) ⊎ (w.vip.state ≡ backup)
  pub responsive : Responsive env
  pub context : HasContext env
  pub codes : HasCodes env
  pub takes : Takes env
  pub buffers : HasBuffers env
  pub uuid_text : (log : Log) → IsText (env.text log core_get_uuid)
  pub uuid_size : (log : Log) → length (env.text log core_get_uuid) ≤ 39
  pub above : negsuc (2 ^ 31 - 1) ≤ℤ w.vip.config.priority
  pub below : w.vip.config.priority ≤ℤ pos (2 ^ 31 - 1)
  pub not_zero : w.vip.node_id ≢ 0

state_code-lt : (s : State) → state_code s < 2 ^ 32
state_code-lt s = ground arith

abbrev said : Env → World → Log → NodeMsg
said env w log = record {
  priority = w.vip.config.priority;
  state = state_code w.vip.state;
  runtime_uuid = env.text log core_get_uuid;
}

said-Fits : (env : Env) (w : World) (log : Log) → Announcer env w → Fits (said env w log)
said-Fits env w log a = record {
  above = a.above;
  below = a.below;
  state = state_code-lt w.vip.state;
  text = a.uuid_text log;
  uuid = a.uuid_size log;
}

fsm_input_node_up-SentState :
    (env : Env) (w : World)
    → (w.vip.state ≡ start) ⊎ (w.vip.state ≡ backup)
    → HasCodes env
    → Takes env
    → HasBuffers env
    → Responsive env
    → Returns (SentState env w) (fsm_input_node_up env w)
unfolding fsm_input_node_up fsm_do_transaction table nodeup
fsm_input_node_up-SentState env w (inl s) codes takes buffers responsive =
    simp s (virtual_ip_send_state-SentState env w codes takes buffers responsive)
fsm_input_node_up-SentState env w (inr s) codes takes buffers responsive =
    simp s (virtual_ip_send_state-SentState env w codes takes buffers responsive)

-- A member knows the sender now, by the priority that it knew before or else by the sender's.
abbrev pub Learns : World → World → World → Type 0
Learns sender w w' =
    (w'.vip.state ≡ idle)
    ⊎ ((j : ℕ)
        → priority_of w'.vip.node_list j ≡ (
            if sender.vip.node_id == j
            then or_else (priority_of w.vip.node_list j) (some sender.vip.config.priority)
            else priority_of w.vip.node_list j))

deliver-Learns :
    (env1 env2 : Env) (w1 w2 : World) (log : Log)
    → Announcer env1 w1
    → Member env2 w2
    → Returns
        (λ u v. Keeps w2 u v × Learns w1 w2 v)
        (deliver_callback env2 w1.vip.node_id (state_message (said env1 w1 log)) w2)
unfolding call_back view_after
deliver-Learns env1 env2 w1 w2 log a m =
    let id = w1.vip.node_id in
    let cb = state_from (said env1 w1 log) id in
    let r : Receivable cb = (said-Fits env1 w1 log a, a.not_zero) in
    weaken
      (both _ _ _
        (call_back-Keeps env2 m.ether m.ip m.responsive cb w2 r m.context m.addresses m.sound)
        (call_back-Views env2 m.ether m.ip m.responsive cb w2 r m.memory m.context m.addresses
          m.sound))
      λ u v k. (
        k.0,
        elim k.1 [
          | inl down ↦ inl down
          | inr (up, known, same) ↦ inr (λ j.
              ap (λ l. priority_of l j) known
              ∙ priority_of-heard w2.vip.node_list id w1.vip.config.priority a.not_zero
                  m.sound.order j)
        ],
      )

module _ (env1 env2 : Env) (w1 w2 : World) where
  -- Corosync tells a node in the state START or BACKUP of an arrival. Corosync refuses none of its
  -- messages, takes each within the fuel, and finds its context, CPG_OK is not CPG_ERR_TRY_AGAIN,
  -- malloc gives the buffer, the uuid of FreeSWITCH and the priority fit the message, and the id of
  -- the node is not 0. The node returns and has multicast one message. Where corosync delivers that
  -- message to a node whose surroundings answer and which satisfies the invariant, that one returns
  -- with the invariant and the configuration kept, and it is IDLE, or it has the sender in its list,
  -- by the priority that it knew before or else by the one in the sender's configuration, and knows
  -- of every other node what it knew before.
  pub joining-Learns :
      (members : ℕ)
      → Announcer env1 w1
      → Member env2 w2
      → Returns
          (λ u1 v1.
            (buf : Bytes) × (multicast env1 v1.log ≡ buf ∷ multicast env1 w1.log)
            × Returns
                (λ u2 v2. Keeps w2 u2 v2 × Learns w1 w2 v2)
                (deliver_callback env2 w1.vip.node_id buf w2))
          (confchg_callback env1 members [] true w1)
  unfolding confchg_callback left_loop multicast
  joining-Learns members a m = rw (a.context w1.log) (
      bind (fsm_input_node_up-SentState env1 _ a.waits a.codes a.takes a.buffers a.responsive)
        λ s v1 (log, sent).
          returns (state_message (said env1 w1 log), sent, deliver-Learns env1 env2 w1 w2 log a m))
