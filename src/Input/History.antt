-- ===== src/Input/History.antt =====
-- Whole lives of a virtual ip: any sequence of the inputs of fsm_input.c, in any order.
use freeswitch_mod_cpg.Base.{ℕ, ◌≢◌, ◌∙◌, refl, List, [], ◌∷◌, All, Bytes}
use freeswitch_mod_cpg.Types.{startup, stop, backup_up, NodeMsg}
use freeswitch_mod_cpg.World.{Env, World, M, Status, success, ◌>>◌, pure}
use freeswitch_mod_cpg.World.Returns.{Returns, returns, bind, weaken}
use freeswitch_mod_cpg.Utils.Garp.{Addresses}
use freeswitch_mod_cpg.VirtualIp.Delivery.{Responsive}
use freeswitch_mod_cpg.Input.{
  fsm_input_node_down, fsm_input_node_up, fsm_input_new_state_message, fsm_input_cmd_start,
  fsm_input_cmd_stop,
}
use freeswitch_mod_cpg.Input.Safety.{
  IsSound, Sound, continues, fsm_input_node_down-Sound, fsm_input_new_state_message-Sound,
}

-- A call of one of the five functions of fsm_input.h.
pub data Input : Type 0 where
  node_down : ℕ → Input
  node_up cmd_start cmd_stop : Input
  state_message : NodeMsg → ℕ → Input

unfoldable pub feed : Env → Input → M Status
feed env (node_down nodeid) = fsm_input_node_down env nodeid
feed env node_up = fsm_input_node_up env
feed env cmd_start = fsm_input_cmd_start env
feed env cmd_stop = fsm_input_cmd_stop env
feed env (state_message nm nodeid) = fsm_input_new_state_message env nm nodeid

unfoldable pub feed_all : Env → List Input → M Status
feed_all env [] = pure success
feed_all env (i ∷ inputs) = feed env i >> feed_all env inputs

-- No message comes from node id 0, which corosync gives to no node.
abbrev pub IsFromNode : Input → Type 0
IsFromNode (state_message nm nodeid) = nodeid ≢ 0
IsFromNode _ = Unit {0}

pub feed-Sound :
    (env : Env) (w : World) (ether ip : Bytes) (i : Input)
    → Responsive env
    → Addresses env w.vip.config.mac w.vip.config.address ether ip
    → IsSound w
    → IsFromNode i
    → Returns (Sound w) (feed env i w)
unfolding feed fsm_input_node_up fsm_input_cmd_start fsm_input_cmd_stop
feed-Sound env w ether ip (node_down nodeid) r a s n =
    fsm_input_node_down-Sound env w ether ip r a s nodeid
feed-Sound env w ether ip node_up r a s n =
    continues env w ether ip r a s w backup_up s.safe s.order refl (λ h. cc)
feed-Sound env w ether ip cmd_start r a s n =
    continues env w ether ip r a s w startup s.safe s.order refl (λ h. cc)
feed-Sound env w ether ip cmd_stop r a s n =
    continues env w ether ip r a s w stop s.safe s.order refl (λ h. cc)
feed-Sound env w ether ip (state_message nm nodeid) r a s n =
    fsm_input_new_state_message-Sound env w ether ip r a s nm nodeid n

-- After any sequence of starts, stops, node changes and state messages, none of them from node 0,
-- the invariant holds that held before: no input faults or hangs, the configuration is the same,
-- the node list is in priority order with distinct ids, and a node in the state MASTER or ROLLBACK
-- has the virtual address on its interface. That is so where libc reads the configured addresses
-- and corosync settles every message.
pub feed_all-Sound :
    (env : Env) (inputs : List Input) (w : World) (ether ip : Bytes)
    → Responsive env
    → Addresses env w.vip.config.mac w.vip.config.address ether ip
    → IsSound w
    → All IsFromNode inputs
    → Returns (Sound w) (feed_all env inputs w)
unfolding feed_all
feed_all-Sound env [] w ether ip r a s n = returns (s, refl)
feed_all-Sound env (i ∷ inputs) w ether ip r a s n =
    bind (feed-Sound env w ether ip i r a s n.0) λ status w1 k.
      weaken (feed_all-Sound env inputs w1 ether ip r (rw k.1 a) k.0 n.1)
        (λ status' w2 k2. (k2.0, k2.1 ∙ k.1))
