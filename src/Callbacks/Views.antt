-- ===== src/Callbacks/Views.antt =====
-- What the corosync callbacks make of the list of nodes.
use freeswitch_mod_cpg.Base.{
  ℕ, ◌≢◌, ◌∙◌, refl, ap, inl, inr, Bool, Bool-cases, List, [], ◌∷◌, Bytes, ◌==◌, arith,
}
use freeswitch_mod_cpg.Types.{Node, NodeMsg, VirtualIp}
use freeswitch_mod_cpg.World.{Env, World}
use freeswitch_mod_cpg.World.Returns.{Returns, returns, bind, weaken, both}
use freeswitch_mod_cpg.Node.{node_unlink}
use freeswitch_mod_cpg.Node.Announcements.{HasMemory}
use freeswitch_mod_cpg.Utils.Ip.Bound.{bound}
use freeswitch_mod_cpg.Utils.Garp.{Addresses}
use freeswitch_mod_cpg.VirtualIp.Delivery.{Responsive}
use freeswitch_mod_cpg.VirtualIp.Message.{state_message, sql_message}
use freeswitch_mod_cpg.Input.Safety.{IsSound, fsm_input_node_down-Sound}
use freeswitch_mod_cpg.Input.Views.{
  heard, Views, Views-unmoved, fsm_input_node_up-Views, fsm_input_node_down-Views,
  fsm_input_new_state_message-Views,
}
use freeswitch_mod_cpg.Callbacks.{HasContext, deliver_callback, left_loop, confchg_callback}
use freeswitch_mod_cpg.Callbacks.Roundtrip.{
  Fits, deliver-state_message, deliver-sql_message, deliver-own_message,
}
use freeswitch_mod_cpg.Callbacks.Safety.{
  Callback, state_from, sql_from, confchg, call_back, Receivable, IsSound-relogged, asked,
  asked-Keeps, track_loop-Unmoved, left_loop-Keeps,
}

-- The nodes that are left.
unfoldable pub gone : List Node → List ℕ → List Node
gone l [] = l
gone l (nodeid ∷ left_list) = gone (node_unlink l nodeid) left_list

-- The nodes that are known after a callback.
unfoldable pub view_after : List Node → Callback → List Node
view_after l (state_from nm nodeid) = heard l nodeid nm.priority
view_after l (sql_from beyond name text nodeid) = l
view_after l (confchg members left_list joined) = gone l left_list

-- Two runs in a row, of which the second makes `f` of the nodes that it finds.
pub Views-trans :
    (f : List Node → List Node) (l : List Node) (w w1 w2 : World)
    → Views l w w1
    → Views (f w1.vip.node_list) w1 w2
    → Views (f l) w w2
Views-trans f l w w1 w2 (inl down) (inl down2) = inl down2
Views-trans f l w w1 w2 (inl down) (inr (up, e, n)) = absurd (up down)
Views-trans f l w w1 w2 (inr h) (inl down2) = inl down2
Views-trans f l w w1 w2 (inr (up, e, n)) (inr (up2, e2, n2)) = inr (up, e2 ∙ ap f e, n2 ∙ n)

module _ (env : Env) (ether ip : Bytes) (responsive : Responsive env) where
  abbrev Reads : World → Type 0
  Reads w = Addresses env w.vip.config.mac w.vip.config.address ether ip

  left_loop-Views :
      (left_list : List ℕ) (w : World)
      → Reads w
      → IsSound w
      → Returns (λ u w'. Views (gone w.vip.node_list left_list) w w') (left_loop env left_list w)
  unfolding left_loop gone
  left_loop-Views [] w a s = returns (Views-unmoved w w refl refl refl)
  left_loop-Views (nodeid ∷ left_list) w a s =
      bind
        (both _ _ _ (fsm_input_node_down-Sound env w ether ip responsive a s nodeid)
          (fsm_input_node_down-Views env w ether ip responsive a s nodeid))
        λ r w1 k. weaken (left_loop-Views left_list w1 (rw k.0.1 a) k.0.0) (λ u w2 v.
          Views-trans (λ l. gone l left_list) (node_unlink w.vip.node_list nodeid) w w1 w2 k.1 v)

  state_from-Views :
      (nm : NodeMsg) (nodeid : ℕ) (w : World)
      → Fits nm
      → nodeid ≢ 0
      → HasMemory env
      → HasContext env
      → Reads w
      → IsSound w
      → Returns
          (λ u w'. Views (heard w.vip.node_list nodeid nm.priority) w w')
          (deliver_callback env nodeid (state_message nm) w)
  state_from-Views nm nodeid w f nz room context a s =
      rw (deliver-state_message env nm nodeid w f context) (
        bind
          (fsm_input_new_state_message-Views env (asked env w) ether ip responsive a
            (asked-Keeps env w s).0 nm nodeid nz room)
          λ r w1 v. returns v)

  sql_from-Views :
      (beyond name text : Bytes) (nodeid : ℕ) (w : World)
      → Receivable (sql_from beyond name text nodeid)
      → HasContext env
      → Returns
          (λ u w'. Views w.vip.node_list w w')
          (deliver_callback env nodeid (sql_message beyond name text) w)
  sql_from-Views beyond name text nodeid w (hn, ht, short, room) context =
      elim (Bool-cases (w.vip.node_id == nodeid)) [
        | inl own ↦
            rw (deliver-own_message env beyond name text nodeid w own context)
              (returns (Views-unmoved w (asked env w) refl refl refl))
        | inr other ↦
            rw
              (deliver-sql_message env beyond name text nodeid w hn ht short room (ground arith)
                context)
              (weaken (track_loop-Unmoved env w.vip.config.profiles name text (asked env w))
                (λ u w1 m.
                  Views-unmoved w w1 (ap (λ (v : VirtualIp). v.state) m.0)
                    (ap (λ (v : VirtualIp). v.node_list) m.0)
                    (ap (λ (v : VirtualIp). v.node_id) m.0)))
      ]

  confchg-Views :
      (members : ℕ) (left_list : List ℕ) (joined : Bool) (w : World)
      → HasContext env
      → Reads w
      → IsSound w
      → Returns
          (λ u w'. Views (gone w.vip.node_list left_list) w w')
          (confchg_callback env members left_list joined w)
  unfolding confchg_callback bound
  confchg-Views members left_list joined w context a s =
      let w0 = record (asked env w) { vip = record (w.vip) { member_list_entries = members } } in
      let s0 : IsSound w0 = IsSound-relogged w w0 refl refl refl refl refl s in
      rw (context w.log) (
        bind
          (both _ _ _ (left_loop-Keeps env ether ip responsive left_list w0 a s0)
            (left_loop-Views left_list w0 a s0))
          λ u w1 k. elim (Bool-cases joined) [
            | inl yes_joined ↦ rw yes_joined (
                bind (fsm_input_node_up-Views env w1 ether ip responsive (rw k.0.1 a) k.0.0)
                  λ r w2 v.
                    returns (Views-trans (λ l. l) (gone w.vip.node_list left_list) w w1 w2 k.1 v))
            | inr none_joined ↦ rw none_joined (returns k.1)
          ])

  pub call_back-Views :
      (cb : Callback) (w : World)
      → Receivable cb
      → HasMemory env
      → HasContext env
      → Reads w
      → IsSound w
      → Returns (λ u w'. Views (view_after w.vip.node_list cb) w w') (call_back env cb w)
  unfolding call_back view_after
  call_back-Views (state_from nm nodeid) w (f, nz) room context a s =
      state_from-Views nm nodeid w f nz room context a s
  call_back-Views (sql_from beyond name text nodeid) w h room context a s =
      sql_from-Views beyond name text nodeid w h context
  call_back-Views (confchg members left_list joined) w h room context a s =
      confchg-Views members left_list joined w context a s
