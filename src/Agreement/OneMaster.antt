-- ===== src/Agreement/OneMaster.antt =====
-- Two nodes to which the same callbacks have been made: at most one takes the address over next.
use freeswitch_mod_cpg.Base.{
  ℤ, some, ℕ, ◌≡◌, ◌≢◌, ◌⊎◌, ◌∙◌, sym, ap, refl, inl, inr, true, false, Bool-cases, ◌&&◌, List, All,
  arith,
}
use freeswitch_mod_cpg.Types.{Event, rback_req, State, idle, Node}
use freeswitch_mod_cpg.World.{Env, World}
use freeswitch_mod_cpg.World.Returns.{Returns, weaken}
use freeswitch_mod_cpg.Node.Contents.{priority_of}
use freeswitch_mod_cpg.Node.Election.{HasDistinctPriorities}
use freeswitch_mod_cpg.Fsm.{fsm_do_transaction}
use freeswitch_mod_cpg.Fsm.Transitions.{In, successors, serves, fsm_do_transaction-Transits}
use freeswitch_mod_cpg.Fsm.OneMaster.{Candidate, one_master}
use freeswitch_mod_cpg.Input.Views.{Views}
use freeswitch_mod_cpg.Callbacks.Safety.{Callback, Receivable}
use freeswitch_mod_cpg.Node.Order.{IsPriorityList}
use freeswitch_mod_cpg.Agreement.{call_backs, view_of, Member, known_of}
use freeswitch_mod_cpg.Agreement.Known.{view_of-known_of}
use freeswitch_mod_cpg.Agreement.Both.{Member-Keeps, call_backs-After}

-- No two nodes are known by one priority after the callbacks.
abbrev pub HasDistinctKnown : List Node → List Callback → Type 0
HasDistinctKnown l history =
    (i j : ℕ) (p : ℤ)
    → known_of i (priority_of l i) history ≡ some p
    → known_of j (priority_of l j) history ≡ some p
    → i ≡ j

distinct_view :
    (history : List Callback) (w : World)
    → IsPriorityList w.vip.node_list
    → All Receivable history
    → HasDistinctKnown w.vip.node_list history
    → HasDistinctPriorities (view_of w.vip.node_list history)
distinct_view history w order h distinct i j p a b =
    distinct i j p (sym (view_of-known_of history w.vip.node_list i h order) ∙ a)
      (sym (view_of-known_of history w.vip.node_list j h order) ∙ b)

idle_out : (s : State) (e : Event) (t : State) → s ≡ idle → In t (successors s e) → serves t ≡ false
unfolding successors
idle_out s e t h i = ground arith

module _ (env : Env) (w : World) (m : Member env w) (e : Event) (known : e ≢ rback_req) where
  transacts :
      Returns (λ s w'. In w'.vip.state (successors w.vip.state e)) (fsm_do_transaction env e w)
  transacts =
      weaken
        (fsm_do_transaction-Transits env w m.ether m.ip m.responsive m.addresses m.sound.safe e
          (λ r. absurd (known r)))
        (λ s w' t. t.target)

  transaction-idle :
      w.vip.state ≡ idle
      → Returns (λ s w'. serves w'.vip.state ≡ false) (fsm_do_transaction env e w)
  transaction-idle down = weaken transacts (λ s w' i. idle_out w.vip.state e w'.vip.state down i)

  to-Candidate : serves w.vip.state ≡ false → Candidate env w e
  to-Candidate out = record {
    ether = m.ether;
    ip = m.ip;
    responsive = m.responsive;
    addresses = m.addresses;
    safe = m.sound.safe;
    order = m.sound.order;
    known = λ r. absurd (known r);
    out = out;
  }

module _ (env1 env2 : Env) (e1 e2 : Event) where
  -- After both events not both serve the address.
  abbrev NotBoth : World → World → Type 0
  NotBoth v1 v2 =
      Returns
        (λ s1 x1.
          Returns (λ s2 x2. (serves x1.vip.state && serves x2.vip.state) ≡ false)
            (fsm_do_transaction env2 e2 v2))
        (fsm_do_transaction env1 e1 v1)

  -- What the two are after the same callbacks: one of them serves the address already, or not both
  -- do after the events.
  abbrev pub AtMostOne : World → World → Type 0
  AtMostOne v1 v2 = (serves v1.vip.state ≡ true) ⊎ ((serves v2.vip.state ≡ true) ⊎ NotBoth v1 v2)

module _ (env1 env2 : Env) (e1 e2 : Event) (known1 : e1 ≢ rback_req) (known2 : e2 ≢ rback_req) where
  -- Neither of them served it before.
  Views-NotBoth :
      (l : List Node) (w1 w2 v1 v2 : World)
      → Member env1 v1
      → Member env2 v2
      → Views l w1 v1
      → Views l w2 v2
      → HasDistinctPriorities l
      → w1.vip.node_id ≢ w2.vip.node_id
      → serves v1.vip.state ≡ false
      → serves v2.vip.state ≡ false
      → NotBoth env1 env2 e1 e2 v1 v2
  Views-NotBoth l w1 w2 v1 v2 m1 m2 (inl down) b distinct apart out1 out2 =
      weaken (transaction-idle env1 v1 m1 e1 known1 down)
        λ s1 x1 off. weaken (transacts env2 v2 m2 e2 known2) λ s2 x2 t. rw off refl
  Views-NotBoth l w1 w2 v1 v2 m1 m2 (inr a) (inl down) distinct apart out1 out2 =
      weaken (transacts env1 v1 m1 e1 known1) λ s1 x1 t.
        weaken (transaction-idle env2 v2 m2 e2 known2 down) λ s2 x2 off. ground (arith, off)
  Views-NotBoth l w1 w2 v1 v2 m1 m2 (inr (up1, l1, id1)) (inr (up2, l2, id2)) distinct apart out1
        out2 =
      one_master env1 env2 v1 v2 e1 e2 (to-Candidate env1 v1 m1 e1 known1 out1)
        (to-Candidate env2 v2 m2 e2 known2 out2) (λ id. ap (λ l. priority_of l id) (l1 ∙ sym l2))
        (rw l1 distinct) (λ e. apart (sym id1 ∙ e ∙ id2))

  -- Corosync makes the same callbacks to two nodes with different ids that satisfy the invariant and
  -- know the same nodes, in the same order, with messages of the module whose fields fit and which do
  -- not come from node 0, and afterwards no two nodes are known by one priority. Where libc reads the
  -- configured addresses, corosync settles every message and finds its context, and memory for new
  -- nodes is there, both return from all of them, and one of them serves the address then, or both
  -- return from one further event each, no rollback request, and not both serve the address after
  -- these.
  pub one_master_of_group :
      (history : List Callback) (w1 w2 : World)
      → Member env1 w1
      → Member env2 w2
      → w1.vip.node_list ≡ w2.vip.node_list
      → w1.vip.node_id ≢ w2.vip.node_id
      → All Receivable history
      → HasDistinctKnown w1.vip.node_list history
      → Returns
          (λ u1 v1. Returns (λ u2 v2. AtMostOne env1 env2 e1 e2 v1 v2) (call_backs env2 history w2))
          (call_backs env1 history w1)
  one_master_of_group history w1 w2 m1 m2 same apart h distinct =
      weaken (call_backs-After env1 history w1 m1 h) λ u1 v1 a1.
        weaken (call_backs-After env2 history w2 m2 h) λ u2 v2 a2.
          elim (Bool-cases (serves v1.vip.state)) [
            | inl on1 ↦ inl on1
            | inr out1 ↦ elim (Bool-cases (serves v2.vip.state)) [
              | inl on2 ↦ inr (inl on2)
              | inr out2 ↦ inr (
                  inr (
                    Views-NotBoth (view_of w1.vip.node_list history) w1 w2 v1 v2
                      (Member-Keeps v1 m1 a1.0) (Member-Keeps v2 m2 a2.0) a1.1 (rw same a2.1)
                      (distinct_view history w1 m1.sound.order h distinct) apart out1 out2))
            ]
          ]
