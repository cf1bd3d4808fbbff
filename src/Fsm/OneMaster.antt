-- ===== src/Fsm/OneMaster.antt =====
-- Two nodes of a group: at most one of them takes the address over.
use freeswitch_mod_cpg.Base.{◌≡◌, ◌≢◌, ◌∙◌, sym, refl, Bool, true, false, ◌&&◌, Bytes, []}
use freeswitch_mod_cpg.Types.{Event, rback_req}
use freeswitch_mod_cpg.World.{Env, World}
use freeswitch_mod_cpg.World.Returns.{Returns, weaken}
use freeswitch_mod_cpg.Node.{node_first}
use freeswitch_mod_cpg.Node.Order.{IsPriorityList}
use freeswitch_mod_cpg.Node.Election.{SameView, HasDistinctPriorities, node_first_agrees}
use freeswitch_mod_cpg.Utils.Garp.{Addresses}
use freeswitch_mod_cpg.VirtualIp.Delivery.{Responsive}
use freeswitch_mod_cpg.Fsm.{fsm_do_transaction}
use freeswitch_mod_cpg.Fsm.Transitions.{serves, IsSafe}
use freeswitch_mod_cpg.Fsm.Mastery.{fsm_do_transaction-TookOver}

-- A node whose surroundings answer, which does not serve the address, and an event that it handles.
pub record Candidate (env : Env) (w : World) (e : Event) : Type 0 where
  pub ether : Bytes
  pub ip : Bytes
  pub responsive : Responsive env
  pub addresses : Addresses env w.vip.config.mac w.vip.config.address ether ip
  pub safe : IsSafe w
  pub order : IsPriorityList w.vip.node_list
  pub known : e ≡ rback_req → w.vip.node_list ≢ []
  pub out : serves w.vip.state ≡ false

-- Afterwards it serves the address only if it was the first of its list.
elected :
    (env : Env) (w : World) (e : Event)
    → Candidate env w e
    → Returns
        (λ s w'. serves w'.vip.state ≡ true → w.vip.node_id ≡ node_first w.vip.node_list)
        (fsm_do_transaction env e w)
elected env w e c =
    weaken
      (fsm_do_transaction-TookOver env w c.ether c.ip c.responsive c.addresses c.safe e c.known
        c.out)
      (λ s w' took on. (took on).2.0)

-- Two nodes with different ids that do not serve the address each handle an event and return, where
-- libc reads their addresses, corosync settles every message, and a rollback request comes only with
-- nodes in the list. If both have the same nodes with the same priorities in their lists, no two of
-- one priority, not both of them serve the address afterwards.
pub one_master :
    (env1 env2 : Env) (w1 w2 : World) (e1 e2 : Event)
    → Candidate env1 w1 e1
    → Candidate env2 w2 e2
    → SameView w1.vip.node_list w2.vip.node_list
    → HasDistinctPriorities w1.vip.node_list
    → w1.vip.node_id ≢ w2.vip.node_id
    → Returns
        (λ s1 w1'.
          Returns
            (λ s2 w2'. (serves w1'.vip.state && serves w2'.vip.state) ≡ false)
            (fsm_do_transaction env2 e2 w2))
        (fsm_do_transaction env1 e1 w1)
one_master env1 env2 w1 w2 e1 e2 c1 c2 same distinct apart =
    let agree =
      node_first_agrees w1.vip.node_list w2.vip.node_list c1.order c2.order same distinct in
    weaken (elected env1 w1 e1 c1) (λ s1 w1' f1. weaken (elected env2 w2 e2 c2) (λ s2 w2' f2.
      not_both (serves w1'.vip.state) (serves w2'.vip.state)
        (λ on1 on2. apart (f1 on1 ∙ agree ∙ sym (f2 on2)))))
  where
    not_both : (a b : Bool) → (a ≡ true → b ≡ true → ⊥) → (a && b) ≡ false
    not_both true true h = absurd (h refl refl)
    not_both true false h = refl
    not_both false b h = refl
