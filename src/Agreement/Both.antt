-- ===== src/Agreement/Both.antt =====
-- The node lists of two nodes to which the same callbacks are made.
use freeswitch_mod_cpg.Base.{ℕ, ◌≡◌, ◌⊎◌, ◌∙◌, sym, ap, refl, inl, inr, List, [], ◌∷◌, All}
use freeswitch_mod_cpg.Types.{idle, Node}
use freeswitch_mod_cpg.World.{Env, World}
use freeswitch_mod_cpg.World.Returns.{Returns, returns, bind, weaken, both}
use freeswitch_mod_cpg.Node.Contents.{priority_of}
use freeswitch_mod_cpg.Input.Views.{Views, Views-unmoved}
use freeswitch_mod_cpg.Callbacks.Safety.{Callback, Receivable, Keeps, call_back-Keeps}
use freeswitch_mod_cpg.Callbacks.Views.{view_after, Views-trans, call_back-Views}
use freeswitch_mod_cpg.Node.Order.{IsPriorityList}
use freeswitch_mod_cpg.Agreement.{call_backs, view_of, Member, known_of}
use freeswitch_mod_cpg.Agreement.Known.{view_of-known_of}

pub Member-Keeps :
    {env : Env} {w : World} (w' : World) → Member env w → Keeps w (tt {0}) w' → Member env w'
Member-Keeps w' m (s, c) = record {
  ether = m.ether;
  ip = m.ip;
  responsive = m.responsive;
  addresses = rw c m.addresses;
  memory = m.memory;
  context = m.context;
  sound = s;
}

abbrev pub After : World → List Callback → Unit {0} → World → Type 0
After w history u w' = Keeps w u w' × Views (view_of w.vip.node_list history) w w'

pub call_backs-After :
    (env : Env) (history : List Callback) (w : World)
    → Member env w
    → All Receivable history
    → Returns (After w history) (call_backs env history w)
unfolding call_backs view_of
call_backs-After env [] w m h = returns ((m.sound, refl), Views-unmoved w w refl refl refl)
call_backs-After env (cb ∷ history) w m (h, hs) =
    bind
      (both _ _ _
        (call_back-Keeps env m.ether m.ip m.responsive cb w h m.context m.addresses m.sound)
        (call_back-Views env m.ether m.ip m.responsive cb w h m.memory m.context m.addresses
          m.sound))
      λ u w1 k. weaken (call_backs-After env history w1 (Member-Keeps w1 m k.0) hs) (λ u2 w2 r. (
        (r.0.0, r.0.1 ∙ k.0.1),
        Views-trans (λ l. view_of l history) (view_after w.vip.node_list cb) w w1 w2 k.1 r.1,
      ))

-- One of the two is down, or their lists are equal and know of each node what the callbacks told.
abbrev pub Agrees : List Node → List Callback → World → World → Type 0
Agrees l history v1 v2 =
    (v1.vip.state ≡ idle)
    ⊎ ((v2.vip.state ≡ idle)
        ⊎ ((v1.vip.node_list ≡ v2.vip.node_list)
            × ((id : ℕ)
                → priority_of v1.vip.node_list id ≡ known_of id (priority_of l id) history)))

Agrees-Views :
    (history : List Callback) (w1 w2 v1 v2 : World)
    → All Receivable history
    → IsPriorityList w1.vip.node_list
    → Views (view_of w1.vip.node_list history) w1 v1
    → Views (view_of w1.vip.node_list history) w2 v2
    → Agrees w1.vip.node_list history v1 v2
Agrees-Views history w1 w2 v1 v2 h order (inl down) b = inl down
Agrees-Views history w1 w2 v1 v2 h order (inr a) (inl down) = inr (inl down)
Agrees-Views history w1 w2 v1 v2 h order (inr (up1, l1, id1)) (inr (up2, l2, id2)) = inr (
    inr (
      l1 ∙ sym l2,
      λ id. ap (λ l. priority_of l id) l1 ∙ view_of-known_of history w1.vip.node_list id h order,
    ))

-- Corosync makes the same callbacks to two nodes that satisfy the invariant and know the same nodes,
-- in the same order, with messages of the module whose fields fit and which do not come from node 0.
-- Where libc reads the configured addresses, corosync settles every message and finds its context,
-- and memory for new nodes is there, both return from all of them, and afterwards one of them is
-- IDLE or both have the same node list. That list knows of each node the first priority that it has
-- announced since it last left; a node that was known before and has not left keeps its priority.
pub call_backs-Agrees :
    (env1 env2 : Env) (history : List Callback) (w1 w2 : World)
    → Member env1 w1
    → Member env2 w2
    → w1.vip.node_list ≡ w2.vip.node_list
    → All Receivable history
    → Returns
        (λ u1 v1.
          Returns (λ u2 v2. Agrees w1.vip.node_list history v1 v2) (call_backs env2 history w2))
        (call_backs env1 history w1)
call_backs-Agrees env1 env2 history w1 w2 m1 m2 same h =
    weaken (call_backs-After env1 history w1 m1 h) λ u1 v1 a1.
      weaken (call_backs-After env2 history w2 m2 h)
        λ u2 v2 a2. Agrees-Views history w1 w2 v1 v2 h m1.sound.order a1.1 (rw same a2.1)
