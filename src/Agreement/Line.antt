-- ===== src/Agreement/Line.antt =====
-- One master after another is lost, and a node stands by until it is its turn.
use freeswitch_mod_cpg.Utils.Ip.Bound.{target}
use freeswitch_mod_cpg.Base.{ℕ, ◌≡◌, ◌≢◌, ◌∙◌, refl, ap, List, [], ◌∷◌, All, Bytes, ℤ, arith}
use freeswitch_mod_cpg.Types.{NodeMsg, Node, backup, master, state_code}
use freeswitch_mod_cpg.World.{Env, World}
use freeswitch_mod_cpg.World.Returns.{Returns, returns, bind, weaken, both}
use freeswitch_mod_cpg.Arp.Frame.{arp_frame}
use freeswitch_mod_cpg.Node.{node_first, node_unlink, node_search}
use freeswitch_mod_cpg.Utils.Garp.{Addresses, gratuitous}
use freeswitch_mod_cpg.Fsm.Takeover.{network}
use freeswitch_mod_cpg.Input.Views.{heard, Views}
use freeswitch_mod_cpg.Node.Announcements.{HasMemory}
use freeswitch_mod_cpg.VirtualIp.Delivery.{Responsive}
use freeswitch_mod_cpg.Input.Safety.{IsSound}
use freeswitch_mod_cpg.Callbacks.{HasContext}
use freeswitch_mod_cpg.Callbacks.Roundtrip.{Fits}
use freeswitch_mod_cpg.Callbacks.Safety.{Callback, state_from, call_back, call_back-Keeps}
use freeswitch_mod_cpg.Callbacks.Views.{gone, view_after, call_back-Views}
use freeswitch_mod_cpg.Callbacks.Failover.{FailsOver, FailsOver-then, confchg_callback-FailsOver}
use freeswitch_mod_cpg.Agreement.{call_backs}
use freeswitch_mod_cpg.Agreement.Succession.{deliver-Recorded}
use freeswitch_mod_cpg.Agreement.Successor.{StandsBy, lost}

-- What a new master multicasts, with the number of members that corosync gives.
abbrev pub Claim : Type 0
Claim = ℕ × NodeMsg

abbrev pub IsClaim : Claim → Type 0
IsClaim c = Fits c.1 × (c.1.state ≡ state_code master)

-- The master of the list `l` is lost, the first of those that are left says that it is the master,
-- and is lost in its turn, once for each claim; then the last of them is lost.
unfoldable pub line : List Claim → ℕ → List Node → ℕ → List Callback
line [] members l gone_id = lost gone_id members ∷ []
line (c ∷ claims) members l gone_id =
    let rest = node_unlink l gone_id in
    lost gone_id c.0 ∷ state_from c.1 (node_first rest) ∷ line claims members rest (node_first rest)

-- The nodes that are left in the end.
unfoldable pub remaining : List Claim → List Node → ℕ → List Node
remaining [] l gone_id = node_unlink l gone_id
remaining (c ∷ claims) l gone_id =
    let rest = node_unlink l gone_id in remaining claims rest (node_first rest)

-- The node with this id is none of the masters in between, which are nodes of the list.
unfoldable pub IsBehind : List Claim → List Node → ℕ → ℕ → Type 0
IsBehind [] l gone_id id = Unit {0}
IsBehind (c ∷ claims) l gone_id id =
    let rest = node_unlink l gone_id in
    (node_first rest ≢ 0) × (id ≢ node_first rest) × IsBehind claims rest (node_first rest) id

heard-first : (l : List Node) (p : ℤ) → node_first l ≢ 0 → heard l (node_first l) p ≡ l
unfolding heard node_first node_search
heard-first [] p nz = absurd (nz refl)
heard-first (n ∷ rest) p nz = ground arith

-- The network and what the node is are as before.
abbrev Unmoved : World → World → Type 0
Unmoved w w' =
    (w'.vip.node_id ≡ w.vip.node_id)
    × (w'.vip.config ≡ w.vip.config)
    × (network (target w.vip.config) w'.log ≡ network (target w.vip.config) w.log)

stays_put :
    (frame : Bytes) (rest : List Node) (w w' : World)
    → w.vip.node_id ≢ node_first rest
    → Views rest w w'
    → FailsOver frame rest w w'
    → (w'.vip.state ≡ backup)
      × (w'.vip.node_list ≡ rest)
      × (w'.vip.node_id ≡ w.vip.node_id)
      × (network (target w.vip.config) w'.log ≡ network (target w.vip.config) w.log)
stays_put frame rest w w' ne v f = ground arith

-- `StandsBy` without what stays the same.
record Behind (env : Env) (ether ip : Bytes) (l : List Node) (nodeid : ℕ) (w : World) : Type 0 where
  addresses : Addresses env w.vip.config.mac w.vip.config.address ether ip
  sound : IsSound w
  state : w.vip.state ≡ backup
  master : w.vip.master_id ≡ nodeid
  list : w.vip.node_list ≡ l

module _ (env : Env) (ether ip : Bytes) (responsive : Responsive env) (memory : HasMemory env)
    (context : HasContext env) where
  abbrev frame : Bytes
  frame = arp_frame (gratuitous ether ip)

  lost-Behind :
      (l : List Node) (gone_id members : ℕ) (w : World)
      → Behind env ether ip l gone_id w
      → w.vip.node_id ≢ node_first (node_unlink l gone_id)
      → Returns
          (λ u w'.
            IsSound w'
            × (w'.vip.state ≡ backup)
            × (w'.vip.node_list ≡ node_unlink l gone_id)
            × Unmoved w w')
          (call_back env (lost gone_id members) w)
  unfolding call_back view_after gone
  lost-Behind l gone_id members w s ne =
      let rest = node_unlink l gone_id in
      let cb = lost gone_id members in
      weaken
        (both _ _ _ (call_back-Keeps env ether ip responsive cb w tt context s.addresses s.sound) (
          both _ _ _
            (call_back-Views env ether ip responsive cb w tt memory context s.addresses s.sound)
            (confchg_callback-FailsOver env ether ip responsive members gone_id w context
              s.addresses s.sound s.state s.master)))
        λ u w' (k, (v, f)).
          let (b, l', id, n) = stays_put frame rest w w' ne (rw s.list at v) (rw s.list at f) in
          (k.0, b, l', (id, k.1, n))

  claim-Behind :
      (rest : List Node) (nm : NodeMsg) (w : World)
      → Addresses env w.vip.config.mac w.vip.config.address ether ip
      → IsSound w
      → w.vip.state ≡ backup
      → w.vip.node_list ≡ rest
      → node_first rest ≢ 0
      → Fits nm
      → nm.state ≡ state_code master
      → Returns
          (λ u w'. Behind env ether ip rest (node_first rest) w' × Unmoved w w')
          (call_back env (state_from nm (node_first rest)) w)
  unfolding call_back
  claim-Behind rest nm w a sound b l nz f claims =
      weaken
        (both _ _ _
          (call_back-Keeps env ether ip responsive (state_from nm (node_first rest)) w (f, nz)
            context a sound)
          (deliver-Recorded env nm (node_first rest) w f context memory b claims))
        λ u w' (k, (state, recorded, list, id, config, same)). (
          record {
            addresses = rw config a;
            sound = k.0;
            state = state ∙ b;
            master = recorded;
            list =
                list
                ∙ ap (λ q. heard q (node_first rest) nm.priority) l
                ∙ heard-first rest nm.priority nz;
          },
          (id, config, same),
        )

  line-FailsOver :
      (claims : List Claim) (members : ℕ) (l : List Node) (gone_id : ℕ) (w : World)
      → Behind env ether ip l gone_id w
      → All IsClaim claims
      → IsBehind claims l gone_id w.vip.node_id
      → Returns
          (λ u w'. FailsOver frame (remaining claims l gone_id) w w')
          (call_backs env (line claims members l gone_id) w)
  unfolding call_backs call_back line remaining IsBehind
  line-FailsOver [] members l gone_id w s c behind =
      bind
        (confchg_callback-FailsOver env ether ip responsive members gone_id w context s.addresses
          s.sound s.state s.master)
        λ u w' f. returns (rw s.list at f)
  line-FailsOver ((n, nm) ∷ claims) members l gone_id w s (c, cs) (nz, ne, behind) =
      let rest = node_unlink l gone_id in
      bind (lost-Behind l gone_id n w s ne) λ u1 w1 (sound, b1, l1, (id1, c1, n1)).
        bind (claim-Behind rest nm w1 (rw c1 s.addresses) sound b1 l1 nz c.0 c.1)
          λ u2 w2 (s2, (id2, c2, n2)).
            weaken
              (line-FailsOver claims members rest (node_first rest) w2 s2 cs
                (rw (id2 ∙ id1) behind))
              (λ u3 w3 t.
                FailsOver-then frame (remaining claims rest (node_first rest)) w w2 w3 (id2 ∙ id1)
                  (c2 ∙ c1) (rw c1 at n2 ∙ n1) t)

-- A node stands by in the state BACKUP. Corosync tells it that the recorded master is gone; the first
-- of the nodes that are left, which is not this one, says in a message whose fields fit that it is the
-- master, and corosync tells that this one is gone, and so on; a last time it tells that the master
-- is gone. Where libc reads the configured addresses, corosync settles every message and finds its
-- context, and memory for new nodes is there, the node returns from all that. It is MASTER then, as
-- the first of the nodes that remain, with its address on the interface and one gratuitous ARP request
-- for it sent in all that time; or it is the first of them and IDLE; or it is not the first of them
-- and is still BACKUP, with the binding of its address and the frames sent as at the start. In MASTER
-- and BACKUP the nodes that remain are its list.
pub call_backs-line :
    (env : Env) (claims : List Claim) (members : ℕ) (l : List Node) (gone_id : ℕ) (w : World)
    (s : StandsBy l gone_id (env, w))
    → All IsClaim claims
    → IsBehind claims l gone_id w.vip.node_id
    → Returns
        (λ u w'.
          FailsOver
            (arp_frame (gratuitous (s.member).ether (s.member).ip))
            (remaining claims l gone_id)
            w
            w')
        (call_backs env (line claims members l gone_id) w)
call_backs-line env claims members l gone_id w s c behind =
    let m = s.member in
    line-FailsOver env m.ether m.ip m.responsive m.memory m.context claims members l gone_id w
      (record {
        addresses = m.addresses;
        sound = m.sound;
        state = s.state;
        master = s.master;
        list = s.list;
      })
      c behind
