-- ===== src/Tests/Agreement.antt =====
-- The theorems on a group, at two nodes that wait behind the master.
use freeswitch_mod_cpg.Base.{
  ℕ, suc, ◌+◌, some, true, false, ◌≡◌, inr, inl, Bytes, All, List, refl, [], ◌∷◌, arith, replicate,
  pos,
}
use freeswitch_mod_cpg.Types.{master_down, NodeMsg}
use freeswitch_mod_cpg.World.{World}
use freeswitch_mod_cpg.World.Returns.{Returns}
use freeswitch_mod_cpg.Node.Contents.{priority_of}
use freeswitch_mod_cpg.Callbacks.Safety.{Callback, state_from, confchg, Receivable}
use freeswitch_mod_cpg.Agreement.{call_backs, known_of, Member}
use freeswitch_mod_cpg.Agreement.Both.{Agrees, call_backs-Agrees}
use freeswitch_mod_cpg.Agreement.OneMaster.{AtMostOne, HasDistinctKnown, one_master_of_group}
use freeswitch_mod_cpg.VirtualIp.Multicast.{multicast}
use freeswitch_mod_cpg.Arp.Frame.{arp_frame}
use freeswitch_mod_cpg.Utils.Garp.{gratuitous}
use freeswitch_mod_cpg.Node.{node_first, node_unlink}
use freeswitch_mod_cpg.Callbacks.{deliver_callback, confchg_callback}
use freeswitch_mod_cpg.Callbacks.Roundtrip.{Fits}
use freeswitch_mod_cpg.Callbacks.Safety.{Keeps}
use freeswitch_mod_cpg.Callbacks.Failover.{FailsOver}
use freeswitch_mod_cpg.Agreement.Joining.{Announcer, Learns, joining-Learns}
use freeswitch_mod_cpg.Node.Order.{IsPriorityList}
use freeswitch_mod_cpg.Types.{Node}
use freeswitch_mod_cpg.Agreement.Successor.{
  at_each, count, owns, is_down, stands_by, StandsBy, lost, one_successor,
}
use freeswitch_mod_cpg.World.{Env}
use freeswitch_mod_cpg.Agreement.Line.{Claim, IsClaim, IsBehind, line, remaining, call_backs-line}
use freeswitch_mod_cpg.Agreement.Succession.{call_backs-FailsOver}
use freeswitch_mod_cpg.Tests.{
  node, calm, calm-Responsive, calm-Addresses, hardware, address_bytes, waiting, rings-HasRings,
  two, two-IsPriorityList,
}

-- A node that waits behind a master.
abbrev behind : List Node → ℕ → ℕ → World
behind l id other = record waiting {
  vip = record (waiting.vip) { node_list = l; node_id = id; master_id = other };
}

-- The second node of the group.
abbrev second : World
second = behind two 2 2

abbrev news : NodeMsg
news = record { priority = pos 70; state = 1; runtime_uuid = replicate 36 65 }

abbrev history : List Callback
history = confchg 3 [] true ∷ state_from news 4 ∷ confchg 2 (2 ∷ []) true ∷ []

history-Receivable : All Receivable history
history-Receivable = (tt, (ground arith, (tt, tt)))

calm-Member : (l : List Node) (id other : ℕ) → IsPriorityList l → Member calm (behind l id other)
calm-Member l id other order = record {
  ether = hardware;
  ip = address_bytes;
  responsive = calm-Responsive;
  addresses = calm-Addresses;
  memory = λ log. refl;
  context = λ log. refl;
  sound = record { safe = record { rings = rings-HasRings; owner = λ h. cc }; order = order };
}

waiting-Member : Member calm waiting
waiting-Member = calm-Member two 1 2 two-IsPriorityList

second-Member : Member calm second
second-Member = calm-Member two 2 2 two-IsPriorityList

history-HasDistinctKnown : HasDistinctKnown two history
unfolding known_of priority_of
history-HasDistinctKnown i j p a b = ground arith

call_backs-Agrees_example :
    Returns
      (λ u1 v1. Returns (λ u2 v2. Agrees two history v1 v2) (call_backs calm history second))
      (call_backs calm history waiting)
call_backs-Agrees_example =
    call_backs-Agrees calm calm history waiting second waiting-Member second-Member refl
      history-Receivable

one_master_of_group_example :
    Returns
      (λ u1 v1.
        Returns
          (λ u2 v2. AtMostOne calm calm master_down master_down v1 v2)
          (call_backs calm history second))
      (call_backs calm history waiting)
one_master_of_group_example =
    one_master_of_group calm calm master_down master_down (λ e. cc) (λ e. cc) history waiting second
      waiting-Member second-Member refl (λ e. omega arith) history-Receivable
      history-HasDistinctKnown

waiting-Announcer : Announcer calm waiting
waiting-Announcer = record {
  waits = inr refl;
  responsive = calm-Responsive;
  context = λ log. refl;
  codes = refl;
  takes = λ h buf log. inl refl;
  buffers = λ log. refl;
  uuid_text = λ log. ground arith;
  uuid_size = λ log. omega arith;
  above = ground arith;
  below = ground arith;
  not_zero = λ e. omega arith;
}

joining-Learns_example :
    Returns
      (λ u1 v1.
        (buf : Bytes) × (multicast calm v1.log ≡ buf ∷ multicast calm waiting.log)
        × Returns
            (λ u2 v2. Keeps second u2 v2 × Learns waiting second v2)
            (deliver_callback calm 1 buf second))
      (confchg_callback calm 3 [] true waiting)
joining-Learns_example = joining-Learns calm calm waiting second 3 waiting-Announcer second-Member

-- The master is node 3 now.
abbrev claim : NodeMsg
claim = record { priority = pos 120; state = 3; runtime_uuid = replicate 36 65 }

claim-Fits : Fits claim
claim-Fits = ground arith

call_backs-FailsOver_example :
    Returns
      (λ u w'.
        FailsOver
          (arp_frame (gratuitous waiting-Member.ether waiting-Member.ip))
          (node_unlink two 3)
          waiting
          w')
      (call_backs calm (state_from claim 3 ∷ confchg 2 (3 ∷ []) false ∷ []) waiting)
call_backs-FailsOver_example =
    call_backs-FailsOver calm claim 3 2 waiting waiting-Member claim-Fits (λ e. omega arith) refl
      refl

-- The two nodes behind node 3.
abbrev three : List Node
three = node 3 120 ∷ two

three-StandsBy : (id : ℕ) → StandsBy three 3 (calm, behind three id 3)
three-StandsBy id = record {
  member = calm-Member three id 3 (ground arith);
  state = refl;
  master = refl;
  list = refl;
}

abbrev group : List (Env × World)
group = (calm, behind three 1 3) ∷ (calm, behind three 2 3) ∷ []

group-StandsBy : All (StandsBy three 3) group
group-StandsBy = (three-StandsBy 1, (three-StandsBy 2, tt))

one_successor_example :
    (ws : List World) × (at_each (lost 3 2) group ≡ some ws)
    × (count owns ws + count is_down ws ≡ 1)
    × (suc (count stands_by ws) ≡ 2)
unfolding node_first node_unlink
one_successor_example = one_successor 3 2 three group group-StandsBy refl

-- Node 3 is lost, then node 1.
abbrev claims : List Claim
claims = (2, record { priority = pos 100; state = 3; runtime_uuid = replicate 36 65 }) ∷ []

claims-IsClaim : All IsClaim claims
claims-IsClaim = ground arith

two-IsBehind : IsBehind claims three 3 2
unfolding IsBehind node_first node_unlink
two-IsBehind = ((λ e. omega arith), (λ e. omega arith), tt)

call_backs-line_example :
    Returns
      (λ u w'.
        FailsOver
          (arp_frame (gratuitous ((three-StandsBy 2).member).ether ((three-StandsBy 2).member).ip))
          (remaining claims three 3)
          (behind three 2 3)
          w')
      (call_backs calm (line claims 1 three 3) (behind three 2 3))
call_backs-line_example =
    call_backs-line calm claims 1 three 3 (behind three 2 3) (three-StandsBy 2) claims-IsClaim
      two-IsBehind
