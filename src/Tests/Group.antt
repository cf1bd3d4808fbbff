-- ===== src/Tests/Group.antt =====
-- The theorems on announcements, on the life and on the thread of a virtual ip, at concrete inputs.
use freeswitch_mod_cpg.Base.{true, List, ℕ, All, ◌≡◌, refl, [], ◌∷◌, arith, replicate, pos}
use freeswitch_mod_cpg.Types.{idle, start, NodeMsg}
use freeswitch_mod_cpg.World.{World, entry, thread_create, virtual_ip_thread}
use freeswitch_mod_cpg.World.Returns.{Returns}
use freeswitch_mod_cpg.Node.{node_first}
use freeswitch_mod_cpg.Node.Announcements.{
  Announcement, HasDistinctAnnouncements, first_of, add_all, add_all-agrees,
}
use freeswitch_mod_cpg.GroupThread.Soundness.{dispatch_pending}
use freeswitch_mod_cpg.GroupThread.Whole.{KeepsAside, Completes, vip_thread-Completes}
use freeswitch_mod_cpg.Input.Safety.{IsSound}
use freeswitch_mod_cpg.Fsm.{fsm_do_transaction, table, go_up}
use freeswitch_mod_cpg.Input.{fsm_input_cmd_start}
use freeswitch_mod_cpg.Input.History.{cmd_start, feed}
use freeswitch_mod_cpg.Callbacks.Safety.{
  Callback, state_from, confchg, Receivable, Keeps, call_back,
}
use freeswitch_mod_cpg.Life.{Reach, here, later, input, Reach-IsSound}
use freeswitch_mod_cpg.GroupThread.{vip_thread}
use freeswitch_mod_cpg.GroupThread.Protocol.{protocol, unopened}
use freeswitch_mod_cpg.Tests.{
  calm, calm-Responsive, calm-Addresses, hardware, address_bytes, fresh, fresh-IsSound,
  rings-HasRings, rings, vip,
}

abbrev hello : NodeMsg
hello = record { priority = pos 50; state = 2; runtime_uuid = replicate 36 65 }

hello-Receivable : Receivable (state_from hello 4)
hello-Receivable = ground arith

-- After the command to start.
abbrev begun : World
begun = record {
  vip = record (vip idle []) { state = start; virtual_ip_thread = 5 };
  rings = rings;
  log = entry (thread_create virtual_ip_thread) (pos 0) ∷ [];
}

fresh-begun : Reach calm fresh begun
unfolding feed fsm_input_cmd_start fsm_do_transaction table go_up
fresh-begun = later here (input cmd_start _ tt refl)

Reach-IsSound_example :
    Keeps fresh (tt {0}) begun
    × Returns (Keeps fresh) (feed calm cmd_start begun)
    × Returns (Keeps fresh) (call_back calm (state_from hello 4) begun)
Reach-IsSound_example =
    Reach-IsSound calm hardware address_bytes calm-Responsive (λ log. refl) fresh begun cmd_start
      (state_from hello 4) calm-Addresses fresh-IsSound fresh-begun tt hello-Receivable

abbrev nobody_else : World → World
nobody_else w = w

begun-unopened : (protocol calm begun.log).membership ≡ unopened
unfolding protocol
begun-unopened = refl

-- A change of the group, in which this node has joined, and a state message are always pending.
abbrev greeting : World → List Callback
greeting w = confchg 2 [] true ∷ state_from hello 4 ∷ []

greeting-Receivable : (w : World) → All Receivable (greeting w)
greeting-Receivable w = (tt, (hello-Receivable, tt))

alone-KeepsAside : KeepsAside calm hardware address_bytes nobody_else
alone-KeepsAside = record { soundness = λ w reads sound. (sound, refl); membership = λ w. refl }

begun-IsSound : IsSound begun
begun-IsSound = record { safe = record { rings = rings-HasRings; owner = λ h. cc }; order = tt }

vip_thread-Completes_example :
    Returns
      (Completes calm begun)
      (vip_thread calm nobody_else (dispatch_pending calm greeting) 3 begun)
vip_thread-Completes_example =
    vip_thread-Completes calm hardware address_bytes nobody_else greeting 3 begun calm-Responsive
      (λ log. refl) greeting-Receivable alone-KeepsAside calm-Addresses begun-IsSound begun-unopened

-- Two nodes, which hear of each other in different orders; one of them is heard of twice.
abbrev heard_here : List Announcement
heard_here = (1, pos 100) ∷ (2, pos 50) ∷ (1, pos 70) ∷ []

abbrev heard_there : List Announcement
heard_there = (2, pos 50) ∷ (1, pos 100) ∷ []

heard_same : (j : ℕ) → first_of heard_here j ≡ first_of heard_there j
heard_same j = ground arith

heard_here-HasDistinctAnnouncements : HasDistinctAnnouncements heard_here
heard_here-HasDistinctAnnouncements i j p h k = ground arith

add_all-agrees_example :
    Returns
      (λ l1 w1'.
        Returns (λ l2 w2'. node_first l1 ≡ node_first l2) (add_all calm heard_there [] fresh))
      (add_all calm heard_here [] fresh)
add_all-agrees_example =
    add_all-agrees calm calm heard_here heard_there fresh fresh (λ log. refl) (λ log. refl)
      (ground arith) (ground arith) heard_same heard_here-HasDistinctAnnouncements
