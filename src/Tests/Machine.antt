-- ===== src/Tests/Machine.antt =====
-- The theorems on the state machine, at concrete virtual ips.
use freeswitch_mod_cpg.Base.{◌≡◌, ◌⊎◌, refl, true, Bytes}
use freeswitch_mod_cpg.Types.{master_down, start, backup}
use freeswitch_mod_cpg.World.{success}
use freeswitch_mod_cpg.World.Returns.{Returns}
use freeswitch_mod_cpg.Arp.Frame.{arp_frame}
use freeswitch_mod_cpg.Utils.Garp.{gratuitous}
use freeswitch_mod_cpg.Fsm.Updates.{backupup-success}
use freeswitch_mod_cpg.Utils.Ip.Bound.{target}
use freeswitch_mod_cpg.Fsm.Takeover.{network}
use freeswitch_mod_cpg.Fsm.{backupup, fsm_do_transaction, act, go_down}
use freeswitch_mod_cpg.Fsm.Down.{WentDown, go_down-down}
use freeswitch_mod_cpg.Fsm.Takeover.{TakesOver, act-TakesOver}
use freeswitch_mod_cpg.Fsm.Transitions.{Transits, successors, serves, fsm_do_transaction-Transits}
use freeswitch_mod_cpg.Fsm.Mastery.{TookOver, fsm_do_transaction-TookOver}
use freeswitch_mod_cpg.Tests.{
  config, calm, calm-Responsive, calm-Addresses, hardware, address_bytes, waiting, waiting-IsSafe,
  serving, rings-HasRings,
}

abbrev announcement : Bytes
announcement = arp_frame (gratuitous hardware address_bytes)

fsm_do_transaction-Transits_example :
    Returns
      (Transits waiting (successors backup master_down))
      (fsm_do_transaction calm master_down waiting)
fsm_do_transaction-Transits_example =
    fsm_do_transaction-Transits calm waiting hardware address_bytes calm-Responsive calm-Addresses
      waiting-IsSafe master_down (λ h. cc)

fsm_do_transaction-TookOver_example :
    Returns
      (λ r w'.
        serves w'.vip.state ≡ true
        → (master_down ≡ master_down)
          × ((backup ≡ start) ⊎ (backup ≡ backup))
          × TookOver announcement waiting w')
      (fsm_do_transaction calm master_down waiting)
fsm_do_transaction-TookOver_example =
    fsm_do_transaction-TookOver calm waiting hardware address_bytes calm-Responsive calm-Addresses
      waiting-IsSafe master_down (λ h. cc) refl

act-TakesOver_example : Returns (TakesOver announcement waiting) (act calm waiting)
act-TakesOver_example =
    act-TakesOver calm waiting hardware address_bytes calm-Responsive calm-Addresses rings-HasRings

go_down-down_example : Returns (WentDown serving) (go_down calm serving)
go_down-down_example = go_down-down calm serving

backupup-success_example :
    Returns
      (λ s w'.
        (s ≡ success)
        × (w'.vip ≡ serving.vip)
        × (w'.rings ≡ serving.rings)
        × (network (target config) w'.log ≡ network (target config) serving.log))
      (backupup calm serving)
backupup-success_example = backupup-success calm calm-Responsive serving
