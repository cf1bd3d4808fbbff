-- ===== src/Tests/Parts.antt =====
-- The theorems on the node list, the addresses, the frames and the messages, at concrete inputs.
use freeswitch_mod_cpg.Base.{
  ℕ, ℤ, ◌==◌, ◌≤ℤ◌, pos, ◌≡◌, ◌≢◌, refl, true, false, none, some, [], ◌∷◌, codes, replicate,
  if◌then◌else◌, arith,
}
use freeswitch_mod_cpg.Types.{NodeMsg}
use freeswitch_mod_cpg.World.{◌>>◌, pure, tell, cpg_context_get}
use freeswitch_mod_cpg.World.Returns.{Returns}
use freeswitch_mod_cpg.Node.{node_add, node_remove, node_first}
use freeswitch_mod_cpg.Node.Order.{IsPriorityList}
use freeswitch_mod_cpg.Node.Contents.{priority_of, node_first-highest}
use freeswitch_mod_cpg.Node.Memory.{KeepsState, Added, node_add-Added, node_remove-priority_of}
use freeswitch_mod_cpg.Arp.{net_send_arp_string, net_send_arp, broadcast_text}
use freeswitch_mod_cpg.Arp.Frame.{HasSizes, arp_frame}
use freeswitch_mod_cpg.Arp.Send.{
  SendsFrame, SendsString, net_send_arp-arp_frame, net_send_arp_string-arp_frame,
}
use freeswitch_mod_cpg.Utils.Ip.{
  del_ip, ip_addr, utils_get_mac_addr, utils_add_vip, utils_remove_vip,
}
use freeswitch_mod_cpg.Utils.Ip.Handles.{
  LeaksWithoutAddress, LeaksWithoutCache, tally, tally-ip_addr, tally-utils_get_mac_addr,
}
use freeswitch_mod_cpg.Utils.Ip.Bound.{Rebinds, utils_add_vip-bound, utils_remove_vip-bound}
use freeswitch_mod_cpg.Utils.Garp.{
  gratuitous, Announces, utils_send_g_arp, utils_send_g_arp-gratuitous,
}
use freeswitch_mod_cpg.VirtualIp.Message.{state_message, sql_message}
use freeswitch_mod_cpg.Input.{fsm_input_new_state_message}
use freeswitch_mod_cpg.Callbacks.{deliver_callback, track_loop}
use freeswitch_mod_cpg.Callbacks.Roundtrip.{Fits, deliver-state_message, deliver-sql_message}
use freeswitch_mod_cpg.Tests.{
  calm, calm-broadcast, calm-hardware, calm-protocol, calm-Addresses, hardware, address_bytes, two,
  two-IsPriorityList, fresh, serving, rings-HasRings, internal,
}

node_add-Added_example :
    Returns
      (λ l' w'. KeepsState fresh w' × IsPriorityList l' × Added calm two 3 (pos 70) fresh l')
      (node_add calm two 3 (pos 70) fresh)
node_add-Added_example = node_add-Added calm two 3 (pos 70) fresh (ground arith) two-IsPriorityList

node_remove-priority_of_example :
    Returns
      (λ l' w'.
        KeepsState fresh w'
        × IsPriorityList l'
        × ((j : ℕ) → priority_of l' j ≡ (if 2 == j then none else priority_of two j)))
      (node_remove calm two 2 fresh)
node_remove-priority_of_example = node_remove-priority_of calm two 2 fresh two-IsPriorityList

two_nodes : two ≢ []
two_nodes e = cc

node_first-highest_example :
    (p : ℤ) × (priority_of two (node_first two) ≡ some p)
    × ((id : ℕ) (q : ℤ) → priority_of two id ≡ some q → q ≤ℤ p)
node_first-highest_example = node_first-highest two two-IsPriorityList two_nodes

announcement-HasSizes : HasSizes (gratuitous hardware address_bytes)
announcement-HasSizes = record {
  source = refl;
  destination = refl;
  sender = refl;
  sender_ip = refl;
  target = refl;
  target_ip = refl;
}

net_send_arp-arp_frame_example :
    Returns
      (SendsFrame fresh (arp_frame (gratuitous hardware address_bytes)))
      (net_send_arp calm (gratuitous hardware address_bytes) (pos 2) fresh)
net_send_arp-arp_frame_example =
    net_send_arp-arp_frame calm (gratuitous hardware address_bytes) (pos 2) fresh
      announcement-HasSizes (omega arith)

net_send_arp_string-arp_frame_example :
    Returns (SendsString fresh (arp_frame (gratuitous hardware address_bytes))) (
      net_send_arp_string calm
        (codes "02:00:00:00:00:07")
        broadcast_text
        1
        (codes "02:00:00:00:00:07")
        (codes "10.0.0.1")
        (codes "02:00:00:00:00:07")
        (codes "10.0.0.1")
        (some (codes "eth0"))
        fresh)
net_send_arp_string-arp_frame_example =
    net_send_arp_string-arp_frame calm fresh (codes "02:00:00:00:00:07") broadcast_text
      (codes "02:00:00:00:00:07") (codes "10.0.0.1") (codes "02:00:00:00:00:07") (codes "10.0.0.1")
      (some (codes "eth0")) (gratuitous hardware address_bytes) announcement-HasSizes (omega arith)
      rings-HasRings calm-broadcast calm-hardware calm-broadcast calm-hardware calm-protocol
      calm-hardware calm-protocol

utils_send_g_arp-gratuitous_example :
    Returns
      (Announces fresh (arp_frame (gratuitous hardware address_bytes)))
      (utils_send_g_arp calm (codes "02:00:00:00:00:07") (codes "10.0.0.1") (codes "eth0") fresh)
utils_send_g_arp-gratuitous_example =
    utils_send_g_arp-gratuitous calm (codes "02:00:00:00:00:07") (codes "10.0.0.1") (codes "eth0")
      hardware address_bytes fresh calm-Addresses rings-HasRings

utils_add_vip-bound_example :
    Returns
      (Rebinds (codes "10.0.0.1", codes "eth0") true fresh)
      (utils_add_vip calm (codes "10.0.0.1") (codes "eth0") fresh)
utils_add_vip-bound_example = utils_add_vip-bound calm (codes "10.0.0.1") (codes "eth0") fresh

utils_remove_vip-bound_example :
    Returns
      (Rebinds (codes "10.0.0.1", codes "eth0") false serving)
      (utils_remove_vip calm (codes "10.0.0.1") (codes "eth0") serving)
utils_remove_vip-bound_example =
    utils_remove_vip-bound calm (codes "10.0.0.1") (codes "eth0") serving

abbrev hello : NodeMsg
hello = record { priority = pos 100; state = 1; runtime_uuid = codes "mine" }

hello-Fits : Fits hello
hello-Fits = record {
  above = omega arith;
  below = omega arith;
  state = omega arith;
  text = ground arith;
  uuid = omega arith;
}

deliver-state_message_example :
    deliver_callback calm 1 (state_message hello) fresh
    ≡ (tell calm cpg_context_get >> (fsm_input_new_state_message calm hello 1 >> pure tt)) fresh
deliver-state_message_example = deliver-state_message calm hello 1 fresh hello-Fits (λ log. refl)

deliver-sql_message_example :
    deliver_callback calm 2
      (sql_message (replicate 128 0) (codes "internal") (codes "drop"))
      serving
    ≡ (tell calm cpg_context_get
          >> track_loop calm (internal ∷ []) (codes "internal") (codes "drop"))
        serving
deliver-sql_message_example =
    deliver-sql_message calm (replicate 128 0) (codes "internal") (codes "drop") 2 serving
      (ground arith) (ground arith) (omega arith) (omega arith) (ground arith) (λ log. refl)

tally-ip_addr_example :
    Returns
      (λ r w'. LeaksWithoutAddress (tally serving.log) (tally w'.log))
      (ip_addr calm (codes "10.0.0.1") (codes "eth0") del_ip serving)
tally-ip_addr_example = tally-ip_addr calm (codes "10.0.0.1") (codes "eth0") del_ip serving

tally-utils_get_mac_addr_example :
    Returns
      (λ r w'. LeaksWithoutCache (tally serving.log) (tally w'.log))
      (utils_get_mac_addr calm (codes "eth0") serving)
tally-utils_get_mac_addr_example = tally-utils_get_mac_addr calm (codes "eth0") serving
