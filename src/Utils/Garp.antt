-- ===== src/Utils/Garp.antt =====
-- cpg_utils.c: the gratuitous ARP request that tells the network where the virtual address is.
use freeswitch_mod_cpg.Base.{◌≤◌, is_zero, ◌≡◌, ◌⊎◌, some, ◌∷◌, Bytes, length, if◌then◌else◌, arith}
use freeswitch_mod_cpg.World.{Env, M, World, Log, Status, success, status_false, ◌>>=◌, pure}
use freeswitch_mod_cpg.World.Returns.{Returns, returns, bind}
use freeswitch_mod_cpg.Arp.{Packet, broadcast_text, net_send_arp_string}
use freeswitch_mod_cpg.Arp.Frame.{arp_frame}
use freeswitch_mod_cpg.Arp.Ring.{HasRings, ResolvesMac, ResolvesIp, ones}
use freeswitch_mod_cpg.Arp.Send.{
  sent, net_send_arp_string-arp_frame, IgnoresArp, KeepsArp, net_send_arp_string-Keeps,
}

unfoldable pub utils_send_g_arp : Env → Bytes → Bytes → Bytes → M Status
utils_send_g_arp env mac address device = do
  ret ← net_send_arp_string env mac broadcast_text 1 mac address mac address (some device)
  pure (if is_zero ret then success else status_false)

-- A request that asks for the own address, from the own address, to everybody.
abbrev pub gratuitous : Bytes → Bytes → Packet
gratuitous mac ip = record {
  mac_source = mac;
  mac_destination = ones;
  operation = 1;
  mac_sender = mac;
  ip_sender = ip;
  mac_target = mac;
  ip_target = ip;
}

-- What libc makes of the address of a virtual ip and of its interface's MAC.
pub record Addresses (env : Env) (mac address ether ip : Bytes) : Type 0 where
  pub broadcast : ResolvesMac env broadcast_text ones
  pub hardware : ResolvesMac env mac ether
  pub protocol : ResolvesIp env address ip
  pub ether_size : length ether ≡ 6
  pub ip_size : length ip ≡ 4
  pub buffer : 42 ≤ length env.pktbuf

abbrev pub Announces : World → Bytes → Status → World → Type 0
Announces w frame status w' =
    (w'.vip ≡ w.vip)
    × HasRings w'.rings
    × (((status ≡ success) × (sent w'.log ≡ frame ∷ sent w.log))
        ⊎ ((status ≡ status_false) × (sent w'.log ≡ sent w.log)))

-- Where libc reads the configured addresses, `utils_send_g_arp` returns. It succeeds exactly where
-- one frame more has been sent, and that frame is the broadcast ARP request whose sender and
-- target are both the given address at the given MAC.
pub utils_send_g_arp-gratuitous :
    (env : Env) (mac address device ether ip : Bytes) (w : World)
    → Addresses env mac address ether ip
    → HasRings w.rings
    → Returns
        (Announces w (arp_frame (gratuitous ether ip)))
        (utils_send_g_arp env mac address device w)
unfolding utils_send_g_arp
utils_send_g_arp-gratuitous env mac address device ether ip w a rings =
    bind
      (net_send_arp_string-arp_frame env w mac broadcast_text mac address mac address (some device)
        (gratuitous ether ip) (ground arith) a.buffer rings a.broadcast a.hardware a.broadcast
        a.hardware a.protocol a.hardware a.protocol)
      λ ret w' k. returns (ground arith)

pub utils_send_g_arp-Keeps :
    (env : Env) (X : Type 0) (f : Log → X) (view : IgnoresArp X f)
    (mac address device ether ip : Bytes) (w : World)
    → Addresses env mac address ether ip
    → HasRings w.rings
    → Returns (KeepsArp X f w) (utils_send_g_arp env mac address device w)
unfolding utils_send_g_arp
utils_send_g_arp-Keeps env X f view mac address device ether ip w a rings =
    bind
      (net_send_arp_string-Keeps env X f view w mac broadcast_text mac address mac address
        (some device) (gratuitous ether ip) rings a.broadcast a.hardware a.broadcast a.hardware
        a.protocol a.hardware a.protocol)
      λ ret w' k. returns k
