-- ===== src/Arp/Send.antt =====
-- What `net_send_arp` and `net_send_arp_string` of arpator.c send, and what they return.
use freeswitch_mod_cpg.Base.{
  ◌≤◌, ℤ, pos, negsuc, is_neg, ◌≡◌, ◌∙◌, ◌⊎◌, Option, List, [], ◌∷◌, Bytes, length, if◌then◌else◌,
  arith, refl,
}
use freeswitch_mod_cpg.World.{Env, World, Log, Call, entry, sendto, set_broadcast, socket_packet}
use freeswitch_mod_cpg.World.Returns.{Returns, of_Ensures, weaken}
use freeswitch_mod_cpg.Arp.{Packet, net_send_arp, net_send_arp_string, broadcast_text}
use freeswitch_mod_cpg.Arp.Frame.{HasSizes, arp_frame, fill_packet-arp_frame}
use freeswitch_mod_cpg.Arp.Ring.{
  IgnoresLookups, HasRings, ResolvesMac, ResolvesIp, ones, net_send_arp_string-rule,
}

sent_by : Call → ℤ → List Bytes → List Bytes
sent_by (sendto frame id destination) answer frames =
    if is_neg answer then frames else frame ∷ frames
sent_by _ answer frames = frames

-- The frames that the kernel took for sending, newest first.
unfoldable pub sent : Log → List Bytes
unfolding sent_by
sent [] = []
sent (e ∷ log) = sent_by e.call e.answer (sent log)

-- 0, and the frame has been sent; or -1, and nothing has.
abbrev pub SendsFrame : World → Bytes → ℤ → World → Type 0
SendsFrame w frame result w' =
    (w'.vip ≡ w.vip)
    × (w'.rings ≡ w.rings)
    × (((result ≡ pos 0) × (sent w'.log ≡ frame ∷ sent w.log))
        ⊎ ((result ≡ negsuc 0) × (sent w'.log ≡ sent w.log)))

-- `net_send_arp` returns; it gives 0 and has sent the ARP frame of its addresses, or -1 and has
-- sent nothing.
pub net_send_arp-arp_frame :
    (env : Env) (p : Packet) (id : ℤ) (w : World)
    → HasSizes p
    → 42 ≤ length env.pktbuf
    → Returns (SendsFrame w (arp_frame p)) (net_send_arp env p id w)
unfolding net_send_arp sent
net_send_arp-arp_frame env p id w s h =
    let f = fill_packet-arp_frame env.pktbuf p s h in
    of_Ensures (SendsFrame w (arp_frame p)) _ (rw (f.0, f.2) (ground arith))

pub sent-IgnoresLookups : IgnoresLookups (List Bytes) sent
unfolding sent
sent-IgnoresLookups = record {
  macs = λ s a l. refl;
  ips = λ s a l. refl;
  inet = λ a l. refl;
  index = λ s a l. refl;
  closing = λ a l. refl;
}

-- What `net_send_arp_string` leaves behind, by its result.
abbrev pub SendsString : World → Bytes → ℤ → World → Type 0
SendsString w frame result w' =
    (w'.vip ≡ w.vip)
    × HasRings w'.rings
    × (((result ≡ pos 0) × (sent w'.log ≡ frame ∷ sent w.log))
        ⊎ ((result ≡ negsuc 0) × (sent w'.log ≡ sent w.log)))

-- Where the texts of the addresses are read as the addresses of the packet, and the rings have
-- their eight entries, `net_send_arp_string` returns, whatever the next entries of the rings are:
-- it gives 0 and has sent the ARP frame of just these addresses, or -1 and has sent nothing. The
-- virtual ip is unchanged and the rings keep their shape.
pub net_send_arp_string-arp_frame :
    (env : Env) (w : World) (source destination sender ip_sender target ip_target : Bytes)
    (dev : Option Bytes) (p : Packet)
    → HasSizes p
    → 42 ≤ length env.pktbuf
    → HasRings w.rings
    → ResolvesMac env broadcast_text ones
    → ResolvesMac env source p.mac_source
    → ResolvesMac env destination p.mac_destination
    → ResolvesMac env sender p.mac_sender
    → ResolvesIp env ip_sender p.ip_sender
    → ResolvesMac env target p.mac_target
    → ResolvesIp env ip_target p.ip_target
    → Returns (SendsString w (arp_frame p)) (
        net_send_arp_string env source destination p.operation sender ip_sender target ip_target dev
          w)
net_send_arp_string-arp_frame env w source destination sender ip_sender target ip_target dev p s h
      rings rb rs rd rn ri rt rj =
    net_send_arp_string-rule env (List Bytes) sent sent-IgnoresLookups w source destination sender
      ip_sender target ip_target dev p (SendsString w (arp_frame p)) rings rb rs rd rn ri rt rj
      λ id w' v r l. weaken (net_send_arp-arp_frame env p id w' s h) (λ result w'' k. ground arith)

-- What is read off the log does not depend on the calls of arpator.c.
pub record IgnoresArp (X : Type 0) (f : Log → X) : Type 0 where
  pub lookups : IgnoresLookups X f
  pub packet : (a : ℤ) (l : Log) → f (entry socket_packet a ∷ l) ≡ f l
  pub broadcast : (a : ℤ) (l : Log) → f (entry set_broadcast a ∷ l) ≡ f l
  pub sending :
      (b : Bytes) (i : ℤ) (d : Bytes) (a : ℤ) (l : Log) → f (entry (sendto b i d) a ∷ l) ≡ f l

abbrev pub KeepsArp : {A : Type 0} (X : Type 0) → (Log → X) → World → A → World → Type 0
KeepsArp X f w result w' = (w'.vip ≡ w.vip) × HasRings w'.rings × (f w'.log ≡ f w.log)

module _ (env : Env) (X : Type 0) (f : Log → X) (view : IgnoresArp X f) where
  net_send_arp-Keeps :
      (p : Packet) (id : ℤ) (w : World)
      → HasRings w.rings
      → Returns (KeepsArp X f w) (net_send_arp env p id w)
  unfolding net_send_arp
  net_send_arp-Keeps p id w h =
      of_Ensures (KeepsArp X f w) _
        (grind (arith, view.packet, view.broadcast, view.sending, view.lookups.closing))

  pub net_send_arp_string-Keeps :
      (w : World) (source destination sender ip_sender target ip_target : Bytes)
      (dev : Option Bytes) (p : Packet)
      → HasRings w.rings
      → ResolvesMac env broadcast_text ones
      → ResolvesMac env source p.mac_source
      → ResolvesMac env destination p.mac_destination
      → ResolvesMac env sender p.mac_sender
      → ResolvesIp env ip_sender p.ip_sender
      → ResolvesMac env target p.mac_target
      → ResolvesIp env ip_target p.ip_target
      → Returns (KeepsArp X f w) (
          net_send_arp_string env source destination p.operation sender ip_sender target ip_target
            dev w)
  net_send_arp_string-Keeps w source destination sender ip_sender target ip_target dev p rings rb rs
        rd rn ri rt rj =
      net_send_arp_string-rule env X f view.lookups w source destination sender ip_sender target
        ip_target dev p (KeepsArp X f w) rings rb rs rd rn ri rt rj
        λ id w' v r l.
          weaken (net_send_arp-Keeps p id w' r) (λ result w'' (v', r', l'). (v' ∙ v, r', l' ∙ l))
