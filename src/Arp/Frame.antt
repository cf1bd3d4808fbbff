-- ===== src/Arp/Frame.antt =====
-- The bytes that `net_send_arp` of arpator.c puts on the wire.
use freeswitch_mod_cpg.Base.{
  ℕ, zero, suc, ◌+◌, ◌/◌, ◌%◌, ◌≤◌, ◌≡◌, ◌∙◌, sym, ap, refl, [], ◌∷◌, ◌++◌, Bytes, length, take,
  length-write_at, take-write_at, length-append, arith,
}
use mathlib.Core.List.{append_assoc}
use freeswitch_mod_cpg.Arp.{Packet, htons, ethhdr, arphdr, push, fill_packet}

-- Addresses have the sizes of `struct ether_addr` and `in_addr_t`.
pub record HasSizes (p : Packet) : Type 0 where
  pub source : length p.mac_source ≡ 6
  pub destination : length p.mac_destination ≡ 6
  pub sender : length p.mac_sender ≡ 6
  pub sender_ip : length p.ip_sender ≡ 4
  pub target : length p.mac_target ≡ 6
  pub target_ip : length p.ip_target ≡ 4

-- RFC 826 over Ethernet: destination, source, type 0806; then hardware type 1, protocol type 0800,
-- the address sizes 6 and 4, the operation, and the four addresses.
unfoldable pub arp_frame : Packet → Bytes
arp_frame p =
    p.mac_destination
    ++ p.mac_source
    ++ (8 ∷ 6 ∷ 0 ∷ 1 ∷ 8 ∷ 0 ∷ 6 ∷ 4 ∷ (p.operation / 256 % 256) ∷ (p.operation % 256) ∷ [])
    ++ p.mac_sender
    ++ p.ip_sender
    ++ p.mac_target
    ++ p.ip_target

take_all : (n : ℕ) (bs : Bytes) → length bs ≡ n → take n bs ≡ bs
take_all zero [] e = refl
take_all zero (b ∷ bs) e = absurd (omega arith)
take_all (suc n) [] e = refl
take_all (suc n) (b ∷ bs) e = ap (◌∷◌ b) (take_all n bs (omega arith))

-- One more `memcpy` of a whole value behind a prefix: what the buffer holds so far grows by it.
record Holds (s : Bytes × ℕ) (room : ℕ) (sofar : Bytes) : Type 0 where
  prefix : take s.1 s.0 ≡ sofar
  size : length s.0 ≡ room
  used : s.1 ≡ length sofar

Holds-push :
    (s : Bytes × ℕ) (room : ℕ) (sofar src : Bytes) (k : ℕ)
    → Holds s room sofar
    → length src ≡ k
    → s.1 + k ≤ room
    → Holds (push s src k) room (sofar ++ src)
Holds-push (buf, n) room sofar src k h e r = record {
  prefix =
      rw (take_all k src e, ← e)
        (take-write_at buf n src (omega (arith, h.used, h.size)) ∙ ap (λ t. t ++ src) h.prefix);
  size = length-write_at buf n (take k src) ∙ h.size;
  used = omega (arith, h.used, length-append sofar src);
}

module _ (pktbuf : Bytes) (p : Packet) where
  -- With addresses of the right sizes, in a buffer of at least 42 bytes, the packet is 42 bytes long
  -- and leaves the length of the buffer alone, and whatever the buffer held before, its first 42
  -- bytes are the ARP frame of the given addresses.
  pub fill_packet-arp_frame :
      HasSizes p
      → 42 ≤ length pktbuf
      → ((fill_packet pktbuf p).1 ≡ 42)
        × (length (fill_packet pktbuf p).0 ≡ length pktbuf)
        × (take 42 (fill_packet pktbuf p).0 ≡ arp_frame p)
        × (length (arp_frame p) ≡ 42)
  unfolding fill_packet arp_frame
  fill_packet-arp_frame s h =
      let room = length pktbuf in
      let h0 : Holds (pktbuf, 0) room [] = record { prefix = refl; size = refl; used = refl } in
      let eth = ethhdr p.mac_destination p.mac_source in
      let arp = arphdr p.operation in
      let e : length eth ≡ 14 = omega (
        arith,
        length-append (p.mac_destination ++ p.mac_source) (htons 0x0806),
        length-append p.mac_destination p.mac_source,
      ) in
      let h1 = Holds-push _ room _ eth 14 h0 e (omega arith) in
      let h2 = Holds-push _ room _ arp 8 h1 refl (omega arith) in
      let h3 = Holds-push _ room _ p.mac_sender 6 h2 s.sender (omega arith) in
      let h4 = Holds-push _ room _ p.ip_sender 4 h3 s.sender_ip (omega arith) in
      let h5 = Holds-push _ room _ p.mac_target 6 h4 s.target (omega arith) in
      let h6 = Holds-push _ room _ p.ip_target 4 h5 s.target_ip (omega arith) in
      (refl, h6.size, h6.prefix ∙ simp append_assoc, sym (h6.used ∙ ap length (simp append_assoc)))
