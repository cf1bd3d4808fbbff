-- ===== src/Arp.antt =====
-- arpator.c: a raw ARP packet, and the two static rings of converted addresses.
pub mod Frame
pub mod Ring
pub mod Send
use freeswitch_mod_cpg.Base.{
  ℕ, ◌+◌, ◌/◌, ◌%◌, ℤ, pos, negsuc, is_neg, is_zero, Option, none, some, List, [], ◌∷◌, ◌++◌, Bytes,
  get_elem?, set, take, bytes_eq, write_at, if◌then◌else◌,
}
use freeswitch_mod_cpg.World.{
  Env, M, socket_packet, socket_inet, close_socket, set_broadcast, ioctl_ifindex, sendto, inet_addr,
  ether_aton, ◌>>=◌, ◌>>◌, pure, ask, tell, ask_stored, ask_text, get_rings, modify_rings, crash,
}

-- `htons` of a 16-bit value, as its two bytes in memory.
abbrev pub htons : ℕ → Bytes
htons n = (n / 256 % 256) ∷ n % 256 ∷ []

-- `struct ethhdr`: destination, source, ETH_P_ARP.
abbrev pub ethhdr : Bytes → Bytes → Bytes
ethhdr h_dest h_source = h_dest ++ h_source ++ htons 0x0806

-- `struct arphdr`: ARPHRD_ETHER, ETH_P_IP, the two address lengths, the operation.
abbrev pub arphdr : ℕ → Bytes
arphdr operation = htons 1 ++ htons 0x0800 ++ 6 ∷ 4 ∷ htons operation

-- What the bytes to send consist of.
pub record Packet : Type 0 where
  pub mac_source : Bytes
  pub mac_destination : Bytes
  pub operation : ℕ
  pub mac_sender : Bytes
  pub ip_sender : Bytes
  pub mac_target : Bytes
  pub ip_target : Bytes

-- One `memcpy (pktbuf + pktlen, src, size)` with the `pktlen += size` after it.
abbrev pub push : Bytes × ℕ → Bytes → ℕ → Bytes × ℕ
push (pktbuf, pktlen) src size = (write_at pktbuf pktlen (take size src), pktlen + size)

-- The packet in `pktbuf`, and its length.
unfoldable pub fill_packet : Bytes → Packet → Bytes × ℕ
fill_packet pktbuf p =
    let b = push (pktbuf, 0) (ethhdr p.mac_destination p.mac_source) 14 in
    let b = push b (arphdr p.operation) 8 in
    let b = push b p.mac_sender 6 in
    let b = push b p.ip_sender 4 in let b = push b p.mac_target 6 in push b p.ip_target 4

-- `&result[index]` read at a later time.
abbrev pub read : Option Bytes → M Bytes
read none = crash
read (some b) = pure b

abbrev pub deref : List Bytes → ℕ → M Bytes
deref result i = read (get_elem? result i)

abbrev pub ifnamsiz : ℕ
ifnamsiz = 16

-- "ff:ff:ff:ff:ff:ff"
abbrev pub broadcast_text : Bytes
broadcast_text =
    102 ∷ 102 ∷ 58 ∷ 102 ∷ 102 ∷ 58 ∷ 102 ∷ 102 ∷ 58 ∷ 102 ∷ 102 ∷ 58 ∷ 102 ∷ 102 ∷ 58 ∷ 102 ∷ 102
    ∷ []

module _ (env : Env) where
  -- Returns the index of the entry that the pointer points to.
  unfoldable pub ip_aton : Bytes → M ℕ
  ip_aton ip = do
    (_, bin) ← ask_text env (inet_addr ip)
    index ← get_rings (λ r. r.ip_index)
    modify_rings λ r. record r { ip_result = set r.ip_result index bin; ip_index = (index + 1) % 8 }
    pure index

  -- `memcpy` from the NULL that `ether_aton` returns for bad text is undefined behaviour.
  unfoldable pub eth_aton : Bytes → M ℕ
  eth_aton mac = do
    (ret, ether) ← ask_text env (ether_aton mac)
    if is_zero ret then crash else do
      index ← get_rings (λ r. r.eth_index)
      modify_rings
          λ r. record r { eth_result = set r.eth_result index ether; eth_index = (index + 1) % 8 }
      pure index

  -- The interface is never NULL where it is called, so its first branch is left to `none`.
  unfoldable pub ifx_aton : Option Bytes → M ℤ
  ifx_aton none = pure (negsuc 2)
  ifx_aton (some itrf) = do
    ask env socket_inet
    (err, ifindex) ← ask_stored env (ioctl_ifindex (take ifnamsiz itrf))
    if is_neg err then pure (negsuc 0) else do tell env close_socket; pure (pos ifindex)

  -- The end of `net_send_arp`, from the filled headers on.
  abbrev pub send_packet : Packet → ℤ → M ℤ
  send_packet p id =
      let (pktbuf, pktlen) = fill_packet env.pktbuf p in
      do
        sent ← ask env (sendto (take pktlen pktbuf) id p.mac_destination)
        tell env close_socket
        pure (if is_neg sent then negsuc 0 else pos 0)

  unfoldable pub net_send_arp : Packet → ℤ → M ℤ
  unfolding fill_packet
  net_send_arp p id = do
    sd ← ask env socket_packet
    if is_neg sd then pure (negsuc 0) else do
      mac_broadcast ← get_rings (λ r. r.mac_broadcast)
      if bytes_eq p.mac_destination mac_broadcast
          then (do
            opt ← ask env set_broadcast
            if is_neg opt then (do tell env close_socket; pure (negsuc 0)) else send_packet p id)
          else send_packet p id

  -- The pointers are read when `net_send_arp` runs, after all the conversions. C leaves their
  -- order open; here they run from left to right.
  unfoldable pub net_send_arp_string :
      Bytes → Bytes → ℕ → Bytes → Bytes → Bytes → Bytes → Option Bytes → M ℤ
  unfolding ip_aton eth_aton
  net_send_arp_string mac_source mac_destination operation mac_sender ip_sender mac_target ip_target
        dev =
      do
        b ← eth_aton broadcast_text
        r ← get_rings (λ r. r.eth_result)
        broadcast ← deref r b
        modify_rings (λ r. record r { mac_broadcast = broadcast })
        src ← eth_aton mac_source
        dst ← eth_aton mac_destination
        snd ← eth_aton mac_sender
        ips ← ip_aton ip_sender
        tgt ← eth_aton mac_target
        ipt ← ip_aton ip_target
        id ← ifx_aton dev
        eths ← get_rings (λ r. r.eth_result)
        ips' ← get_rings (λ r. r.ip_result)
        source ← deref eths src
        destination ← deref eths dst
        sender ← deref eths snd
        sender_ip ← deref ips' ips
        target ← deref eths tgt
        target_ip ← deref ips' ipt
        let p : Packet = record {
          mac_source = source;
          mac_destination = destination;
          operation = operation;
          mac_sender = sender;
          ip_sender = sender_ip;
          mac_target = target;
          ip_target = target_ip;
        }
        net_send_arp p id
