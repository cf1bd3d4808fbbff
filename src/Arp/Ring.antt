-- ===== src/Arp/Ring.antt =====
-- The static rings of `ip_aton` and `eth_aton` of arpator.c: `net_send_arp_string` holds several
-- pointers into them at a time.
use freeswitch_mod_cpg.Base.{
  ℕ, zero, suc, ◌+◌, ◌%◌, ◌<◌, ℤ, is_zero, ◌≡◌, ◌≢◌, ◌∙◌, ap, refl, false, Option, none, some, List,
  [], ◌∷◌, Bytes, length, get_elem?, set, length-set, arith,
}
use freeswitch_mod_cpg.World.{
  Env, World, Rings, Log, inet_addr, ether_aton, entry, close_socket, ioctl_ifindex, socket_inet,
}
use freeswitch_mod_cpg.World.Returns.{Returns, returns, bind, of_Ensures}
use freeswitch_mod_cpg.Arp.{Packet, ifx_aton, net_send_arp, net_send_arp_string, broadcast_text}

module _ {ℓ} {A : Type ℓ} where
  pub get_elem?-set_self :
      (xs : List A) (i : ℕ) (v : A) → i < length xs → get_elem? (set xs i v) i ≡ some v
  get_elem?-set_self [] i v h = absurd (omega arith)
  get_elem?-set_self (x ∷ xs) zero v h = refl
  get_elem?-set_self (x ∷ xs) (suc i) v h = get_elem?-set_self xs i v (omega arith)

  pub get_elem?-set_ne :
      (xs : List A) (i j : ℕ) (v : A) → i ≢ j → get_elem? (set xs i v) j ≡ get_elem? xs j
  get_elem?-set_ne [] i j v h = refl
  get_elem?-set_ne (x ∷ xs) zero zero v h = absurd (h refl)
  get_elem?-set_ne (x ∷ xs) zero (suc j) v h = refl
  get_elem?-set_ne (x ∷ xs) (suc i) zero v h = refl
  get_elem?-set_ne (x ∷ xs) (suc i) (suc j) v h = get_elem?-set_ne xs i j v (λ e. h (ap suc e))

-- The rings have their eight entries, and the next index is one of them.
pub record HasRings (r : Rings) : Type 0 where
  pub ips : length r.ip_result ≡ 8
  pub ip_next : r.ip_index < 8
  pub eths : length r.eth_result ≡ 8
  pub eth_next : r.eth_index < 8

-- `ether_aton` reads this text, always as these bytes.
pub record ResolvesMac (env : Env) (mac bytes : Bytes) : Type 0 where
  pub not_null : (log : Log) → is_zero (env.answer log (ether_aton mac)) ≡ false
  pub value : (log : Log) → env.text log (ether_aton mac) ≡ bytes

-- `inet_addr` reads this text, always as these bytes.
abbrev pub ResolvesIp : Env → Bytes → Bytes → Type 0
ResolvesIp env ip bytes = (log : Log) → env.text log (inet_addr ip) ≡ bytes

abbrev pub next : ℕ → ℕ
next i = (i + 1) % 8

-- Five conversions in a row: the pointers to the last four still show their own values.
module _ (r : List Bytes) (i : ℕ) (a b c d e : Bytes) (eight : length r ≡ 8) (h : i < 8) where
  abbrev i1 : ℕ
  i1 = next i

  abbrev i2 : ℕ
  i2 = next i1

  abbrev i3 : ℕ
  i3 = next i2

  abbrev i4 : ℕ
  i4 = next i3

  abbrev r1 : List Bytes
  r1 = set r i a

  abbrev r2 : List Bytes
  r2 = set r1 i1 b

  abbrev r3 : List Bytes
  r3 = set r2 i2 c

  abbrev r4 : List Bytes
  r4 = set r3 i3 d

  abbrev r5 : List Bytes
  r5 = set r4 i4 e

  length-r1 : length r1 ≡ 8
  length-r1 = length-set r i a ∙ eight

  length-r2 : length r2 ≡ 8
  length-r2 = length-set r1 i1 b ∙ length-r1

  length-r3 : length r3 ≡ 8
  length-r3 = length-set r2 i2 c ∙ length-r2

  length-r4 : length r4 ≡ 8
  length-r4 = length-set r3 i3 d ∙ length-r3

  length-r5 : length r5 ≡ 8
  length-r5 = length-set r4 i4 e ∙ length-r4

  read_0 : get_elem? r1 i ≡ some a
  read_0 = get_elem?-set_self r i a (omega (arith, eight))

  read_1 : get_elem? r5 i1 ≡ some b
  read_1 =
      get_elem?-set_ne r4 i4 i1 e (omega arith)
      ∙ get_elem?-set_ne r3 i3 i1 d (omega arith)
      ∙ get_elem?-set_ne r2 i2 i1 c (omega arith)
      ∙ get_elem?-set_self r1 i1 b (omega (arith, length-r1))

  read_2 : get_elem? r5 i2 ≡ some c
  read_2 =
      get_elem?-set_ne r4 i4 i2 e (omega arith)
      ∙ get_elem?-set_ne r3 i3 i2 d (omega arith)
      ∙ get_elem?-set_self r2 i2 c (omega (arith, length-r2))

  read_3 : get_elem? r5 i3 ≡ some d
  read_3 =
      get_elem?-set_ne r4 i4 i3 e (omega arith)
      ∙ get_elem?-set_self r3 i3 d (omega (arith, length-r3))

  read_4 : get_elem? r5 i4 ≡ some e
  read_4 = get_elem?-set_self r4 i4 e (omega (arith, length-r4))

-- Two conversions in a row.
module _ (r : List Bytes) (i : ℕ) (a b : Bytes) (eight : length r ≡ 8) (h : i < 8) where
  read_old : get_elem? (set (set r i a) (next i) b) i ≡ some a
  read_old =
      get_elem?-set_ne (set r i a) (next i) i b (omega arith)
      ∙ get_elem?-set_self r i a (omega (arith, eight))

  read_new : get_elem? (set (set r i a) (next i) b) (next i) ≡ some b
  read_new = get_elem?-set_self (set r i a) (next i) b (omega (arith, length-set r i a, eight))

abbrev pub ones : Bytes
ones = 255 ∷ 255 ∷ 255 ∷ 255 ∷ 255 ∷ 255 ∷ []

-- The rings after the conversions of `net_send_arp_string`.
abbrev after : Rings → Packet → Rings
after r p = record {
  ip_result = set (set r.ip_result r.ip_index p.ip_sender) (next r.ip_index) p.ip_target;
  ip_index = next (next r.ip_index);
  eth_result =
      set
        (set
          (set (set (set r.eth_result r.eth_index ones) (next r.eth_index) p.mac_source)
            (next (next r.eth_index)) p.mac_destination)
          (next (next (next r.eth_index))) p.mac_sender)
        (next (next (next (next r.eth_index)))) p.mac_target;
  eth_index = next (next (next (next (next r.eth_index))));
  mac_broadcast = ones;
}

HasRings-after : (r : Rings) (p : Packet) → HasRings r → HasRings (after r p)
HasRings-after r p h = record {
  ips = length-set _ (next r.ip_index) p.ip_target ∙ length-set _ r.ip_index _ ∙ h.ips;
  ip_next = omega arith;
  eths = length-r5 r.eth_result r.eth_index ones _ _ _ _ h.eths h.eth_next;
  eth_next = omega arith;
}

-- What is read off the log does not depend on the conversions of addresses.
pub record IgnoresLookups (X : Type 0) (f : Log → X) : Type 0 where
  pub macs : (s : Bytes) (a : ℤ) (l : Log) → f (entry (ether_aton s) a ∷ l) ≡ f l
  pub ips : (s : Bytes) (a : ℤ) (l : Log) → f (entry (inet_addr s) a ∷ l) ≡ f l
  pub inet : (a : ℤ) (l : Log) → f (entry socket_inet a ∷ l) ≡ f l
  pub index : (s : Bytes) (a : ℤ) (l : Log) → f (entry (ioctl_ifindex s) a ∷ l) ≡ f l
  pub closing : (a : ℤ) (l : Log) → f (entry close_socket a ∷ l) ≡ f l

module _ (env : Env) (X : Type 0) (f : Log → X) (view : IgnoresLookups X f) where
  abbrev Keeps : World → ℤ → World → Type 0
  Keeps w id w' = (w'.vip ≡ w.vip) × (w'.rings ≡ w.rings) × (f w'.log ≡ f w.log)

  -- Looking the interface up touches neither the virtual ip nor the rings, and never faults.
  ifx_aton-Keeps : (dev : Option Bytes) (w : World) → Returns (Keeps w) (ifx_aton env dev w)
  unfolding ifx_aton
  ifx_aton-Keeps none w = returns (refl, refl, refl)
  ifx_aton-Keeps (some itrf) w =
      of_Ensures (Keeps w) _ (grind (arith, view.inet, view.index, view.closing))

  -- Whichever entries of the rings come next, `net_send_arp` is called with the values of the
  -- given texts, and with the broadcast address in `mac_broadcast`; the conversions leave the
  -- virtual ip alone and keep the shape of the rings.
  pub net_send_arp_string-rule :
      (w : World) (source destination sender ip_sender target ip_target : Bytes)
      (dev : Option Bytes) (p : Packet) (Q : ℤ → World → Type 0)
      → HasRings w.rings
      → ResolvesMac env broadcast_text ones
      → ResolvesMac env source p.mac_source
      → ResolvesMac env destination p.mac_destination
      → ResolvesMac env sender p.mac_sender
      → ResolvesIp env ip_sender p.ip_sender
      → ResolvesMac env target p.mac_target
      → ResolvesIp env ip_target p.ip_target
      → ((id : ℤ) (w' : World)
          → w'.vip ≡ w.vip
          → HasRings w'.rings
          → f w'.log ≡ f w.log
          → Returns Q (net_send_arp env p id w'))
      → Returns Q (
          net_send_arp_string env source destination p.operation sender ip_sender target ip_target
            dev w)
  unfolding net_send_arp_string
  net_send_arp_string-rule w source destination sender ip_sender target ip_target dev p Q rings rb
        rs rd rn ri rt rj k =
      rw
        (
          rb.not_null,
          rb.value,
          read_0 w.rings.eth_result w.rings.eth_index ones [] [] [] [] rings.eths rings.eth_next,
          rs.not_null,
          rs.value,
          rd.not_null,
          rd.value,
          rn.not_null,
          rn.value,
          ri,
          rt.not_null,
          rt.value,
          rj,
        )
        (bind (ifx_aton-Keeps dev _) λ id w' (v, r, l).
          let i = w.rings.eth_index in
          let j = w.rings.ip_index in
          let read = λ (k : ℕ). ap (λ q. get_elem? q.eth_result k) r in
          let read_ip = λ (k : ℕ). ap (λ q. get_elem? q.ip_result k) r in
          let eths = w.rings.eth_result in
          let ips = w.rings.ip_result in
          rw
            (
              read (next i) ∙ read_1 eths i ones _ _ _ _ rings.eths rings.eth_next,
              read (next (next i)) ∙ read_2 eths i ones _ _ _ _ rings.eths rings.eth_next,
              read (next (next (next i))) ∙ read_3 eths i ones _ _ _ _ rings.eths rings.eth_next,
              read_ip j ∙ read_old ips j p.ip_sender p.ip_target rings.ips rings.ip_next,
              read (next (next (next (next i))))
                  ∙ read_4 eths i ones _ _ _ _ rings.eths rings.eth_next,
              read_ip (next j) ∙ read_new ips j p.ip_sender p.ip_target rings.ips rings.ip_next,
            )
            (k id w' v (rw r (HasRings-after w.rings p rings)) (l ∙ simp (view.macs, view.ips))))
