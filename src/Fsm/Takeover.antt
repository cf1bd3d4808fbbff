-- ===== src/Fsm/Takeover.antt =====
-- `act` and `react` of fsm.c: a node becomes the master.
use freeswitch_mod_cpg.Base.{
  ◌≡◌, ◌≢◌, ◌⊎◌, refl, ap, inl, inr, Bool, true, List, ◌∷◌, Bytes, Bool-cases, arith, ◌==◌,
}
use freeswitch_mod_cpg.Types.{VirtualIp, master}
use freeswitch_mod_cpg.World.{Env, World, Log, Status, success, status_false, is_success}
use freeswitch_mod_cpg.World.Returns.{Returns, returns, bind, weaken, both, of_Ensures}
use freeswitch_mod_cpg.Arp.Frame.{arp_frame}
use freeswitch_mod_cpg.Arp.Ring.{HasRings}
use freeswitch_mod_cpg.Arp.Send.{sent, IgnoresArp}
use freeswitch_mod_cpg.Node.{node_first}
use freeswitch_mod_cpg.Utils.Ip.{utils_add_vip, ip_addr}
use freeswitch_mod_cpg.Utils.Ip.Bound.{
  Target, target, bound, utils_add_vip-bound, utils_remove_vip-bound,
}
use freeswitch_mod_cpg.Utils.Garp.{
  Addresses, gratuitous, utils_send_g_arp-gratuitous, utils_send_g_arp-Keeps,
}
use freeswitch_mod_cpg.VirtualIp.Delivery.{Responsive, IgnoresSending, virtual_ip_send_state-Quiet}
use freeswitch_mod_cpg.Fsm.{take_address, give_up, act, react}
use freeswitch_mod_cpg.Fsm.Down.{Still, down, go_down-down, recover_loop-Still, clean_up_loop-Still}

bound-IgnoresArp : (t : Target) → IgnoresArp Bool (bound t)
unfolding bound
bound-IgnoresArp t = record {
  lookups = record {
    macs = λ s a l. refl;
    ips = λ s a l. refl;
    inet = λ a l. refl;
    index = λ s a l. refl;
    closing = λ a l. refl;
  };
  packet = λ a l. refl;
  broadcast = λ a l. refl;
  sending = λ b i d a l. refl;
}

-- The binding of an address, and the frames sent: what the state machine leaves on the network.
abbrev pub network : Target → Log → Bool × List Bytes
network t l = (bound t l, sent l)

pub network-IgnoresSending :
    (env : Env) (t : Target) → IgnoresSending env (Bool × List Bytes) (network t)
unfolding bound sent
network-IgnoresSending env t = record {
  mcast = λ h b a l. refl;
  pause = λ n a l. refl;
  alloc = λ n a l. refl;
  release = λ a l. refl;
  uuid = λ a l. refl;
  event = λ a l. refl;
  fire = λ h a l. refl;
}

utils_add_vip-sent :
    (env : Env) (ip dev : Bytes) (w : World)
    → Returns (λ s w'. sent w'.log ≡ sent w.log) (utils_add_vip env ip dev w)
unfolding utils_add_vip ip_addr sent
utils_add_vip-sent env ip dev w = of_Ensures (λ s w'. sent w'.log ≡ sent w.log) _ (ground arith)

-- The address is on the interface, and one frame more has been sent.
abbrev pub HasAddress : Target → Bytes → World → World → Type 0
HasAddress t frame w w' = (bound t w'.log ≡ true) × (sent w'.log ≡ frame ∷ sent w.log)

module _ (env : Env) (v : VirtualIp) (ether ip : Bytes)
    (a : Addresses env v.config.mac v.config.address ether ip) where
  abbrev pub announcement : Bytes
  announcement = arp_frame (gratuitous ether ip)

  -- Where `take_address` reports success, it has bound the address and announced it.
  pub take_address-HasAddress :
      (w : World)
      → HasRings w.rings
      → Returns
          (λ taken w'.
            (w'.vip ≡ w.vip)
            × HasRings w'.rings
            × (taken ≡ true → HasAddress (target v.config) announcement w w'))
          (take_address env v w)
  unfolding take_address
  take_address-HasAddress w rings =
      bind
        (both _ _ _ (utils_add_vip-bound env v.config.address v.config.device w)
          (utils_add_vip-sent env v.config.address v.config.device w))
        λ added w1 k1. elim (Bool-cases (is_success added)) [
          | inl done ↦ rw done (
              bind
                (both _ _ _
                  (utils_send_g_arp-gratuitous env v.config.mac v.config.address v.config.device
                    ether ip w1 a (ground arith))
                  (utils_send_g_arp-Keeps env Bool (bound (target v.config))
                    (bound-IgnoresArp (target v.config)) v.config.mac v.config.address
                    v.config.device ether ip w1 a (ground arith)))
                λ announced w2 k2. elim (Bool-cases (is_success announced)) [
                  | inl heard ↦ rw heard (returns (ground arith))
                  | inr silent ↦ rw silent (
                      bind (utils_remove_vip-bound env v.config.address v.config.device w2)
                        λ d w3 k3. returns (ground arith))
                ])
          | inr failed ↦ rw failed (returns (ground arith))
        ]

-- The node is the master, has the address on its interface and has announced it; or it has gone
-- down and reports a failure.
abbrev pub TakesOver : Bytes → World → Status → World → Type 0
TakesOver frame w s w' =
    HasRings w'.rings
    × (((s ≡ success)
          × (w.vip.node_id ≡ node_first w.vip.node_list)
          × (w'.vip ≡ record (w.vip) { state = master })
          × HasAddress (target w.vip.config) frame w w')
        ⊎ ((s ≡ status_false) × (w'.vip ≡ down w.vip)))

module _ (env : Env) (w : World) (ether ip : Bytes) (responsive : Responsive env)
    (a : Addresses env w.vip.config.mac w.vip.config.address ether ip)
    (rings : HasRings w.rings) where
  abbrev frame : Bytes
  frame = arp_frame (gratuitous ether ip)

  -- The label `error`, from a world whose virtual ip differs by its state.
  give_up-TakesOver :
      (w1 : World)
      → HasRings w1.rings
      → down w1.vip ≡ down w.vip
      → Returns (TakesOver frame w) (give_up env w1)
  give_up-TakesOver w1 r e = bind (go_down-down env w1) λ s w2 k. returns (ground arith)

  -- `act`, where libc reads the configured addresses, corosync settles every message and the rings
  -- of arpator.c have their eight entries, returns, with such rings.
  -- Either the node is the first of the priority list, it is the master now, its address is bound
  -- and one gratuitous ARP request for it has been sent; or the node has gone down and the result
  -- is SWITCH_STATUS_FALSE.
  pub act-TakesOver : Returns (TakesOver frame w) (act env w)
  unfolding act
  act-TakesOver = elim (Bool-cases (w.vip.node_id == node_first w.vip.node_list)) [
    | inl first ↦ rw first (
        bind (take_address-HasAddress env w.vip ether ip a _ rings) λ taken w1 k.
          elim (Bool-cases taken) [
            | inl had ↦ rw had (
                bind
                  (virtual_ip_send_state-Quiet env (Bool × List Bytes)
                    (network (target w.vip.config))
                    (network-IgnoresSending env (target w.vip.config)) responsive w1)
                  λ s w2 k2. returns (ground (arith, k.2 had)))
            | inr not_had ↦ rw not_had (give_up-TakesOver w1 k.1 (ap down k.0))
          ])
    | inr later ↦ rw later (give_up-TakesOver w rings refl)
  ]

  -- `react`, under the same conditions, returns. If the node is the first of the priority list it
  -- ends as by `act`. If not, it succeeds and leaves the virtual ip, the rings, the binding of its
  -- address and the frames sent as they are.
  pub react-TakesOver :
      Returns
        (λ s w'.
          ((w.vip.node_id ≡ node_first w.vip.node_list) × TakesOver frame w s w')
          ⊎ ((w.vip.node_id ≢ node_first w.vip.node_list)
              × (s ≡ success)
              × Still (target w.vip.config) w s w'))
        (react env w)
  unfolding react
  react-TakesOver = elim (Bool-cases (w.vip.node_id == node_first w.vip.node_list)) [
    | inl first ↦ rw first (
        bind (take_address-HasAddress env w.vip ether ip a _ rings) λ taken w1 k.
          elim (Bool-cases taken) [
            | inl had ↦ rw had (
                bind (recover_loop-Still env (target w.vip.config) w.vip.config.profiles w1)
                  λ u w2 k2.
                    bind
                      (virtual_ip_send_state-Quiet env (Bool × List Bytes)
                        (network (target w.vip.config))
                        (network-IgnoresSending env (target w.vip.config)) responsive w2)
                      λ s w3 k3. returns (inl (ground arith, ground (arith, k.2 had))))
            | inr not_had ↦
                rw not_had (
                  weaken (give_up-TakesOver w1 k.1 (ap down k.0)) (λ s w2 t. inl (ground arith, t)))
          ])
    | inr later ↦ rw later (
        bind
          (clean_up_loop-Still env (target w.vip.config) w.vip.runtime_uuid w.vip.config.profiles w)
          λ u w1 k. returns (inr (ground arith, refl, k)))
  ]
