-- ===== src/Fsm/Mastery.antt =====
-- How a node comes to serve the virtual address, and how it stops (fsm.c).
use freeswitch_mod_cpg.Utils.Ip.Bound.{target}
use freeswitch_mod_cpg.Base.{◌≡◌, ◌≢◌, ◌⊎◌, refl, true, false, [], Bytes, arith}
use freeswitch_mod_cpg.Types.{Event, master_down, rback_req, State, start, backup, master}
use freeswitch_mod_cpg.World.{Env, World}
use freeswitch_mod_cpg.World.Returns.{Returns, weaken, both}
use freeswitch_mod_cpg.Arp.Frame.{arp_frame}
use freeswitch_mod_cpg.Node.{node_first}
use freeswitch_mod_cpg.Utils.Garp.{Addresses, gratuitous}
use freeswitch_mod_cpg.VirtualIp.Delivery.{Responsive}
use freeswitch_mod_cpg.Fsm.{table, fsm_do_transaction}
use freeswitch_mod_cpg.Fsm.Takeover.{HasAddress, act-TakesOver, react-TakesOver}
use freeswitch_mod_cpg.Fsm.Transitions.{successors, In, serves, IsSafe, fsm_do_transaction-Transits}

-- Only a lost master lets a node that does not serve the address serve it next.
serving_needs :
    (s : State) (e : Event) (t : State)
    → In t (successors s e)
    → serves s ≡ false
    → serves t ≡ true
    → (e ≡ master_down) × ((s ≡ start) ⊎ (s ≡ backup))
unfolding successors
serving_needs s e t i a b = ground arith

-- What a node has done that serves the address from now on.
abbrev pub TookOver : Bytes → World → World → Type 0
TookOver frame w w' =
    (w.vip.node_id ≡ node_first w.vip.node_list)
    × (w'.vip.state ≡ master)
    × HasAddress (target w.vip.config) frame w w'

module _ (env : Env) (w : World) (ether ip : Bytes) (responsive : Responsive env)
    (a : Addresses env w.vip.config.mac w.vip.config.address ether ip) (safe : IsSafe w) where
  abbrev frame : Bytes
  frame = arp_frame (gratuitous ether ip)

  master_down-TookOver :
      (s : State)
      → w.vip.state ≡ s
      → serves w.vip.state ≡ false
      → Returns
          (λ r w'. serves w'.vip.state ≡ true → TookOver frame w w')
          (fsm_do_transaction env master_down w)
  unfolding fsm_do_transaction table
  master_down-TookOver start h out =
      simp h
        (weaken (act-TakesOver env w ether ip responsive a safe.rings) (λ r w' t. ground arith))
  master_down-TookOver backup h out =
      simp h
        (weaken (react-TakesOver env w ether ip responsive a safe.rings) (λ r w' t. ground arith))
  master_down-TookOver s h out =
      weaken (fsm_do_transaction-Transits env w ether ip responsive a safe master_down (λ e. cc))
        (λ r w' t on.
          absurd
            (ground (arith, serving_needs w.vip.state master_down w'.vip.state t.target out on)))

  -- A node that did not serve the address before a transaction and serves it afterwards was in
  -- the state START or BACKUP, has handled MASTER_DOWN, is the first of its priority list, is
  -- MASTER now, has its address on the interface and has sent one gratuitous ARP request more,
  -- which announces that address. (Under the conditions of the invariant.)
  pub fsm_do_transaction-TookOver :
      (e : Event)
      → (e ≡ rback_req → w.vip.node_list ≢ [])
      → serves w.vip.state ≡ false
      → Returns
          (λ r w'.
            serves w'.vip.state ≡ true
            → (e ≡ master_down)
              × ((w.vip.state ≡ start) ⊎ (w.vip.state ≡ backup))
              × TookOver frame w w')
          (fsm_do_transaction env e w)
  fsm_do_transaction-TookOver master_down n out =
      weaken
        (both _ _ _ (master_down-TookOver w.vip.state refl out)
          (fsm_do_transaction-Transits env w ether ip responsive a safe master_down n))
        (λ r w' t on.
          let needs = serving_needs w.vip.state master_down w'.vip.state t.1.target out on in
          (needs.0, needs.1, t.0 on))
  fsm_do_transaction-TookOver e n out =
      weaken (fsm_do_transaction-Transits env w ether ip responsive a safe e n) (λ r w' t on.
        absurd (ground (arith, serving_needs w.vip.state e w'.vip.state t.target out on)))
