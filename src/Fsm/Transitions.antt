-- ===== src/Fsm/Transitions.antt =====
-- `fsm_do_transaction` of fsm.c: which state may follow which, and what holds between two events.
use freeswitch_mod_cpg.Base.{
  ◌≡◌, ◌≢◌, ◌⊎◌, refl, inl, inr, Bool, true, false, not, ◌||◌, List, [], ◌∷◌, Bytes, Bool-cases,
  arith,
}
use freeswitch_mod_cpg.Types.{
  Event, startup, duplicate, master_down, master_up, backup_down, backup_up, rback_req, stop, State,
  idle, start, backup, master, rback, max_states,
}
use freeswitch_mod_cpg.World.{Env, World, Status, success, status_false}
use freeswitch_mod_cpg.World.Returns.{Returns, returns, bind, weaken, of_Ensures}
use freeswitch_mod_cpg.Arp.Ring.{HasRings}
use freeswitch_mod_cpg.Utils.Ip.Bound.{target, bound}
use freeswitch_mod_cpg.Utils.Garp.{Addresses}
use freeswitch_mod_cpg.VirtualIp.Delivery.{
  Responsive, virtual_ip_send_state-Quiet, virtual_ip_send_all_sql-Quiet,
}
use freeswitch_mod_cpg.Fsm.{
  noop, error, dup_warn, nodeup, backupup, rollback, go_down, act, react, observe, go_up,
  rback_stop, table, is_event, is_state, fsm_do_transaction,
}
use freeswitch_mod_cpg.Fsm.Down.{Still, WentDown, go_down-down}
use freeswitch_mod_cpg.Fsm.Takeover.{
  network, network-IgnoresSending, TakesOver, act-TakesOver, react-TakesOver,
}

-- The states that may follow a state on an event.
unfoldable pub successors : State → Event → List State
successors idle startup = start ∷ []
successors start duplicate = idle ∷ []
successors start master_down = master ∷ idle ∷ []
successors start master_up = backup ∷ []
successors start stop = idle ∷ []
successors backup master_down = master ∷ idle ∷ backup ∷ []
successors backup stop = idle ∷ []
successors master rback_req = rback ∷ master ∷ []
successors master stop = idle ∷ []
successors rback backup_down = master ∷ rback ∷ []
successors rback rback_req = master ∷ rback ∷ []
successors rback stop = idle ∷ []
successors s _ = s ∷ []

abbrev pub In : State → List State → Type 0
In s [] = ⊥
In s (t ∷ ts) = (s ≡ t) ⊎ In s ts

-- The states in which a node serves the virtual address.
abbrev pub serves : State → Bool
serves master = true
serves rback = true
serves _ = false

-- A node that serves the address has it on its interface, and the rings of arpator.c have their
-- eight entries.
pub record IsSafe (w : World) : Type 0 where
  pub rings : HasRings w.rings
  pub owner : serves w.vip.state ≡ true → bound (target w.vip.config) w.log ≡ true

-- A transaction keeps the configuration and that invariant, ends in one of the given states, and
-- leaves the node list and the node's id as they are or ends with no nodes in the state IDLE.
pub record Transits (w : World) (targets : List State) (s : Status) (w' : World) : Type 0 where
  pub config : w'.vip.config ≡ w.vip.config
  pub safe : IsSafe w'
  pub target : In w'.vip.state targets
  pub nodes :
      ((w'.vip.node_list ≡ w.vip.node_list) × (w'.vip.node_id ≡ w.vip.node_id))
      ⊎ ((w'.vip.node_list ≡ []) × (w'.vip.state ≡ idle))

module _ (w : World) (safe : IsSafe w) (targets : List State) where
  of_Still :
      (s : Status) (w' : World)
      → In w.vip.state targets
      → Still (target w.vip.config) w s w'
      → Transits w targets s w'
  of_Still s w' i k = ground (arith)

  of_WentDown :
      (s : Status) (w' : World) → In idle targets → WentDown w s w' → Transits w targets s w'
  of_WentDown s w' i k = ground (arith)

  of_TakesOver :
      (frame : Bytes) (s : Status) (w' : World)
      → In master targets
      → In idle targets
      → TakesOver frame w s w'
      → Transits w targets s w'
  of_TakesOver frame s w' i j k = ground arith

out_of_range :
    (s : State) (e : Event) → (not (is_event e) || not (is_state s)) ≡ true → In s (successors s e)
unfolding successors
out_of_range s e h = ground arith

module _ (env : Env) (w : World) (ether ip : Bytes) (responsive : Responsive env)
    (a : Addresses env w.vip.config.mac w.vip.config.address ether ip) (safe : IsSafe w) where
  abbrev Goal : State → Event → Type 0
  Goal s e = Returns (Transits w (successors s e)) (table env e s w)

  stays : (targets : List State) (s : Status) → In w.vip.state targets → Transits w targets s w
  stays targets s i = of_Still w safe targets s w i (refl, refl, refl, refl)

  sends_state :
      (targets : List State) → In w.vip.state targets → Returns (Transits w targets) (nodeup env w)
  unfolding nodeup
  sends_state targets i =
      weaken
        (virtual_ip_send_state-Quiet env _ (network (target w.vip.config))
          (network-IgnoresSending env (target w.vip.config)) responsive w)
        (λ s w' k. ground arith)

  sends_all :
      (targets : List State)
      → In w.vip.state targets
      → Returns (Transits w targets) (backupup env w)
  unfolding backupup
  sends_all targets i =
      let f = network (target w.vip.config) in
      let view = network-IgnoresSending env (target w.vip.config) in
      bind (virtual_ip_send_state-Quiet env _ f view responsive w) λ s w1 k1.
        bind (virtual_ip_send_all_sql-Quiet env _ f view w1) λ t w2 k2. returns (ground arith)

  goes_down :
      (targets : List State) → In idle targets → Returns (Transits w targets) (go_down env w)
  goes_down targets i = weaken (go_down-down env w) (λ s w' k. of_WentDown w safe targets s w' i k)

  acts :
      (targets : List State)
      → In master targets
      → In idle targets
      → Returns (Transits w targets) (act env w)
  acts targets i j =
      weaken (act-TakesOver env w ether ip responsive a safe.rings)
        (λ s w' k. of_TakesOver w safe targets _ s w' i j k)

  reacts :
      (targets : List State)
      → In master targets
      → In idle targets
      → In w.vip.state targets
      → Returns (Transits w targets) (react env w)
  reacts targets i j k = weaken (react-TakesOver env w ether ip responsive a safe.rings) (λ s w' t.
      elim t [
        | inl taken ↦ of_TakesOver w safe targets _ s w' i j taken.1
        | inr later ↦ of_Still w safe targets s w' k later.2
      ])

  goes_up : (targets : List State) → In start targets → Returns (Transits w targets) (go_up env w)
  unfolding go_up bound
  goes_up targets i = of_Ensures (Transits w targets) _ (ground arith)

  observes :
      (targets : List State) → In backup targets → Returns (Transits w targets) (observe env w)
  unfolding observe
  observes targets i = of_Ensures (Transits w targets) _ (ground arith)

  stops_rollback :
      (targets : List State)
      → w.vip.state ≡ rback
      → In master targets
      → In rback targets
      → Returns (Transits w targets) (rback_stop env w)
  unfolding rback_stop
  stops_rollback targets h i j = of_Ensures (Transits w targets) _ (ground arith)

  rolls_back :
      (targets : List State)
      → w.vip.state ≡ master
      → w.vip.node_list ≢ []
      → In master targets
      → In rback targets
      → Returns (Transits w targets) (rollback env w)
  unfolding rollback bound
  rolls_back targets h n i j = of_Ensures (Transits w targets) _ (ground arith)

  -- One clause for each cell of the table with an action, and one for the rest of each column.
  transits :
      (s : State) (e : Event) → w.vip.state ≡ s → (e ≡ rback_req → w.vip.node_list ≢ []) → Goal s e
  unfolding table error noop dup_warn successors
  transits idle startup h n = goes_up (start ∷ []) (inl refl)
  transits idle _ h n = returns (stays (idle ∷ []) status_false (inl h))
  transits start duplicate h n = goes_down (idle ∷ []) (inl refl)
  transits start master_down h n = acts (master ∷ idle ∷ []) (inl refl) (inr (inl refl))
  transits start master_up h n = observes (backup ∷ []) (inl refl)
  transits start backup_down h n = returns (stays (start ∷ []) success (inl h))
  transits start backup_up h n = sends_state (start ∷ []) (inl h)
  transits start stop h n = goes_down (idle ∷ []) (inl refl)
  transits start _ h n = returns (stays (start ∷ []) status_false (inl h))
  transits backup duplicate h n = returns (stays (backup ∷ []) success (inl h))
  transits backup master_down h n =
      reacts (master ∷ idle ∷ backup ∷ []) (inl refl) (inr (inl refl)) (inr (inr (inl h)))
  transits backup backup_down h n = returns (stays (backup ∷ []) success (inl h))
  transits backup backup_up h n = sends_state (backup ∷ []) (inl h)
  transits backup stop h n = goes_down (idle ∷ []) (inl refl)
  transits backup _ h n = returns (stays (backup ∷ []) status_false (inl h))
  transits master duplicate h n = returns (stays (master ∷ []) success (inl h))
  transits master backup_down h n = returns (stays (master ∷ []) success (inl h))
  transits master backup_up h n = sends_all (master ∷ []) (inl h)
  transits master rback_req h n =
      rolls_back (rback ∷ master ∷ []) h (n refl) (inr (inl refl)) (inl refl)
  transits master stop h n = goes_down (idle ∷ []) (inl refl)
  transits master _ h n = returns (stays (master ∷ []) status_false (inl h))
  transits rback duplicate h n = returns (stays (rback ∷ []) success (inl h))
  transits rback backup_down h n =
      stops_rollback (master ∷ rback ∷ []) h (inl refl) (inr (inl refl))
  transits rback backup_up h n = sends_all (rback ∷ []) (inl h)
  transits rback rback_req h n = stops_rollback (master ∷ rback ∷ []) h (inl refl) (inr (inl refl))
  transits rback stop h n = goes_down (idle ∷ []) (inl refl)
  transits rback _ h n = returns (stays (rback ∷ []) status_false (inl h))
  transits max_states startup h n = returns (stays (max_states ∷ []) status_false (inl h))
  transits max_states _ h n = returns (stays (max_states ∷ []) status_false (inl h))

  -- Every transaction of a virtual ip that satisfies the invariant returns, where libc reads the
  -- configured addresses and corosync settles every message, and where a rollback request comes
  -- with a node list that is not empty. The state that follows is one of the successors of the
  -- state before, the configuration stays, the node list and the node's id stay or the list is
  -- emptied in the state IDLE, and the invariant holds again: a node that serves the address has it
  -- on its interface.
  pub fsm_do_transaction-Transits :
      (e : Event)
      → (e ≡ rback_req → w.vip.node_list ≢ [])
      → Returns (Transits w (successors w.vip.state e)) (fsm_do_transaction env e w)
  unfolding fsm_do_transaction
  fsm_do_transaction-Transits e n =
      elim (Bool-cases (not (is_event e) || not (is_state w.vip.state))) [
        | inl out ↦ rw out (returns (stays _ status_false (out_of_range w.vip.state e out)))
        | inr inside ↦ rw inside (transits w.vip.state e refl n)
      ]
