-- ===== src/Agreement/Successor.antt =====
-- All nodes of a group that stand by when the master is lost.
use freeswitch_mod_cpg.Base.{
  ℕ, suc, ◌+◌, ◌≡◌, ◌⊎◌, ◌∙◌, ◌&&◌, refl, inl, inr, true, false, Bool, Option, none, some, List, [],
  ◌∷◌, All, Bytes, length, arith, ◌==◌, if◌then◌else◌,
}
use freeswitch_mod_cpg.Types.{State, backup}
use freeswitch_mod_cpg.World.{Env, World, Outcome, done}
use freeswitch_mod_cpg.World.Returns.{Returns, invert, weaken, both}
use freeswitch_mod_cpg.Arp.Frame.{arp_frame}
use freeswitch_mod_cpg.Node.{node_first, node_unlink}
use freeswitch_mod_cpg.Utils.Ip.Bound.{target, bound}
use freeswitch_mod_cpg.Utils.Garp.{gratuitous}
use freeswitch_mod_cpg.Types.{Node}
use freeswitch_mod_cpg.Fsm.Transitions.{serves}
use freeswitch_mod_cpg.GroupThread.{is_idle}
use freeswitch_mod_cpg.Callbacks.Safety.{Callback, confchg, call_back, Keeps, call_back-Keeps}
use freeswitch_mod_cpg.Callbacks.Failover.{FailsOver, confchg_callback-FailsOver}
use freeswitch_mod_cpg.Agreement.{Member}

abbrev first_world : {A : Type 0} → Outcome A → Option (List World) → Option (List World)
first_world (done a w) (some ws) = some (w ∷ ws)
first_world _ _ = none

-- The same callback at each node, if it returns at all of them.
unfoldable pub at_each : Callback → List (Env × World) → Option (List World)
at_each cb [] = some []
at_each cb (n ∷ group) = first_world (call_back n.0 cb n.1) (at_each cb group)

abbrev pub count : {A : Type 0} → (A → Bool) → List A → ℕ
count test [] = 0
count test (a ∷ l) = (if test a then 1 else 0) + count test l

abbrev pub is_backup : State → Bool
is_backup backup = true
is_backup _ = false

-- A node that serves the address, with the address on its interface.
abbrev pub owns : World → Bool
owns w = serves w.vip.state && bound (target w.vip.config) w.log

abbrev pub is_down : World → Bool
is_down w = is_idle w.vip.state

abbrev pub stands_by : World → Bool
stands_by w = is_backup w.vip.state

-- A node in the state BACKUP with the list `l`, which has recorded `nodeid` as the master.
pub record StandsBy (l : List Node) (nodeid : ℕ) (n : Env × World) : Type 0 where
  pub member : Member n.0 n.1
  pub state : n.1.vip.state ≡ backup
  pub master : n.1.vip.master_id ≡ nodeid
  pub list : n.1.vip.node_list ≡ l

abbrev pub is_first : ℕ → Env × World → Bool
is_first first n = n.1.vip.node_id == first

-- The first node is the one that owns the address or is down; any other stands by.
abbrev Turns : ℕ → Env × World → World → Type 0
Turns first n w =
    ((is_first first n ≡ true)
      × (stands_by w ≡ false)
      × (((owns w ≡ true) × (is_down w ≡ false)) ⊎ ((owns w ≡ false) × (is_down w ≡ true))))
    ⊎ ((is_first first n ≡ false) × (stands_by w ≡ true) × (owns w ≡ false) × (is_down w ≡ false))

FailsOver-Turns :
    (frame : Bytes) (l : List Node) (env : Env) (w w' : World)
    → Keeps w (tt {0}) w'
    → FailsOver frame l w w'
    → Turns (node_first l) (env, w) w'
FailsOver-Turns frame l env w w' k t = ground arith

module _ (nodeid members : ℕ) where
  abbrev pub lost : Callback
  lost = confchg members (nodeid ∷ []) false

  call_back-Turns :
      (l : List Node) (n : Env × World)
      → StandsBy l nodeid n
      → Returns (λ u w'. Turns (node_first (node_unlink l nodeid)) n w') (call_back n.0 lost n.1)
  unfolding call_back
  call_back-Turns l (env, w) s =
      let m = s.member in
      weaken
        (both _ _ _
          (call_back-Keeps env m.ether m.ip m.responsive lost w tt m.context m.addresses m.sound)
          (confchg_callback-FailsOver env m.ether m.ip m.responsive members nodeid w m.context
            m.addresses m.sound s.state s.master))
        (λ u w' (k, t).
          FailsOver-Turns (arp_frame (gratuitous m.ether m.ip)) (node_unlink l nodeid) env w w' k
            (rw s.list at t))

  -- As many nodes own the address or are down as have the first id, and all others stand by.
  abbrev Counts : (l : List Node) → List (Env × World) → List World → Type 0
  Counts l group ws =
      let firsts = count (is_first (node_first (node_unlink l nodeid))) group in
      (count owns ws + count is_down ws ≡ firsts) × (count stands_by ws + firsts ≡ length group)

  Counts-more :
      (l : List Node) (n : Env × World) (group : List (Env × World)) (w : World) (ws : List World)
      → Turns (node_first (node_unlink l nodeid)) n w
      → Counts l group ws
      → Counts l (n ∷ group) (w ∷ ws)
  Counts-more l n group w ws (inl (first, off, inl (own, up))) (a, b) =
      rw (first, off, own, up) (omega arith, omega arith)
  Counts-more l n group w ws (inl (first, off, inr (own, up))) (a, b) =
      rw (first, off, own, up) (omega arith, omega arith)
  Counts-more l n group w ws (inr (first, off, own, up)) (a, b) =
      rw (first, off, own, up) (omega arith, omega arith)

  at_each-Counts :
      (l : List Node) (group : List (Env × World))
      → All (StandsBy l nodeid) group
      → (ws : List World) × (at_each lost group ≡ some ws) × Counts l group ws
  unfolding at_each
  at_each-Counts l [] s = ([], refl, (refl, refl))
  at_each-Counts l (n ∷ group) (s, rest) =
      let (ws, e, c) = at_each-Counts l group rest in
      let (u, w', run, t) = invert (call_back-Turns l n s) in
      (w' ∷ ws, rw (run, e) refl, Counts-more l n group w' ws t c)

  -- All nodes of a group are in the state BACKUP, with one list and one recorded master, and exactly
  -- one has the id that is first in the list without that master. Each satisfies the invariant, libc
  -- reads its configured addresses, corosync settles its messages and finds its context, and it has
  -- memory for new nodes. Corosync tells all that the master is gone: all return, exactly one of them
  -- serves the address then, with the address on its interface, or is IDLE, and all others are still
  -- BACKUP.
  pub one_successor :
      (l : List Node) (group : List (Env × World))
      → All (StandsBy l nodeid) group
      → count (is_first (node_first (node_unlink l nodeid))) group ≡ 1
      → (ws : List World) × (at_each lost group ≡ some ws)
        × (count owns ws + count is_down ws ≡ 1)
        × (suc (count stands_by ws) ≡ length group)
  one_successor l group s one =
      let (ws, e, (a, b)) = at_each-Counts l group s in (ws, e, a ∙ one, omega (arith, one))
