-- ===== src/Fsm/Down.antt =====
-- `go_down` of fsm.c.
use freeswitch_mod_cpg.Base.{
  ℕ, ◌≡◌, ◌⊎◌, ◌∙◌, refl, inl, inr, false, Option, none, some, List, [], ◌∷◌, Bytes, zstr,
  Bool-cases, arith,
}
use freeswitch_mod_cpg.Types.{SofiaProfile, VirtualIp, Node, idle}
use freeswitch_mod_cpg.World.{
  Env, World, Status, success, Thread, virtual_ip_thread, rollback_thread,
}
use freeswitch_mod_cpg.World.Returns.{Returns, returns, bind, weaken, of_Ensures}
use freeswitch_mod_cpg.Arp.Send.{sent}
use freeswitch_mod_cpg.Node.{remove_all_loop, node_remove_all}
use freeswitch_mod_cpg.Utils.Ip.Bound.{Target, target, bound, utils_remove_vip-bound}
use freeswitch_mod_cpg.Utils.Sofia.{utils_hupall, utils_recover, utils_clean_up_table}
use freeswitch_mod_cpg.Fsm.{hupall_loop, recover_loop, clean_up_loop, join, go_down}

-- Neither the virtual ip, the rings, the binding of the address nor the frames sent change.
abbrev pub Still : {A : Type 0} → Target → World → A → World → Type 0
Still t w a w' =
    (w'.vip ≡ w.vip)
    × (w'.rings ≡ w.rings)
    × (bound t w'.log ≡ bound t w.log)
    × (sent w'.log ≡ sent w.log)

-- The fields of the run are back to nothing, but for the corosync handle and the last master's uuid,
-- which stay, as the configuration does.
abbrev pub down : VirtualIp → VirtualIp
down v = record v {
  state = idle;
  virtual_ip_thread = 0;
  node_id = 0;
  master_id = 0;
  rollback_node_id = 0;
  rollback_thread = 0;
  node_list = [];
  member_list_entries = 0;
}

module _ (env : Env) (t : Target) where
  remove_all_loop-Still :
      (prev : Option ℕ) (l : List Node) (w : World)
      → Returns (Still t w) (remove_all_loop env prev l w)
  unfolding remove_all_loop bound sent
  remove_all_loop-Still prev [] w = returns (refl, refl, refl, refl)
  remove_all_loop-Still none (n ∷ l) w = remove_all_loop-Still (some n.nodeid) l w
  remove_all_loop-Still (some prev) (n ∷ l) w =
      weaken (remove_all_loop-Still (some n.nodeid) l _) (λ a w' k. k)

  node_remove_all-Still :
      (l : List Node) (w : World) → Returns (Still t w) (node_remove_all env l w)
  unfolding node_remove_all
  node_remove_all-Still l w = remove_all_loop-Still none l w

  join-Still : (h : Thread) (p : ℕ) (w : World) → Returns (Still t w) (join env h p w)
  unfolding join bound sent
  join-Still h p w = of_Ensures (Still t w) _ (ground arith)

  pub hupall_loop-Still :
      (l : List SofiaProfile) (w : World) → Returns (Still t w) (hupall_loop env l w)
  unfolding hupall_loop utils_hupall bound sent
  hupall_loop-Still [] w = returns (refl, refl, refl, refl)
  hupall_loop-Still (p ∷ l) w = elim (Bool-cases (zstr p.name)) [
    | inl last ↦ rw last (returns (refl, refl, refl, refl))
    | inr more ↦ rw more (weaken (hupall_loop-Still l _) (λ a w' k. k))
  ]

  pub recover_loop-Still :
      (l : List SofiaProfile) (w : World) → Returns (Still t w) (recover_loop env l w)
  unfolding recover_loop utils_recover bound sent
  recover_loop-Still [] w = returns (refl, refl, refl, refl)
  recover_loop-Still (p ∷ l) w = elim (Bool-cases (zstr p.name)) [
    | inl last ↦ rw last (returns (refl, refl, refl, refl))
    | inr more ↦ elim (Bool-cases p.autorecover) [
      | inl wanted ↦ rw (more, wanted) (weaken (recover_loop-Still l _) (λ a w' k. k))
      | inr not_wanted ↦ rw (more, not_wanted) (recover_loop-Still l w)
    ]
  ]

  utils_clean_up_table-Still :
      (uuid name : Bytes) (w : World) → Returns (Still t w) (utils_clean_up_table env uuid name w)
  unfolding utils_clean_up_table bound sent
  utils_clean_up_table-Still uuid name w = of_Ensures (Still t w) _ (ground arith)

  pub clean_up_loop-Still :
      (uuid : Bytes) (l : List SofiaProfile) (w : World)
      → Returns (Still t w) (clean_up_loop env uuid l w)
  unfolding clean_up_loop
  clean_up_loop-Still uuid [] w = returns (refl, refl, refl, refl)
  clean_up_loop-Still uuid (p ∷ l) w = elim (Bool-cases (zstr p.name)) [
    | inl last ↦ rw last (returns (refl, refl, refl, refl))
    | inr more ↦ rw more (
        bind (utils_clean_up_table-Still uuid p.name w) λ a w' k.
          weaken (clean_up_loop-Still uuid l w')
            (λ b w'' m. (m.0 ∙ k.0, m.1 ∙ k.1, m.2 ∙ k.2, m.3 ∙ k.3)))
  ]

-- What `go_down` makes of a world.
abbrev pub WentDown : World → Status → World → Type 0
WentDown w s w' =
    let t = target w.vip.config in
    (s ≡ success)
    × (w'.vip ≡ down w.vip)
    × (w'.rings ≡ w.rings)
    × ((bound t w'.log ≡ false) ⊎ (bound t w'.log ≡ bound t w.log))

-- `go_down` returns with success, whatever the calls answer: the virtual ip is IDLE with an empty
-- node list, every number of the run in it is 0 but for the corosync handle, and that one, the
-- runtime_uuid and the configuration stay, as do the rings of arpator.c. The address is unbound
-- afterwards, or bound as it was before if it could not be removed.
pub go_down-down : (env : Env) (w : World) → Returns (WentDown w) (go_down env w)
unfolding go_down
go_down-down env w =
    let v = w.vip in
    let t = target v.config in
    bind (node_remove_all-Still env t v.node_list _) λ a w1 k1.
      bind (join-Still env t rollback_thread v.rollback_thread _) λ b w2 k2.
        bind (join-Still env t virtual_ip_thread v.virtual_ip_thread _) λ c w3 k3.
          bind (utils_remove_vip-bound env v.config.address v.config.device _) λ d w4 k4.
            bind (hupall_loop-Still env t v.config.profiles _) λ f w5 k5.
              returns (refl, ground arith, k5.1 ∙ k4.1 ∙ k3.1 ∙ k2.1 ∙ k1.1, ground arith)
