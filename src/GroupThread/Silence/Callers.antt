-- ===== src/GroupThread/Silence/Callers.antt =====
-- The actions of the state machine leave the membership of the group thread alone.
use freeswitch_mod_cpg.Base.{
  ℕ, ℤ, true, false, not, List, [], ◌∷◌, Bytes, Option, none, some, zstr, ◌==◌, ◌≡◌, refl, arith,
}
use freeswitch_mod_cpg.Types.{master, VirtualIp, SofiaProfile, Node}
use freeswitch_mod_cpg.World.{
  Env, World, Thread, is_success, success, status_false, free_node, thread_join, rollback_thread,
  virtual_ip_thread,
}
use freeswitch_mod_cpg.World.Partial.{IfReturns, returned, faulted, of_Allows}
use freeswitch_mod_cpg.Node.{node_add, node_remove, remove_all_loop, node_remove_all, node_first}
use freeswitch_mod_cpg.Fsm.{
  backupup, rollback, hupall_loop, recover_loop, clean_up_loop, join, go_down, reset, give_up,
  take_address, act, react, observe, go_up, rback_stop,
}
use freeswitch_mod_cpg.GroupThread.Protocol.{protocol}
use freeswitch_mod_cpg.GroupThread.Silence.{
  Unchanged, Silent, then_lem, if_lem, pure-Silent, tell-Silent, modify-Silent, gets-Silent,
  utils_add_vip-Silent, utils_remove_vip-Silent, utils_hupall-Silent, utils_recover-Silent,
  utils_clean_up_table-Silent, utils_send_g_arp-Silent, virtual_ip_send_state-Silent,
  virtual_ip_send_all_sql-Silent,
}

module _ (env : Env) where
  pub node_add-Silent : (l : List Node) (id : ℕ) (p : ℤ) → Silent env (node_add env l id p)
  unfolding node_add protocol
  node_add-Silent l id p w = of_Allows (Unchanged env w) _ (ground arith)

  pub node_remove-Silent : (l : List Node) (id : ℕ) → Silent env (node_remove env l id)
  unfolding node_remove protocol
  node_remove-Silent l id w = of_Allows (Unchanged env w) _ (ground arith)

  remove_all_loop-Silent :
      (prev : Option ℕ) (l : List Node) → Silent env (remove_all_loop env prev l)
  unfolding remove_all_loop protocol
  remove_all_loop-Silent prev [] = pure-Silent env success
  remove_all_loop-Silent none (n ∷ rest) = remove_all_loop-Silent (some n.nodeid) rest
  remove_all_loop-Silent (some prev) (n ∷ rest) =
      then_lem env (tell-Silent env (free_node prev) (λ a l. refl))
        λ u. remove_all_loop-Silent (some n.nodeid) rest

  node_remove_all-Silent : (l : List Node) → Silent env (node_remove_all env l)
  unfolding node_remove_all
  node_remove_all-Silent l = remove_all_loop-Silent none l

  hupall_loop-Silent : (profiles : List SofiaProfile) → Silent env (hupall_loop env profiles)
  unfolding hupall_loop
  hupall_loop-Silent [] = pure-Silent env tt
  hupall_loop-Silent (p ∷ profiles) =
      if_lem env (zstr p.name) (pure-Silent env tt)
        (then_lem env (utils_hupall-Silent env p.name) λ u. hupall_loop-Silent profiles)

  recover_loop-Silent : (profiles : List SofiaProfile) → Silent env (recover_loop env profiles)
  unfolding recover_loop
  recover_loop-Silent [] = pure-Silent env tt
  recover_loop-Silent (p ∷ profiles) = if_lem env (zstr p.name) (pure-Silent env tt) (
      then_lem env
        (if_lem env p.autorecover
          (then_lem env (utils_recover-Silent env p.name) λ r. pure-Silent env tt)
          (pure-Silent env tt))
        λ u. recover_loop-Silent profiles)

  clean_up_loop-Silent :
      (uuid : Bytes) (profiles : List SofiaProfile) → Silent env (clean_up_loop env uuid profiles)
  unfolding clean_up_loop
  clean_up_loop-Silent uuid [] = pure-Silent env tt
  clean_up_loop-Silent uuid (p ∷ profiles) = if_lem env (zstr p.name) (pure-Silent env tt) (
      then_lem env (utils_clean_up_table-Silent env uuid p.name)
        λ u. clean_up_loop-Silent uuid profiles)

  join-Silent : (t : Thread) (thread : ℕ) → Silent env (join env t thread)
  unfolding join protocol
  join-Silent t thread =
      if_lem env (thread == 0) (pure-Silent env tt)
        (tell-Silent env (thread_join t thread) (λ a l. refl))

  pub go_down-Silent : Silent env (go_down env)
  unfolding go_down
  go_down-Silent = then_lem env (modify-Silent env reset) λ u.
      then_lem env (gets-Silent env (λ v. v)) λ (vip : VirtualIp).
        then_lem env (node_remove_all-Silent vip.node_list) λ s.
          then_lem env (modify-Silent env (λ v. record v { node_list = [] })) λ u.
            then_lem env (join-Silent rollback_thread vip.rollback_thread) λ u.
              then_lem env (modify-Silent env (λ v. record v { rollback_thread = 0 })) λ u.
                then_lem env (join-Silent virtual_ip_thread vip.virtual_ip_thread) λ u.
                  then_lem env (modify-Silent env (λ v. record v { virtual_ip_thread = 0 })) λ u.
                    then_lem env (utils_remove_vip-Silent env vip.config.address vip.config.device)
                      λ s.
                        then_lem env (hupall_loop-Silent vip.config.profiles)
                          λ u. pure-Silent env success

  give_up-Silent : Silent env (give_up env)
  give_up-Silent = then_lem env go_down-Silent λ s. pure-Silent env status_false

  take_address-Silent : (vip : VirtualIp) → Silent env (take_address env vip)
  unfolding take_address
  take_address-Silent vip =
      then_lem env (utils_add_vip-Silent env vip.config.address vip.config.device) λ added.
        if_lem env (not (is_success added)) (pure-Silent env false) (
          then_lem env
            (utils_send_g_arp-Silent env vip.config.mac vip.config.address vip.config.device)
            λ announced. if_lem env (is_success announced) (pure-Silent env true) (
              then_lem env (utils_remove_vip-Silent env vip.config.address vip.config.device)
                λ s. pure-Silent env false))

  pub act-Silent : Silent env (act env)
  unfolding act
  act-Silent = then_lem env (gets-Silent env (λ v. v)) λ (vip : VirtualIp).
      if_lem env (vip.node_id == node_first vip.node_list)
        (then_lem env (modify-Silent env (λ v. record v { state = master })) λ u.
          then_lem env (take_address-Silent vip) λ taken.
            if_lem env taken
              (then_lem env (virtual_ip_send_state-Silent env) λ s. pure-Silent env success)
              give_up-Silent)
        give_up-Silent

  pub react-Silent : Silent env (react env)
  unfolding react
  react-Silent = then_lem env (gets-Silent env (λ v. v)) λ (vip : VirtualIp).
      if_lem env (vip.node_id == node_first vip.node_list)
        (then_lem env (modify-Silent env (λ v. record v { state = master })) λ u.
          then_lem env (take_address-Silent vip) λ taken.
            if_lem env taken
              (then_lem env (recover_loop-Silent vip.config.profiles)
                λ u. then_lem env (virtual_ip_send_state-Silent env) λ s. pure-Silent env success)
              give_up-Silent)
        (then_lem env (clean_up_loop-Silent vip.runtime_uuid vip.config.profiles)
          λ u. pure-Silent env success)

  pub backupup-Silent : Silent env (backupup env)
  unfolding backupup
  backupup-Silent =
      then_lem env (virtual_ip_send_state-Silent env)
        λ status. then_lem env (virtual_ip_send_all_sql-Silent env) λ all. pure-Silent env _

  -- The actions without a loop.
  pub rollback-Silent : Silent env (rollback env)
  unfolding rollback protocol
  rollback-Silent w = leads w w.vip.node_list refl
    where
      leads :
          (w : World) (l : List Node)
          → w.vip.node_list ≡ l
          → IfReturns (Unchanged env w) (rollback env w)
      leads w [] h = simp h faulted
      leads w (n ∷ rest) h = simp h (of_Allows (Unchanged env w) _ (ground arith))

  pub go_up-Silent : Silent env (go_up env)
  unfolding go_up protocol
  go_up-Silent w = returned refl

  pub rback_stop-Silent : Silent env (rback_stop env)
  unfolding rback_stop
  rback_stop-Silent w = of_Allows (Unchanged env w) _ (ground arith)

  pub observe-Silent : Silent env (observe env)
  unfolding observe
  observe-Silent w = returned refl
