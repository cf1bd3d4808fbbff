-- ===== src/Fsm/Updates.antt =====
-- `backupup` of fsm.c: the master tells a new node its state, and lets its profiles send theirs.
use freeswitch_mod_cpg.Utils.Ip.Bound.{target}
use freeswitch_mod_cpg.Base.{◌≡◌, ◌∙◌, refl}
use freeswitch_mod_cpg.World.{Env, World, Log, success}
use freeswitch_mod_cpg.World.Returns.{Returns, returns, bind}
use freeswitch_mod_cpg.VirtualIp.Message.{virtual_ip_send_all_sql}
use freeswitch_mod_cpg.VirtualIp.Delivery.{
  Responsive, IgnoresSending, Quiet, virtual_ip_send_state-Quiet, request_all_loop-Quiet,
}
use freeswitch_mod_cpg.Fsm.{backupup}
use freeswitch_mod_cpg.Fsm.Takeover.{network, network-IgnoresSending}

module _ (env : Env) where
  virtual_ip_send_all_sql-success :
      (X : Type 0) (f : Log → X) (view : IgnoresSending env X f) (w : World)
      → Returns (λ s w'. (s ≡ success) × Quiet env X f w s w') (virtual_ip_send_all_sql env w)
  unfolding virtual_ip_send_all_sql
  virtual_ip_send_all_sql-success X f view w =
      bind (request_all_loop-Quiet env X f view w.vip.config.profiles w) λ t w' k. returns (refl, k)

  -- `backupup`, where corosync settles every message, returns SWITCH_STATUS_SUCCESS, also where the
  -- state could not be sent, and leaves the virtual ip, the rings of arpator.c, the binding of the
  -- address and the frames sent as they are.
  pub backupup-success :
      (responsive : Responsive env) (w : World)
      → Returns
          (λ s w'.
            (s ≡ success)
            × (w'.vip ≡ w.vip)
            × (w'.rings ≡ w.rings)
            × (network (target w.vip.config) w'.log ≡ network (target w.vip.config) w.log))
          (backupup env w)
  unfolding backupup
  backupup-success responsive w =
      let f = network (target w.vip.config) in
      let view = network-IgnoresSending env (target w.vip.config) in
      bind (virtual_ip_send_state-Quiet env _ f view responsive w) λ s w1 (v, r, l).
        bind (virtual_ip_send_all_sql-success _ f view w1)
          λ t w2 (e, (v', r', l')). rw e (returns (refl, v' ∙ v, r' ∙ r, l' ∙ l))
