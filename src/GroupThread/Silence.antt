-- ===== src/GroupThread/Silence.antt =====
-- What of the module calls nothing that changes the membership of the group thread.
pub mod Callers
pub mod Callbacks
use freeswitch_mod_cpg.Base.{
  ℕ, zero, suc, ℤ, eqb_ℤ, is_zero, Bool, true, false, not, List, [], ◌∷◌, Bytes, Option, none, some,
  zstr, bytes_eq, ◌≡◌, ◌∙◌, refl, if◌then◌else◌, arith, get_elem?,
}
use freeswitch_mod_cpg.World.{
  Env, World, Rings, M, cpg_mcast_joined, yield_us, malloc, core_get_uuid, free_buffer, success,
  status_false, Log, Call, Status, done, hang, entry, ◌>>=◌, ◌>>◌, pure, crash, gets, modify,
  get_rings, modify_rings, ask, tell, ask_stored, ask_text,
}
use freeswitch_mod_cpg.World.Partial.{
  IfReturns, returned, faulted, hung, and_then-IfReturns, weaken_if, of_Allows,
}
use freeswitch_mod_cpg.Types.{VirtualIp, SofiaProfile, state_code}
use freeswitch_mod_cpg.Arp.{
  Packet, read, deref, ip_aton, eth_aton, ifx_aton, net_send_arp, net_send_arp_string,
}
use freeswitch_mod_cpg.Utils.Ip.{ip_addr, utils_add_vip, utils_remove_vip}
use freeswitch_mod_cpg.Utils.Garp.{utils_send_g_arp}
use freeswitch_mod_cpg.Utils.Sofia.{
  utils_hupall, utils_recover, utils_send_track_event, utils_send_request_all, utils_clean_up_table,
}
use freeswitch_mod_cpg.VirtualIp.Message.{
  state_message, mcast_loop, send_message, virtual_ip_send_state, request_all_loop,
  virtual_ip_send_all_sql,
}
use freeswitch_mod_cpg.GroupThread.Protocol.{protocol}

module _ (env : Env) where
  -- The membership is as it was.
  abbrev pub Unchanged : {A : Type 0} → World → A → World → Type 0
  Unchanged w a w' = protocol env w'.log ≡ protocol env w.log

  abbrev pub Silent : {A : Type 0} → M A → Type 0
  Silent m = (w : World) → IfReturns (Unchanged w) (m w)

  pub then_lem :
      {A B : Type 0} {m : M A} {k : A → M B}
      → Silent m
      → ((a : A) → Silent (k a))
      → Silent (m >>= k)
  then_lem first rest w =
      and_then-IfReturns (first w) λ a w1 h. weaken_if (rest a w1) (λ b w2 g. g ∙ h)

  pub if_lem :
      {A : Type 0} (t : Bool) {m n : M A} → Silent m → Silent n → Silent (if t then m else n)
  if_lem true h k = h
  if_lem false h k = k

  pub pure-Silent : {A : Type 0} (a : A) → Silent (pure a)
  pure-Silent a w = returned refl

  -- A call that is none of the group thread's.
  abbrev pub IsElsewhere : Call → Type 0
  IsElsewhere c = (a : ℤ) (log : Log) → protocol env (entry c a ∷ log) ≡ protocol env log

  pub ask-Silent : (c : Call) → IsElsewhere c → Silent (ask env c)
  ask-Silent c out w = returned (out _ w.log)

  pub tell-Silent : (c : Call) → IsElsewhere c → Silent (tell env c)
  tell-Silent c out w = returned (out _ w.log)

  pub ask_text-Silent : (c : Call) → IsElsewhere c → Silent (ask_text env c)
  ask_text-Silent c out w = returned (out _ w.log)

  pub ask_stored-Silent : (c : Call) → IsElsewhere c → Silent (ask_stored env c)
  ask_stored-Silent c out w = returned (out _ w.log)

  pub modify-Silent : (f : VirtualIp → VirtualIp) → Silent (modify f)
  modify-Silent f w = returned refl

  pub gets-Silent : {A : Type 0} (f : VirtualIp → A) → Silent (gets f)
  gets-Silent f w = returned refl

  pub utils_add_vip-Silent : (ip dev : Bytes) → Silent (utils_add_vip env ip dev)
  unfolding utils_add_vip ip_addr protocol
  utils_add_vip-Silent ip dev w = of_Allows (Unchanged w) _ (ground arith)

  pub utils_remove_vip-Silent : (ip dev : Bytes) → Silent (utils_remove_vip env ip dev)
  unfolding utils_remove_vip ip_addr protocol
  utils_remove_vip-Silent ip dev w = of_Allows (Unchanged w) _ (ground arith)

  pub utils_hupall-Silent : (name : Bytes) → Silent (utils_hupall env name)
  unfolding utils_hupall protocol
  utils_hupall-Silent name w = of_Allows (Unchanged w) _ (ground arith)

  pub utils_recover-Silent : (name : Bytes) → Silent (utils_recover env name)
  unfolding utils_recover protocol
  utils_recover-Silent name w = of_Allows (Unchanged w) _ (ground arith)

  pub utils_send_track_event-Silent :
      (sql name : Bytes) → Silent (utils_send_track_event env sql name)
  unfolding utils_send_track_event protocol
  utils_send_track_event-Silent sql name w = of_Allows (Unchanged w) _ (ground arith)

  pub utils_send_request_all-Silent : (name : Bytes) → Silent (utils_send_request_all env name)
  unfolding utils_send_request_all protocol
  utils_send_request_all-Silent name w = of_Allows (Unchanged w) _ (ground arith)

  pub utils_clean_up_table-Silent :
      (uuid name : Bytes) → Silent (utils_clean_up_table env uuid name)
  unfolding utils_clean_up_table utils_send_track_event protocol
  utils_clean_up_table-Silent uuid name w = of_Allows (Unchanged w) _ (ground arith)

  ip_aton-Silent : (ip : Bytes) → Silent (ip_aton env ip)
  unfolding ip_aton protocol
  ip_aton-Silent ip w = of_Allows (Unchanged w) _ (ground arith)

  eth_aton-Silent : (mac : Bytes) → Silent (eth_aton env mac)
  unfolding eth_aton protocol
  eth_aton-Silent mac w = of_Allows (Unchanged w) _ (ground arith)

  ifx_aton-Silent : (dev : Option Bytes) → Silent (ifx_aton env dev)
  unfolding ifx_aton protocol
  ifx_aton-Silent none w = returned refl
  ifx_aton-Silent (some dev) w = of_Allows (Unchanged w) _ (ground arith)

  net_send_arp-Silent : (p : Packet) (id : ℤ) → Silent (net_send_arp env p id)
  unfolding net_send_arp protocol
  net_send_arp-Silent p id w = of_Allows (Unchanged w) _ (ground arith)

  deref-Silent : (result : List Bytes) (i : ℕ) → Silent (deref result i)
  deref-Silent result i = reads (get_elem? result i)
    where
      reads : (b : Option Bytes) → Silent (read b)
      reads none w = faulted
      reads (some b) w = returned refl

  get_rings-Silent : {A : Type 0} (f : Rings → A) → Silent (get_rings f)
  get_rings-Silent f w = returned refl

  modify_rings-Silent : (f : Rings → Rings) → Silent (modify_rings f)
  modify_rings-Silent f w = returned refl

  net_send_arp_string-Silent :
      (mac_source mac_destination : Bytes) (operation : ℕ)
      (mac_sender ip_sender mac_target ip_target : Bytes) (dev : Option Bytes)
      → Silent (
          net_send_arp_string env mac_source mac_destination operation mac_sender ip_sender
            mac_target ip_target dev)
  unfolding net_send_arp_string
  net_send_arp_string-Silent mac_source mac_destination operation mac_sender ip_sender mac_target
        ip_target dev =
      then_lem (eth_aton-Silent _) λ b. then_lem (get_rings-Silent (λ r. r.eth_result)) λ r.
        then_lem (deref-Silent r b) λ broadcast. then_lem (modify_rings-Silent _) λ u.
          then_lem (eth_aton-Silent mac_source) λ src.
            then_lem (eth_aton-Silent mac_destination) λ dst.
              then_lem (eth_aton-Silent mac_sender) λ snd.
                then_lem (ip_aton-Silent ip_sender) λ ips.
                  then_lem (eth_aton-Silent mac_target) λ tgt.
                    then_lem (ip_aton-Silent ip_target) λ ipt. then_lem (ifx_aton-Silent dev) λ id.
                      then_lem (get_rings-Silent (λ r. r.eth_result)) λ eths.
                        then_lem (get_rings-Silent (λ r. r.ip_result)) λ ips'.
                          then_lem (deref-Silent eths src) λ source.
                            then_lem (deref-Silent eths dst) λ destination.
                              then_lem (deref-Silent eths snd) λ sender.
                                then_lem (deref-Silent ips' ips) λ sender_ip.
                                  then_lem (deref-Silent eths tgt) λ target.
                                    then_lem (deref-Silent ips' ipt) λ target_ip.
                                      net_send_arp-Silent
                                        (record {
                                          mac_source = source;
                                          mac_destination = destination;
                                          operation = operation;
                                          mac_sender = sender;
                                          ip_sender = sender_ip;
                                          mac_target = target;
                                          ip_target = target_ip;
                                        })
                                        id

  pub utils_send_g_arp-Silent :
      (mac address device : Bytes) → Silent (utils_send_g_arp env mac address device)
  unfolding utils_send_g_arp
  utils_send_g_arp-Silent mac address device =
      then_lem (net_send_arp_string-Silent _ _ _ _ _ _ _ _) λ ret. pure-Silent _

  mcast_loop-Silent : (n h : ℕ) (buf : Bytes) → Silent (mcast_loop env n h buf)
  unfolding mcast_loop protocol
  mcast_loop-Silent zero h buf w = hung
  mcast_loop-Silent (suc n) h buf w =
      then_lem (ask-Silent (cpg_mcast_joined h buf) (λ a l. refl))
        (λ error.
          if_lem (eqb_ℤ error env.cs_err_try_again)
            (then_lem (tell-Silent (yield_us 1000) (λ a l. refl)) (λ u. mcast_loop-Silent n h buf))
            (pure-Silent error))
        w

  send_message-Silent : (h : ℕ) (buf : Bytes) → Silent (send_message env h buf)
  unfolding send_message
  send_message-Silent h buf = then_lem (mcast_loop-Silent env.patience h buf) λ error. pure-Silent _

  pub virtual_ip_send_state-Silent : Silent (virtual_ip_send_state env)
  unfolding virtual_ip_send_state protocol
  virtual_ip_send_state-Silent = then_lem (gets-Silent (λ v. v)) λ (vip : VirtualIp).
      then_lem (ask-Silent (malloc 56) (λ a l. refl)) λ p.
        if_lem (is_zero p) (pure-Silent status_false) (
          then_lem (ask_text-Silent core_get_uuid (λ a l. refl)) λ (b, uuid).
            then_lem
              (send_message-Silent vip.handle (
                state_message (record {
                  priority = vip.config.priority;
                  state = state_code vip.state;
                  runtime_uuid = uuid;
                })))
              λ status. then_lem (tell-Silent free_buffer (λ a l. refl)) λ u. pure-Silent status)

  request_all_loop-Silent : (profiles : List SofiaProfile) → Silent (request_all_loop env profiles)
  unfolding request_all_loop
  request_all_loop-Silent [] = pure-Silent tt
  request_all_loop-Silent (p ∷ profiles) =
      if_lem (zstr p.name) (pure-Silent tt)
        (then_lem (utils_send_request_all-Silent p.name) λ u. request_all_loop-Silent profiles)

  pub virtual_ip_send_all_sql-Silent : Silent (virtual_ip_send_all_sql env)
  unfolding virtual_ip_send_all_sql
  virtual_ip_send_all_sql-Silent =
      then_lem (gets-Silent (λ v. v.config.profiles))
        λ profiles. then_lem (request_all_loop-Silent profiles) λ u. pure-Silent success
