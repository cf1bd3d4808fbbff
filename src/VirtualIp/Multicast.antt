-- ===== src/VirtualIp/Multicast.antt =====
-- What of `virtual_ip_send_state` in cpg_virtual_ip.c corosync takes.
use freeswitch_mod_cpg.Base.{
  ℕ, zero, suc, ℤ, eqb_ℤ, is_zero, true, false, ◌≡◌, ◌⊎◌, refl, inl, inr, List, [], ◌∷◌, Bytes,
  Bool-cases, arith, if◌then◌else◌,
}
use freeswitch_mod_cpg.Types.{state_code}
use freeswitch_mod_cpg.World.{
  Env, World, Log, Call, Status, success, status_false, cpg_mcast_joined, malloc, core_get_uuid,
}
use freeswitch_mod_cpg.World.Returns.{Returns, returns, bind, weaken}
use freeswitch_mod_cpg.VirtualIp.Message.{
  state_message, mcast_loop, send_message, virtual_ip_send_state,
}
use freeswitch_mod_cpg.VirtualIp.Delivery.{try, retried, Settles, Responsive}

module _ (env : Env) where
  abbrev taken : Call → ℤ → List Bytes → List Bytes
  taken (cpg_mcast_joined h buf) a sent = if eqb_ℤ a env.cs_ok then buf ∷ sent else sent
  taken _ a sent = sent

  -- The buffers that corosync has taken, newest first.
  unfoldable pub multicast : Log → List Bytes
  multicast [] = []
  multicast (e ∷ log) = taken e.call e.answer (multicast log)

  -- CPG_OK is not CPG_ERR_TRY_AGAIN.
  abbrev pub HasCodes : Type 0
  HasCodes = eqb_ℤ env.cs_ok env.cs_err_try_again ≡ false

  -- Corosync refuses no message: it takes each, now or later.
  abbrev pub Takes : Type 0
  Takes =
      (h : ℕ) (buf : Bytes) (log : Log)
      → (eqb_ℤ (try env h buf log) env.cs_ok ≡ true)
        ⊎ (eqb_ℤ (try env h buf log) env.cs_err_try_again ≡ true)

  -- malloc gives the buffer of a state message.
  abbrev pub HasBuffers : Type 0
  HasBuffers = (log : Log) → is_zero (env.answer log (malloc 56)) ≡ false

  -- The buffer is taken once.
  abbrev SentOnce : Bytes → Status → World → World → Type 0
  SentOnce buf s w w' = (s ≡ success) × (multicast w'.log ≡ buf ∷ multicast w.log)

  not_ok : (a : ℤ) → HasCodes → eqb_ℤ a env.cs_err_try_again ≡ true → eqb_ℤ a env.cs_ok ≡ false
  not_ok a codes again = ground arith

  multicast-retried :
      (h : ℕ) (buf : Bytes) (log : Log)
      → HasCodes
      → eqb_ℤ (try env h buf log) env.cs_err_try_again ≡ true
      → multicast (retried env h buf log) ≡ multicast log
  unfolding multicast
  multicast-retried h buf log codes again = rw (not_ok (try env h buf log) codes again) refl

  refused_not :
      (h : ℕ) (buf : Bytes) (log : Log)
      → Takes
      → eqb_ℤ (try env h buf log) env.cs_err_try_again ≡ false
      → eqb_ℤ (try env h buf log) env.cs_ok ≡ false
      → ⊥
  refused_not h buf log takes settled refused = elim (takes h buf log) [
    | inl ok ↦ cc
    | inr again ↦ cc
  ]

  mcast_loop-SentOnce :
      (n h : ℕ) (buf : Bytes) (w : World)
      → HasCodes
      → Takes
      → Settles env n h buf w.log
      → Returns
          (λ error w'. SentOnce buf (if eqb_ℤ error env.cs_ok then success else status_false) w w')
          (mcast_loop env n h buf w)
  unfolding mcast_loop multicast
  mcast_loop-SentOnce zero h buf w codes takes s = absurd s
  mcast_loop-SentOnce (suc n) h buf w codes takes s =
      elim (Bool-cases (eqb_ℤ (try env h buf w.log) env.cs_err_try_again)) [
        | inl again ↦ rw again (
            weaken
              (mcast_loop-SentOnce n h buf (record w { log = retried env h buf w.log }) codes takes
                (s again))
              (λ error w' t. rw (multicast-retried h buf w.log codes again) at t))
        | inr settled ↦ rw settled (elim (Bool-cases (eqb_ℤ (try env h buf w.log) env.cs_ok)) [
          | inl ok ↦ returns (rw ok (refl, refl))
          | inr refused ↦ absurd (refused_not h buf w.log takes settled refused)
        ])
      ]

  send_message-SentOnce :
      (h : ℕ) (buf : Bytes) (w : World)
      → HasCodes
      → Takes
      → Responsive env
      → Returns (λ s w'. SentOnce buf s w w') (send_message env h buf w)
  unfolding send_message
  send_message-SentOnce h buf w codes takes responsive =
      bind (mcast_loop-SentOnce env.patience h buf w codes takes (responsive.settles h buf w.log))
        λ error w' t. returns t

  -- One message is sent, with the node's priority and state and a uuid of FreeSWITCH.
  abbrev pub SentState : World → Status → World → Type 0
  SentState w s w' =
      (log : Log) × (multicast w'.log
        ≡ state_message (record {
          priority = w.vip.config.priority;
          state = state_code w.vip.state;
          runtime_uuid = env.text log core_get_uuid;
        })
          ∷ multicast w.log)

  pub virtual_ip_send_state-SentState :
      (w : World)
      → HasCodes
      → Takes
      → HasBuffers
      → Responsive env
      → Returns (SentState w) (virtual_ip_send_state env w)
  unfolding virtual_ip_send_state multicast
  virtual_ip_send_state-SentState w codes takes buffers responsive =
      rw (buffers w.log)
        (bind (send_message-SentOnce _ _ _ codes takes responsive) λ s w' t. returns (_, t.1))
