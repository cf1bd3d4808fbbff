-- ===== src/Callbacks/Safety.antt =====
-- The corosync callbacks keep the invariant of a virtual ip, and neither fault nor hang on the
-- messages that the module sends.
use freeswitch_mod_cpg.Base.{
  ℕ, ◌<◌, ◌≤◌, ◌≡◌, ◌≢◌, ◌∙◌, refl, ap, Bool, inl, inr, Bool-cases, List, [], ◌∷◌, ◌++◌, Bytes,
  length, bytes_eq, eqb_ℤ, ◌==◌, arith,
}
use freeswitch_mod_cpg.Types.{backup_up, VirtualIp, SofiaProfile, NodeMsg, max_sofia_name}
use freeswitch_mod_cpg.World.{Env, World, M, entry, cpg_context_get}
use freeswitch_mod_cpg.World.Returns.{Returns, returns, bind, weaken, of_Ensures}
use freeswitch_mod_cpg.Utils.Ip.Bound.{target, bound}
use freeswitch_mod_cpg.Utils.Garp.{Addresses}
use freeswitch_mod_cpg.Utils.Sofia.{utils_send_track_event}
use freeswitch_mod_cpg.VirtualIp.Delivery.{Responsive}
use freeswitch_mod_cpg.VirtualIp.Message.{state_message, sql_message}
use freeswitch_mod_cpg.Input.{fsm_input_node_up}
use freeswitch_mod_cpg.Input.Safety.{
  IsSound, continues, fsm_input_node_down-Sound, fsm_input_new_state_message-Sound,
}
use freeswitch_mod_cpg.Callbacks.{
  HasContext, deliver_callback, track_loop, left_loop, confchg_callback,
}
use freeswitch_mod_cpg.Callbacks.Roundtrip.{
  IsText, Fits, deliver-state_message, deliver-sql_message, deliver-own_message,
}

-- A callback that corosync makes: one of the two messages that the module multicasts, with its
-- sender, or a change of the group.
pub data Callback : Type 0 where
  state_from : NodeMsg → ℕ → Callback
  sql_from : (beyond name text : Bytes) → ℕ → Callback
  confchg : ℕ → List ℕ → Bool → Callback

unfoldable pub call_back : Env → Callback → M (Unit {0})
call_back env (state_from nm nodeid) = deliver_callback env nodeid (state_message nm)
call_back env (sql_from beyond name text nodeid) =
    deliver_callback env nodeid (sql_message beyond name text)
call_back env (confchg members left joined) = confchg_callback env members left joined

-- What the senders see to: fields that fit, names and texts without a NUL, no node with the id 0.
abbrev pub Receivable : Callback → Type 0
Receivable (state_from nm nodeid) = Fits nm × (nodeid ≢ 0)
Receivable (sql_from beyond name text nodeid) =
    IsText name
    × IsText text
    × (length name < max_sofia_name)
    × (max_sofia_name ≤ length (name ++ 0 ∷ beyond))
Receivable (confchg members left joined) = Unit {0}

-- A run keeps the invariant and the configuration.
abbrev pub Keeps : {A : Type 0} → World → A → World → Type 0
Keeps w a w' = IsSound w' × (w'.vip.config ≡ w.vip.config)

-- The invariant reads the state, the configuration and the node list of the virtual ip, the rings,
-- and the binding of the address.
pub IsSound-relogged :
    (w w' : World)
    → w'.vip.config ≡ w.vip.config
    → w'.vip.state ≡ w.vip.state
    → w'.vip.node_list ≡ w.vip.node_list
    → w'.rings ≡ w.rings
    → bound (target w.vip.config) w'.log ≡ bound (target w.vip.config) w.log
    → IsSound w
    → IsSound w'
IsSound-relogged w w' c s l r b sound = record {
  safe = record { rings = rw r sound.safe.rings; owner = λ on. ground (arith, sound.safe.owner) };
  order = rw l sound.order;
}

-- Nothing that the invariant reads changes.
abbrev pub Unmoved : {A : Type 0} → World → A → World → Type 0
Unmoved w a w' =
    (w'.vip ≡ w.vip)
    × (w'.rings ≡ w.rings)
    × (bound (target w.vip.config) w'.log ≡ bound (target w.vip.config) w.log)

Unmoved-Keeps :
    {A : Type 0} (w : World) (a : A) (w' : World) → IsSound w → Unmoved w a w' → Keeps w a w'
Unmoved-Keeps w a w' s (v, r, b) = (
  IsSound-relogged w w' (ap (λ (v : VirtualIp). v.config) v) (ap (λ (v : VirtualIp). v.state) v)
      (ap (λ (v : VirtualIp). v.node_list) v) r b s,
  ap (λ (v : VirtualIp). v.config) v,
)

module _ (env : Env) where
  utils_send_track_event-Unmoved :
      (text name : Bytes) (w : World) → Returns (Unmoved w) (utils_send_track_event env text name w)
  unfolding utils_send_track_event bound
  utils_send_track_event-Unmoved text name w = of_Ensures (Unmoved w) _ (ground arith)

  pub track_loop-Unmoved :
      (profiles : List SofiaProfile) (name text : Bytes) (w : World)
      → Returns (Unmoved w) (track_loop env profiles name text w)
  unfolding track_loop
  track_loop-Unmoved [] name text w = returns (refl, refl, refl)
  track_loop-Unmoved (p ∷ profiles) name text w = elim (Bool-cases (bytes_eq p.name name)) [
    | inl hit ↦ rw hit (utils_send_track_event-Unmoved text p.name w)
    | inr miss ↦ rw miss (track_loop-Unmoved profiles name text w)
  ]

  -- The world after `cpg_context_get`.
  abbrev pub asked : World → World
  asked w = record w { log = entry cpg_context_get (env.answer w.log cpg_context_get) ∷ w.log }

  pub asked-Keeps : (w : World) → IsSound w → Keeps w (tt {0}) (asked w)
  unfolding bound
  asked-Keeps w s = Unmoved-Keeps w (tt {0}) (asked w) s (refl, refl, refl)

module _ (env : Env) (ether ip : Bytes) (responsive : Responsive env) where
  -- What the invariant is kept under.
  abbrev Reads : World → Type 0
  Reads w = Addresses env w.vip.config.mac w.vip.config.address ether ip

  pub left_loop-Keeps :
      (left_list : List ℕ) (w : World)
      → Reads w
      → IsSound w
      → Returns (Keeps w) (left_loop env left_list w)
  unfolding left_loop
  left_loop-Keeps [] w a s = returns (s, refl)
  left_loop-Keeps (nodeid ∷ left_list) w a s =
      bind (fsm_input_node_down-Sound env w ether ip responsive a s nodeid)
        λ r w1 k. weaken (left_loop-Keeps left_list w1 (rw k.1 a) k.0) (λ u w2 m. (m.0, m.1 ∙ k.1))

  state_from-Keeps :
      (nm : NodeMsg) (nodeid : ℕ) (w : World)
      → Fits nm
      → nodeid ≢ 0
      → HasContext env
      → Reads w
      → IsSound w
      → Returns (Keeps w) (deliver_callback env nodeid (state_message nm) w)
  state_from-Keeps nm nodeid w f nz context a s =
      let k = asked-Keeps env w s in
      rw (deliver-state_message env nm nodeid w f context) (
        bind
          (fsm_input_new_state_message-Sound env (asked env w) ether ip responsive a k.0 nm nodeid
            nz)
          λ r w1 m. returns (m.0, m.1 ∙ k.1))

  sql_from-Keeps :
      (beyond name text : Bytes) (nodeid : ℕ) (w : World)
      → Receivable (sql_from beyond name text nodeid)
      → HasContext env
      → IsSound w
      → Returns (Keeps w) (deliver_callback env nodeid (sql_message beyond name text) w)
  sql_from-Keeps beyond name text nodeid w (hn, ht, short, room) context s =
      let k = asked-Keeps env w s in
      elim (Bool-cases (w.vip.node_id == nodeid)) [
        | inl own ↦ rw (deliver-own_message env beyond name text nodeid w own context) (returns k)
        | inr other ↦
            rw
              (deliver-sql_message env beyond name text nodeid w hn ht short room (ground arith)
                context)
              (weaken (track_loop-Unmoved env w.vip.config.profiles name text (asked env w))
                (λ u w1 m. (Unmoved-Keeps (asked env w) u w1 k.0 m)))
      ]

  confchg-Keeps :
      (members : ℕ) (left_list : List ℕ) (joined : Bool) (w : World)
      → Reads w
      → IsSound w
      → Returns (Keeps w) (confchg_callback env members left_list joined w)
  unfolding confchg_callback fsm_input_node_up bound
  confchg-Keeps members left_list joined w a s =
      elim (Bool-cases (eqb_ℤ (env.answer w.log cpg_context_get) env.cs_ok)) [
        | inl ok ↦ rw ok (
            bind
              (left_loop-Keeps left_list _ a
                (IsSound-relogged w (counted members w) refl refl refl refl refl s))
              λ u w1 k. elim (Bool-cases joined) [
                | inl yes_joined ↦ rw yes_joined (
                    bind
                      (continues env w1 ether ip responsive (rw k.1 a) k.0 w1 backup_up k.0.safe
                        k.0.order refl (λ e. cc))
                      λ r w2 m. returns (m.0, m.1 ∙ k.1))
                | inr none_joined ↦ rw none_joined (returns k)
              ])
        | inr not_ok ↦ rw not_ok (returns (asked-Keeps env w s))
      ]
    where
      counted : ℕ → World → World
      counted members w = record (asked env w) {
        vip = record (w.vip) { member_list_entries = members };
      }

  -- A callback that corosync makes, with a message of the module or a change of the group, to a
  -- virtual ip that satisfies the invariant, returns with the invariant and the configuration kept.
  -- That is so where libc reads the configured addresses and corosync settles every message and
  -- finds the context, and
  -- where the senders see to fields that fit, texts without a NUL, and node ids that are not 0.
  pub call_back-Keeps :
      (cb : Callback) (w : World)
      → Receivable cb
      → HasContext env
      → Addresses env w.vip.config.mac w.vip.config.address ether ip
      → IsSound w
      → Returns (Keeps w) (call_back env cb w)
  unfolding call_back
  call_back-Keeps (state_from nm nodeid) w (f, nz) context a s =
      state_from-Keeps nm nodeid w f nz context a s
  call_back-Keeps (sql_from beyond name text nodeid) w h context a s =
      sql_from-Keeps beyond name text nodeid w h context s
  call_back-Keeps (confchg members left_list joined) w h context a s =
      confchg-Keeps members left_list joined w a s
