-- ===== src/Callbacks/Roundtrip.antt =====
-- A message that one node sends is read by the others as it was meant.
use freeswitch_mod_cpg.Base.{
  ℕ, zero, suc, ◌-◌, ◌%◌, ◌^◌, ◌≤◌, ◌<◌, ℤ, pos, negsuc, ◌≤ℤ◌, ◌≡◌, ◌≢◌, ap, refl, true, false,
  some, [], ◌∷◌, ◌++◌, Bytes, All, length, take, drop, replicate, snprintf, ◌==◌, arith,
}
use freeswitch_mod_cpg.Types.{NodeMsg, max_sofia_name}
use freeswitch_mod_cpg.World.{Env, World, ◌>>◌, pure, tell, cpg_context_get}
use freeswitch_mod_cpg.VirtualIp.Message.{word, int_bytes, field, state_message, sql_message}
use freeswitch_mod_cpg.Input.{fsm_input_new_state_message}
use freeswitch_mod_cpg.Callbacks.{
  HasContext, read_word, to_int, c_str, deliver_sql, deliver_callback, track_loop,
}

-- A string in the C sense: no byte of it is the NUL.
abbrev pub IsText : Bytes → Type 0
IsText s = All (λ c. c ≢ 0) s

word_lt : (z : ℤ) → word z < 2 ^ 32
word_lt z = ground arith

read_word-int_bytes : (z : ℤ) (rest : Bytes) → read_word (int_bytes z ++ rest) ≡ some (word z)
unfolding read_word
read_word-int_bytes z rest = ap some (omega (arith, word_lt z))

to_int-word : (z : ℤ) → negsuc (2 ^ 31 - 1) ≤ℤ z → z ≤ℤ pos (2 ^ 31 - 1) → to_int (word z) ≡ z
to_int-word z lo hi = ground arith

c_str-append : (s rest : Bytes) → IsText s → c_str (s ++ 0 ∷ rest) ≡ some s
unfolding c_str
c_str-append [] rest h = refl
c_str-append (c ∷ s) rest h = ground (arith, c_str-append s rest h.1)

take_short : (n : ℕ) (s : Bytes) → length s ≤ n → take n s ≡ s
take_short zero [] h = refl
take_short zero (c ∷ s) h = absurd (omega arith)
take_short (suc n) [] h = refl
take_short (suc n) (c ∷ s) h = ap (◌∷◌ c) (take_short n s (omega arith))

c_str-field : (size : ℕ) (s : Bytes) → IsText s → length s < size → c_str (field size s) ≡ some s
c_str-field size s h lt =
    let e : size - length s ≡ suc (size - length s - 1) = omega arith in
    rw e (c_str-append s (replicate (size - length s - 1) 0) h)

c_str-take :
    (n : ℕ) (s beyond rest : Bytes)
    → IsText s
    → length s < n
    → c_str (take n (s ++ 0 ∷ beyond) ++ rest) ≡ some s
unfolding c_str
c_str-take zero s beyond rest h lt = absurd (omega arith)
c_str-take (suc n) [] beyond rest h lt = refl
c_str-take (suc n) (c ∷ s) beyond rest h lt =
    ground (arith, c_str-take n s beyond rest h.1 (omega arith))

drop-take : (n : ℕ) (s rest : Bytes) → n ≤ length s → drop n (take n s ++ rest) ≡ rest
drop-take zero s rest h = refl
drop-take (suc n) [] rest h = absurd (omega arith)
drop-take (suc n) (c ∷ s) rest h = drop-take n s rest (omega arith)

ne-== : (a b : ℕ) → a ≢ b → (a == b) ≡ false
ne-== a b h = ground arith

-- What fits the fields of `node_msg_t`.
pub record Fits (nm : NodeMsg) : Type 0 where
  pub above : negsuc (2 ^ 31 - 1) ≤ℤ nm.priority
  pub below : nm.priority ≤ℤ pos (2 ^ 31 - 1)
  pub state : nm.state < 2 ^ 32
  pub text : IsText nm.runtime_uuid
  pub uuid : length nm.runtime_uuid ≤ 39

-- A state message whose fields fit is delivered as the state message that was sent, where corosync
-- finds the context: the receiver gets its context and calls `fsm_input_new_state_message` with
-- the same priority, state and uuid.
pub deliver-state_message :
    (env : Env) (nm : NodeMsg) (nodeid : ℕ) (w : World)
    → Fits nm
    → HasContext env
    → deliver_callback env nodeid (state_message nm) w
      ≡ (tell env cpg_context_get >> (fsm_input_new_state_message env nm nodeid >> pure tt)) w
unfolding deliver_callback state_message
deliver-state_message env nm nodeid w f context =
    let uuid = nm.runtime_uuid in
    let tail = field 40 (snprintf 40 uuid) in
    let type : read_word (state_message nm) ≡ some 1 = read_word-int_bytes (pos 1) _ in
    let priority : read_word (drop 8 (state_message nm)) ≡ some (word nm.priority) =
      read_word-int_bytes nm.priority (int_bytes (pos nm.state) ++ tail) in
    let state : read_word (drop 12 (state_message nm)) ≡ some (nm.state % 2 ^ 32) =
      read_word-int_bytes (pos nm.state) tail in
    let text : c_str (drop 16 (state_message nm)) ≡ some uuid =
      rw (take_short 39 uuid f.uuid) (c_str-field 40 uuid f.text (omega (arith, f.uuid))) in
    let small : nm.state % 2 ^ 32 ≡ nm.state = omega (arith, f.state) in
    rw (context w.log, type, priority, state, text, to_int-word nm.priority f.above f.below, small)
      refl

-- A statement sent for a profile is handed to the loop over the profiles at a node whose id is not
-- the sender's: whatever lies behind the name in the sender's memory, the receiver reads the same
-- name and the same statement, if neither contains a NUL, the name is shorter than 128 bytes, the
-- sender's memory has the 128 bytes that it copies, and corosync finds the receiver's context.
pub deliver-sql_message :
    (env : Env) (beyond name text : Bytes) (nodeid : ℕ) (w : World)
    → IsText name
    → IsText text
    → length name < max_sofia_name
    → max_sofia_name ≤ length (name ++ 0 ∷ beyond)
    → w.vip.node_id ≢ nodeid
    → HasContext env
    → deliver_callback env nodeid (sql_message beyond name text) w
      ≡ (tell env cpg_context_get >> track_loop env w.vip.config.profiles name text) w
unfolding deliver_callback deliver_sql sql_message
deliver-sql_message env beyond name text nodeid w hn ht lt room other context =
    let type : read_word (sql_message beyond name text) ≡ some 0 = read_word-int_bytes (pos 0) _ in
    let who = ne-== w.vip.node_id nodeid other in
    let tail = text ++ 0 ∷ [] in
    let from : c_str (drop 8 (sql_message beyond name text)) ≡ some name =
      c_str-take 128 name beyond tail hn lt in
    let statement : c_str (drop 136 (sql_message beyond name text)) ≡ some text =
      rw (drop-take 128 (name ++ 0 ∷ beyond) tail room) (c_str-append text [] ht) in
    rw (context w.log, type, who, from, statement) refl

-- A node ignores the statements that it has sent itself.
pub deliver-own_message :
    (env : Env) (beyond name text : Bytes) (nodeid : ℕ) (w : World)
    → (w.vip.node_id == nodeid) ≡ true
    → HasContext env
    → deliver_callback env nodeid (sql_message beyond name text) w ≡ tell env cpg_context_get w
unfolding deliver_callback sql_message
deliver-own_message env beyond name text nodeid w own context =
    let type : read_word (sql_message beyond name text) ≡ some 0 = read_word-int_bytes (pos 0) _ in
    rw (context w.log, type, own) refl
