-- ===== src/VirtualIp/Message.antt =====
-- cpg_virtual_ip.c: what a node multicasts to the group. An `int` is four bytes, lowest first, as
-- on the x86 servers of the module; `header_t` is 8 bytes and `node_msg_t` is 48.
use freeswitch_mod_cpg.Base.{
  ℕ, zero, suc, ◌-◌, ◌/◌, ◌%◌, ◌^◌, ℤ, pos, negsuc, is_zero, eqb_ℤ, Option, none, some, List, [],
  ◌∷◌, ◌++◌, Bytes, length, take, replicate, snprintf, zstr, if◌then◌else◌,
}
use freeswitch_mod_cpg.Types.{state_code, SofiaProfile, NodeMsg, max_sofia_name}
use freeswitch_mod_cpg.World.{
  Env, M, hang, Status, success, status_false, malloc, free_buffer, yield_us, core_get_uuid,
  cpg_mcast_joined, ◌>>=◌, ◌>>◌, pure, gets, ask, tell, ask_text,
}
use freeswitch_mod_cpg.Utils.Sofia.{utils_send_request_all}

-- The bit pattern of an int.
abbrev pub word : ℤ → ℕ
word (pos n) = n % 2 ^ 32
word (negsuc n) = 2 ^ 32 - 1 - n % 2 ^ 32

abbrev pub int_bytes : ℤ → Bytes
int_bytes z =
    word z % 256 ∷ word z / 256 % 256 ∷ word z / 65536 % 256 ∷ word z / 16777216 % 256 ∷ []

-- The enumerators of `msg_type_t`.
pub data MsgType : Type 0 where
  sql node_state : MsgType

abbrev pub msg_type_code : MsgType → ℕ
msg_type_code sql = 0
msg_type_code node_state = 1

-- A zeroed field of a given size with a string in it.
abbrev pub field : ℕ → Bytes → Bytes
field size text = text ++ replicate (size - length text) 0

-- The buffer of `virtual_ip_send_state`.
unfoldable pub state_message : NodeMsg → Bytes
state_message nm =
    int_bytes (pos (msg_type_code node_state))
    ++ (int_bytes (pos 10)
        ++ (int_bytes nm.priority
            ++ (int_bytes (pos nm.state) ++ field 40 (snprintf 40 nm.runtime_uuid))))

-- The buffer of `virtual_ip_send_sql`. It copies 128 bytes from the name, whose string may be
-- shorter: `beyond` is what memory holds behind its NUL.
unfoldable pub sql_message : Bytes → Bytes → Bytes → Bytes
sql_message beyond name sql_text =
    int_bytes (pos (msg_type_code sql))
    ++ (int_bytes (pos 0) ++ (take max_sofia_name (name ++ 0 ∷ beyond) ++ (sql_text ++ 0 ∷ [])))

module _ (env : Env) where
  -- The label `retry`, with fuel.
  unfoldable pub mcast_loop : ℕ → ℕ → Bytes → M ℤ
  mcast_loop zero h buf = λ _. hang
  mcast_loop (suc k) h buf = do
    error ← ask env (cpg_mcast_joined h buf)
    if eqb_ℤ error env.cs_err_try_again
        then (do tell env (yield_us 1000); mcast_loop k h buf)
        else pure error

  unfoldable pub send_message : ℕ → Bytes → M Status
  unfolding mcast_loop
  send_message h buf = do
    error ← mcast_loop env.patience h buf
    pure (if eqb_ℤ error env.cs_ok then success else status_false)

  -- `malloc`, `send_message`, `free`.
  abbrev pub send_buffer : ℕ → Bytes → M Status
  send_buffer h buf = do
    p ← ask env (malloc (length buf))
    if is_zero p
        then pure status_false
        else do status ← send_message h buf; tell env free_buffer; pure status

  unfoldable pub virtual_ip_send_state : M Status
  virtual_ip_send_state = do
    vip ← gets (λ v. v)
    p ← ask env (malloc 56)
    if is_zero p then pure status_false else do
      (_, uuid) ← ask_text env core_get_uuid
      let nm : NodeMsg = record {
        priority = vip.config.priority;
        state = state_code vip.state;
        runtime_uuid = uuid;
      }
      status ← send_message vip.handle (state_message nm)
      tell env free_buffer
      pure status

  -- The name is `none` for NULL.
  unfoldable pub virtual_ip_send_sql : Option Bytes → Bytes → M Status
  virtual_ip_send_sql none sql_text = pure status_false
  virtual_ip_send_sql (some name) sql_text = do
    vip ← gets (λ v. v)
    send_buffer vip.handle (sql_message (env.beyond name) name sql_text)

  unfoldable pub request_all_loop : List SofiaProfile → M (Unit {0})
  request_all_loop [] = pure tt
  request_all_loop (p ∷ profiles) =
      if zstr p.name
      then pure tt
      else do utils_send_request_all env p.name; request_all_loop profiles

  unfoldable pub virtual_ip_send_all_sql : M Status
  unfolding request_all_loop
  virtual_ip_send_all_sql = do
    profiles ← gets (λ v. v.config.profiles)
    request_all_loop profiles
    pure success
