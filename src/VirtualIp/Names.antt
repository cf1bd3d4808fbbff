-- ===== src/VirtualIp/Names.antt =====
-- cpg_virtual_ip.c: the names of events and states. `strcasecmp` of libc is a parameter.
use freeswitch_mod_cpg.Base.{
  ℕ, ◌+◌, leb, ◌&&◌, map, ℤ, is_zero, ◌≡◌, ◌≢◌, refl, Bool, true, false, [], Bytes, codes, bytes_eq,
  if◌then◌else◌,
}
use freeswitch_mod_cpg.Types.{
  Event, startup, duplicate, master_down, master_up, backup_down, backup_up, rback_req, stop,
  max_events, State, idle, start, backup, master, rback, max_states, VirtualIp,
}

unfoldable pub event_to_string : Event → Bytes
event_to_string startup = codes "STARTUP"
event_to_string duplicate = codes "DUPLICATE"
event_to_string master_down = codes "MASTER_DOWN"
event_to_string master_up = codes "MASTER_UP"
event_to_string backup_down = codes "BACKUP_DOWN"
event_to_string backup_up = codes "BACKUP_UP"
event_to_string rback_req = codes "RBACK_REQ"
event_to_string stop = codes "STOP"
event_to_string max_events = []

unfoldable pub state_to_string : State → Bytes
state_to_string idle = codes "IDLE"
state_to_string start = codes "START"
state_to_string backup = codes "BACKUP"
state_to_string master = codes "MASTER"
state_to_string rback = codes "ROLLBACK"
state_to_string max_states = []

unfoldable pub virtual_ip_get_state : VirtualIp → Bytes
unfolding state_to_string
virtual_ip_get_state vip = state_to_string vip.state

-- `vip->state != ST_IDLE`.
unfoldable pub vip_is_running : VirtualIp → Bool
vip_is_running vip = not_idle vip.state
  where
    not_idle : State → Bool
    not_idle idle = false
    not_idle _ = true

-- An ASCII letter in lower case.
abbrev pub to_lower : ℕ → ℕ
to_lower c = if leb 65 c && leb c 90 then c + 32 else c

-- Equality but for the case of letters.
abbrev pub same_word : Bytes → Bytes → Bool
same_word a b = bytes_eq (map to_lower a) (map to_lower b)

module _ (strcasecmp : Bytes → Bytes → ℤ) where
  unfoldable pub string_to_state : Bytes → State
  string_to_state state =
      if is_zero (strcasecmp state (codes "MASTER"))
      then master
      else if is_zero (strcasecmp state (codes "BACKUP"))
      then backup
      else if is_zero (strcasecmp state (codes "IDLE"))
      then idle
      else if is_zero (strcasecmp state (codes "RBACK"))
      then rback
      else if is_zero (strcasecmp state (codes "START"))
      then start
      else idle

  -- libc's `strcasecmp` gives 0 for strings that are equal but for the case of letters, and for no
  -- others.
  pub record IgnoresCase : Type 0 where
    pub decides : (a b : Bytes) → is_zero (strcasecmp a b) ≡ same_word a b

  reads_back :
      IgnoresCase
      → (s : State) → s ≢ rback
      → s ≢ max_states
      → string_to_state (state_to_string s) ≡ s
  unfolding string_to_state state_to_string bytes_eq
  reads_back h idle a b = rw (h.decides, h.decides, h.decides) refl
  reads_back h start a b = rw (h.decides, h.decides, h.decides, h.decides, h.decides) refl
  reads_back h backup a b = rw (h.decides, h.decides) refl
  reads_back h master a b = rw h.decides refl
  reads_back h rback a b = absurd (a refl)
  reads_back h max_states a b = absurd (b refl)

  reads_rback : IgnoresCase → string_to_state (state_to_string rback) ≡ idle
  unfolding string_to_state state_to_string bytes_eq
  reads_rback h = rw (h.decides, h.decides, h.decides, h.decides, h.decides) refl

  -- Every name that `state_to_string` gives to a state other than ROLLBACK is read back as that
  -- state, where `strcasecmp` compares as libc's does; that of ROLLBACK is read as IDLE.
  pub string_to_state-state_to_string :
      IgnoresCase
      → ((s : State) → s ≢ rback → s ≢ max_states → string_to_state (state_to_string s) ≡ s)
        × (string_to_state (state_to_string rback) ≡ idle)
  string_to_state-state_to_string h = (reads_back h, reads_rback h)
