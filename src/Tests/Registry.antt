-- ===== src/Tests/Registry.antt =====
-- The theorems on names, profiles and the module's virtual ips, at concrete inputs.
use freeswitch_mod_cpg.Base.{
  ℤ, pos, is_zero, ◌≡◌, ◌≢◌, refl, true, false, Bool-cases, inl, inr, some, [], ◌∷◌, Bytes, All,
  codes, bytes_eq, if◌then◌else◌,
}
use freeswitch_mod_cpg.Types.{State, idle, rback, master, max_states, VirtualIp}
use freeswitch_mod_cpg.World.{system}
use freeswitch_mod_cpg.World.Returns.{Returns}
use freeswitch_mod_cpg.VirtualIp.Names.{
  same_word, IgnoresCase, string_to_state, state_to_string, string_to_state-state_to_string,
}
use freeswitch_mod_cpg.Module.{
  Hash, find_virtual_ip, find_virtual_ip_from_profile, runtime_round, cmd_vip,
}
use freeswitch_mod_cpg.Module.Arbiter.{IsState, Arbitrated, arbiter, runtime_round-Arbitrated}
use freeswitch_mod_cpg.Module.Lookup.{FirstWith, find_virtual_ip_from_profile-FirstWith}
use freeswitch_mod_cpg.Module.Command.{
  Changes, StartReply, StopReply, cmd_vip-StartReply, cmd_vip-StopReply,
}
use freeswitch_mod_cpg.Tests.{calm, vip, two, fresh}

abbrev pub compare_words : Bytes → Bytes → ℤ
compare_words a b = if same_word a b then pos 0 else pos 1

compare_words-IgnoresCase : IgnoresCase compare_words
compare_words-IgnoresCase = record { decides = decides }
  where
    decides : (a b : Bytes) → is_zero (compare_words a b) ≡ same_word a b
    decides a b = elim (Bool-cases (same_word a b)) [ inl e ↦ rw e refl | inr e ↦ rw e refl ]

abbrev served : VirtualIp
served = vip master two

abbrev pub hash : Hash
hash = (codes "10.0.0.2", vip idle []) ∷ (codes "10.0.0.1", served) ∷ []

pub hash-IsState : All (λ e. IsState e.1) hash
hash-IsState = ((λ e. cc), ((λ e. cc), tt))

first_known : find_virtual_ip hash (codes "10.0.0.2") ≡ some (vip idle [])
unfolding find_virtual_ip bytes_eq
first_known = refl

second_known : find_virtual_ip hash (codes "10.0.0.1") ≡ some served
unfolding find_virtual_ip bytes_eq
second_known = refl

is_start : is_zero (compare_words (codes "START") (codes "start")) ≡ true
unfolding bytes_eq
is_start = refl

is_not_start : is_zero (compare_words (codes "stop") (codes "start")) ≡ false
unfolding bytes_eq
is_not_start = refl

is_stop : is_zero (compare_words (codes "stop") (codes "stop")) ≡ true
unfolding bytes_eq
is_stop = refl

string_to_state-state_to_string_example :
    ((s : State)
      → s ≢ rback
      → s ≢ max_states
      → string_to_state compare_words (state_to_string s) ≡ s)
    × (string_to_state compare_words (state_to_string rback) ≡ idle)
string_to_state-state_to_string_example =
    string_to_state-state_to_string compare_words compare_words-IgnoresCase

find_virtual_ip_from_profile-FirstWith_example :
    FirstWith hash (codes "internal") (find_virtual_ip_from_profile hash (codes "internal"))
find_virtual_ip_from_profile-FirstWith_example =
    find_virtual_ip_from_profile-FirstWith hash (codes "internal")

runtime_round-Arbitrated_example :
    Returns
      (λ r w'. Arbitrated (calm.answer fresh.log (system (arbiter calm))) hash false r)
      (runtime_round calm hash false fresh)
runtime_round-Arbitrated_example = runtime_round-Arbitrated calm hash false fresh hash-IsState

cmd_vip-StartReply_example :
    Returns
      (Changes (StartReply (vip idle [])) hash (codes "10.0.0.2"))
      (cmd_vip calm compare_words hash (codes "10.0.0.2") (codes "START" ∷ []) fresh)
cmd_vip-StartReply_example =
    cmd_vip-StartReply calm compare_words hash (codes "10.0.0.2") (codes "START") (vip idle [])
      fresh first_known is_start

cmd_vip-StopReply_example :
    Returns
      (Changes (StopReply served) hash (codes "10.0.0.1"))
      (cmd_vip calm compare_words hash (codes "10.0.0.1") (codes "stop" ∷ []) fresh)
cmd_vip-StopReply_example =
    cmd_vip-StopReply calm compare_words hash (codes "10.0.0.1") (codes "stop") served fresh
      second_known is_not_start is_stop (λ e. cc)
