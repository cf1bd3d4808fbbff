-- ===== src/Tests/Loading.antt =====
-- The theorems on the configuration, on loading the module and on its commands, at concrete inputs.
use freeswitch_mod_cpg.Base.{
  ℕ, ℤ, pos, ◌≡◌, ◌⊎◌, true, false, some, List, [], ◌∷◌, map, Bytes, All, codes, length, leb, arith,
  if◌then◌else◌,
}
use freeswitch_mod_cpg.Types.{rback, VirtualIp}
use freeswitch_mod_cpg.World.{
  Env, Call, system, core_alloc, rtnl_link_alloc_cache, rtnl_link_get_by_name, rtnl_link_get_addr,
  inet_pton, success, status_term, status_memerr,
}
use freeswitch_mod_cpg.World.Returns.{Returns}
use freeswitch_mod_cpg.Config.{XmlParam, XmlProfile, XmlVip}
use freeswitch_mod_cpg.Config.Loaded.{ReadsDotted, Loadable}
use freeswitch_mod_cpg.Module.{Hash}
use freeswitch_mod_cpg.Module.Report.{cmd_status}
use freeswitch_mod_cpg.Module.Report.Readback.{read_report, said, read-cmd_status}
use freeswitch_mod_cpg.Module.Arbiter.{Pointwise, Stops}
use freeswitch_mod_cpg.Module.Api.{nothing, cpg_function}
use freeswitch_mod_cpg.Module.Api.Safety.{OneCommanded, cpg_function-OneCommanded}
use freeswitch_mod_cpg.Entry.{Globals, mod_cpg_load, mod_cpg_shutdown, mod_cpg_runtime}
use freeswitch_mod_cpg.Entry.Load.{LoadEnds, mod_cpg_load-LoadEnds, mod_cpg_shutdown-Stops}
use freeswitch_mod_cpg.Entry.Fences.{KeepsStates, Rounds, mod_cpg_runtime-Fenced}
use freeswitch_mod_cpg.Tests.{calm, answers, vip, two, fresh}
use freeswitch_mod_cpg.Tests.Registry.{compare_words, hash, hash-IsState}

-- As `answers`, but that only short texts are read as addresses, and that pools and netlink have
-- memory and links.
abbrev strict_answers : Call → ℤ
strict_answers (inet_pton s) = if leb (length s) 15 then pos 1 else pos 0
strict_answers core_alloc = pos 1
strict_answers rtnl_link_alloc_cache = pos 1
strict_answers (rtnl_link_get_by_name s) = pos 1
strict_answers rtnl_link_get_addr = pos 1
strict_answers c = answers c

abbrev strict : Env
strict = record calm { answer = λ log c. strict_answers c }

strict-ReadsDotted : ReadsDotted strict
strict-ReadsDotted log s h = ground arith

abbrev param : Bytes → Bytes → XmlParam
param name value = record { name = name; value = value }

-- A configuration with one virtual ip, which is given twice.
abbrev internal_profile : XmlProfile
internal_profile = record { name = codes "internal"; autorecover = codes "true" }

abbrev element : XmlVip
element = record {
  address = codes "10.0.0.1";
  cidr_netmask = codes "24";
  params = param (codes "device") (codes "eth0") ∷ param (codes "autoload") (codes "true") ∷ [];
  profiles = internal_profile ∷ internal_profile ∷ [];
}

abbrev elements : List XmlVip
elements = element ∷ element ∷ []

elements-Loadable : All Loadable elements
elements-Loadable = ground arith

mod_cpg_load-LoadEnds_example :
    Returns (λ r w'. LoadEnds r) (mod_cpg_load strict (some elements) (codes "mod_cpg") fresh)
mod_cpg_load-LoadEnds_example =
    mod_cpg_load-LoadEnds strict (some elements) (codes "mod_cpg") fresh strict-ReadsDotted
      elements-Loadable

abbrev running : Globals
running = record { virtual_ip_hash = hash; running = true; is_connected = true }

mod_cpg_shutdown-Stops_example :
    Returns
      (λ r w'. (r.0 ≡ success) × (r.1.running ≡ false) × Pointwise Stops hash r.1.virtual_ip_hash)
      (mod_cpg_shutdown calm running fresh)
mod_cpg_shutdown-Stops_example = mod_cpg_shutdown-Stops calm running fresh hash-IsState

abbrev untouched : Hash → Hash
untouched virtual_ips = virtual_ips

untouched-KeepsStates : KeepsStates untouched
untouched-KeepsStates virtual_ips h = h

-- The arbiter script fails.
abbrev cut_off_answers : Call → ℤ
cut_off_answers (system cmd) = pos 1
cut_off_answers c = answers c

abbrev cut_off : Env
cut_off = record calm { answer = λ log c. cut_off_answers c }

mod_cpg_runtime-Fenced_example :
    Returns
      (λ (status, left, connected) w'.
        (status ≡ status_term) × Rounds cut_off untouched 2 hash true fresh (left, connected) w')
      (mod_cpg_runtime cut_off untouched 2 hash fresh)
mod_cpg_runtime-Fenced_example =
    mod_cpg_runtime-Fenced cut_off untouched untouched-KeepsStates 2 hash fresh hash-IsState

-- The words of `vip 10.0.0.1 stop`.
abbrev words_of : Bytes → List Bytes
words_of line = codes "vip" ∷ codes "10.0.0.1" ∷ codes "stop" ∷ []

abbrev no_text : List ℕ → Bytes
no_text bytes = bytes

cpg_function-OneCommanded_example :
    Returns
      (λ (status, output, hash') w'.
        ((status ≡ success) ⊎ ((status ≡ status_memerr) × (output ≡ nothing) × (hash' ≡ hash)))
        × OneCommanded hash hash')
      (cpg_function calm compare_words no_text words_of hash (codes "vip 10.0.0.1 stop") fresh)
cpg_function-OneCommanded_example =
    cpg_function-OneCommanded calm compare_words no_text words_of hash (codes "vip 10.0.0.1 stop")
      fresh hash-IsState

abbrev yielding_to : VirtualIp
yielding_to = record (vip rback two) { rollback_node_id = 2 }

read-cmd_status_example :
    read_report (cmd_status no_text ((codes "10.0.0.1", yielding_to) ∷ hash))
    ≡ map (λ e. said no_text e.1) ((codes "10.0.0.1", yielding_to) ∷ hash)
read-cmd_status_example = read-cmd_status no_text ((codes "10.0.0.1", yielding_to) ∷ hash)
