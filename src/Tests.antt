-- ===== src/Tests.antt =====
-- Concrete surroundings and virtual ips, at which the theorems are applied: libc that reads the two
-- configured addresses, and a corosync that does every call and takes every message at once.
mod Machine
mod Parts
mod Registry
mod Threads
mod Group
mod Loading
mod Agreement
mod Links
use freeswitch_mod_cpg.Base.{
  ℕ, ℤ, pos, ◌≡◌, refl, Bool, true, false, List, [], ◌∷◌, Bytes, codes, replicate, bytes_eq,
  if◌then◌else◌, arith,
}
use freeswitch_mod_cpg.Types.{
  State, idle, start, backup, master, rback, SofiaProfile, Config, VirtualIp, Node,
}
use freeswitch_mod_cpg.World.{
  Env, World, Rings, Log, Call, malloc, calloc, ether_aton, inet_addr, inet_pton, nl_handle_alloc,
  rtnl_addr_alloc, nl_addr_build, cpg_mcast_joined, cpg_context_get, cpg_initialize,
  cpg_context_set, cpg_local_get, cpg_join, cpg_dispatch, if_nametoindex, rtnl_addr_add, entry,
}
use freeswitch_mod_cpg.Arp.{broadcast_text}
use freeswitch_mod_cpg.Arp.Ring.{HasRings, ResolvesMac, ResolvesIp, ones}
use freeswitch_mod_cpg.Node.Order.{IsPriorityList}
use freeswitch_mod_cpg.Utils.Ip.Bound.{bound}
use freeswitch_mod_cpg.Utils.Garp.{Addresses}
use freeswitch_mod_cpg.VirtualIp.Delivery.{Responsive}
use freeswitch_mod_cpg.Fsm.Transitions.{IsSafe, serves}
use freeswitch_mod_cpg.Input.Safety.{IsSound}

abbrev pub hardware : Bytes
hardware = 2 ∷ 0 ∷ 0 ∷ 0 ∷ 0 ∷ 7 ∷ []

abbrev pub address_bytes : Bytes
address_bytes = 10 ∷ 0 ∷ 0 ∷ 1 ∷ []

abbrev pub answers : Call → ℤ
answers (malloc n) = pos 1
answers (calloc n) = pos 1
answers (ether_aton s) = pos 1
answers (inet_pton s) = pos 1
answers nl_handle_alloc = pos 1
answers rtnl_addr_alloc = pos 1
answers nl_addr_build = pos 1
answers (if_nametoindex s) = pos 2
answers (cpg_mcast_joined h buf) = pos 1
answers cpg_context_get = pos 1
answers cpg_initialize = pos 1
answers cpg_context_set = pos 1
answers cpg_local_get = pos 1
answers (cpg_join s) = pos 1
answers cpg_dispatch = pos 1
answers _ = pos 0

abbrev pub texts : Call → Bytes
texts (ether_aton s) = if bytes_eq s broadcast_text then ones else hardware
texts (inet_addr s) = address_bytes
texts _ = codes "uuid"

abbrev pub calm : Env
calm = record {
  answer = λ log c. answers c;
  stored = λ log c. 5;
  text = λ log c. texts c;
  cs_ok = pos 1;
  cs_err_try_again = pos 6;
  conf_dir = codes "/conf";
  base_dir = codes "/fs";
  atoi = λ s. pos 24;
  quoted = λ s. s;
  beyond = λ s. replicate 128 0;
  pktbuf = replicate 128 0;
  patience = 1;
}

abbrev pub rings : Rings
rings = record {
  ip_result = replicate 8 [];
  ip_index = 7;
  eth_result = replicate 8 [];
  eth_index = 6;
  mac_broadcast = [];
}

abbrev pub internal : SofiaProfile
internal = record { name = codes "internal"; autorecover = true; running = true }

abbrev pub config : Config
config = record {
  address = codes "10.0.0.1";
  netmask = pos 24;
  device = codes "eth0";
  mac = codes "02:00:00:00:00:07";
  priority = pos 100;
  group_name = codes "group";
  autoload = false;
  autorollback = true;
  rollback_delay = pos 1;
  profiles = internal ∷ [];
}

abbrev pub node : ℕ → ℕ → Node
node id p = record { nodeid = id; priority = pos p }

-- Node 1 in a given state, with the nodes that it knows.
abbrev pub vip : State → List Node → VirtualIp
vip s l = record {
  config = config;
  state = s;
  virtual_ip_thread = 5;
  handle = 9;
  node_id = 1;
  master_id = 2;
  runtime_uuid = codes "old";
  rollback_node_id = 0;
  rollback_thread = 0;
  node_list = l;
  member_list_entries = 2;
}

abbrev pub world : State → List Node → Log → World
world s l log = record { vip = vip s l; rings = rings; log = log }

abbrev pub two : List Node
two = node 1 100 ∷ node 2 50 ∷ []

abbrev pub waiting : World
waiting = world backup two []

abbrev pub fresh : World
fresh = world idle [] []

-- The master, which has put its address on the interface.
abbrev pub serving : World
serving = world master (node 3 120 ∷ two) (
    entry (rtnl_addr_add (codes "10.0.0.1") (pos 2)) (pos 0)
    ∷ entry (if_nametoindex (codes "eth0")) (pos 2)
    ∷ [])

pub two-IsPriorityList : IsPriorityList two
two-IsPriorityList = ground arith

pub calm-Responsive : Responsive calm
calm-Responsive = record { settles = λ h buf log e. cc }

pub rings-HasRings : HasRings rings
rings-HasRings = record { ips = refl; ip_next = omega arith; eths = refl; eth_next = omega arith }

pub calm-broadcast : ResolvesMac calm broadcast_text ones
unfolding bytes_eq
calm-broadcast = record { not_null = λ log. refl; value = λ log. refl }

pub calm-hardware : ResolvesMac calm (codes "02:00:00:00:00:07") hardware
unfolding bytes_eq
calm-hardware = record { not_null = λ log. refl; value = λ log. refl }

pub calm-protocol : ResolvesIp calm (codes "10.0.0.1") address_bytes
calm-protocol log = refl

pub calm-Addresses :
    Addresses calm (codes "02:00:00:00:00:07") (codes "10.0.0.1") hardware address_bytes
calm-Addresses = record {
  broadcast = calm-broadcast;
  hardware = calm-hardware;
  protocol = calm-protocol;
  ether_size = refl;
  ip_size = refl;
  buffer = omega arith;
}

pub waiting-IsSafe : IsSafe waiting
waiting-IsSafe = record { rings = rings-HasRings; owner = λ h. cc }

pub fresh-IsSound : IsSound fresh
fresh-IsSound = record { safe = record { rings = rings-HasRings; owner = λ h. cc }; order = tt }
