-- ===== src/Types.antt =====
-- virtual_ip_types.h, the node of node.h, and the globals of mod_cpg.h: the data of the module.
-- `int` is ℤ, unsigned integers, handles and thread pointers are ℕ (0 is NULL), `char[]` is its
-- C string, and `profiles` lists the entries of the array in order.
use freeswitch_mod_cpg.Base.{ℕ, ℤ, Bool, true, false, List, Bytes}

pub data Event : Type 0 where
  startup duplicate master_down master_up : Event
  backup_down backup_up rback_req stop max_events : Event

pub data State : Type 0 where
  idle start backup master rback max_states : State

pub Event-discrete : Discrete Event
Event-discrete = hlevel

abbrev pub max_sofia_profiles : ℕ
max_sofia_profiles = 8

abbrev pub max_sofia_name : ℕ
max_sofia_name = 128

-- The number of an enumerator, as `node_msg_t` carries it over the wire.
abbrev pub state_code : State → ℕ
state_code idle = 0
state_code start = 1
state_code backup = 2
state_code master = 3
state_code rback = 4
state_code max_states = 5

-- `state == ST_RBACK`.
abbrev pub is_rback : State → Bool
is_rback rback = true
is_rback _ = false

pub record SofiaProfile : Type 0 where
  pub name : Bytes
  pub autorecover : Bool
  pub running : Bool

pub record Config : Type 0 where
  pub address : Bytes
  pub netmask : ℤ
  pub device : Bytes
  pub mac : Bytes
  pub priority : ℤ
  pub group_name : Bytes
  pub autoload : Bool
  pub autorollback : Bool
  pub rollback_delay : ℤ
  pub profiles : List SofiaProfile

pub record Node : Type 0 where
  pub nodeid : ℕ
  pub priority : ℤ

pub record VirtualIp : Type 0 where
  pub config : Config
  pub state : State
  pub virtual_ip_thread : ℕ
  pub handle : ℕ
  pub node_id : ℕ
  pub master_id : ℕ
  pub runtime_uuid : Bytes
  pub rollback_node_id : ℕ
  pub rollback_thread : ℕ
  pub node_list : List Node
  pub member_list_entries : ℕ

-- `state` is the number received: a peer may send one that is no enumerator.
pub record NodeMsg : Type 0 where
  pub priority : ℤ
  pub state : ℕ
  pub runtime_uuid : Bytes
