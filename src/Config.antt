-- ===== src/Config.antt =====
-- cpg_config.c: the virtual ips of the configuration file. The parsed XML is a parameter: the
-- elements in order, with their attributes, where a missing one is an empty string. FreeSWITCH hands
-- out zeroed memory. A write behind the end of a field or of the array of profiles is a fault.
pub mod Profiles
pub mod Registry
pub mod Params
pub mod Loaded
pub mod Start
use freeswitch_mod_cpg.Base.{
  ℕ, zero, suc, ◌+◌, ltb, leb, ℤ, pos, is_zero, eqb_ℤ, Bool, true, false, not, ◌&&◌, ◌||◌, Option,
  none, some, List, [], ◌∷◌, Bytes, length, set, take, replicate, codes, snprintf, bytes_eq,
  if◌then◌else◌,
}
use freeswitch_mod_cpg.Types.{
  idle, SofiaProfile, Config, VirtualIp, max_sofia_profiles, max_sofia_name,
}
use freeswitch_mod_cpg.World.{
  Env, M, Status, success, status_false, status_term, status_of, is_success, xml_open_cfg, xml_free,
  core_alloc, core_hash_insert, ◌>>=◌, ◌>>◌, pure, crash, ask, tell,
}
use freeswitch_mod_cpg.Utils.Ip.{utils_ip_is_valid, utils_get_netmask, utils_get_mac_addr}
use freeswitch_mod_cpg.Utils.Sofia.{utils_profile_control}
use freeswitch_mod_cpg.Module.{Hash, find_virtual_ip}

-- An element `param` and an element `profile`.
pub record XmlParam : Type 0 where
  pub name : Bytes
  pub value : Bytes

pub record XmlProfile : Type 0 where
  pub name : Bytes
  pub autorecover : Bytes

-- An element `virtualip`.
pub record XmlVip : Type 0 where
  pub address : Bytes
  pub cidr_netmask : Bytes
  pub params : List XmlParam
  pub profiles : List XmlProfile

abbrev pub empty_profile : SofiaProfile
empty_profile = record { name = []; autorecover = false; running = false }

-- `virtual_ip_t` as allocated.
abbrev pub zeroed : VirtualIp
zeroed = record {
  config = record {
    address = [];
    netmask = pos 0;
    device = [];
    mac = [];
    priority = pos 0;
    group_name = [];
    autoload = false;
    autorollback = false;
    rollback_delay = pos 0;
    profiles = replicate max_sofia_profiles empty_profile;
  };
  state = idle;
  virtual_ip_thread = 0;
  handle = 0;
  node_id = 0;
  master_id = 0;
  runtime_uuid = [];
  rollback_node_id = 0;
  rollback_thread = 0;
  node_list = [];
  member_list_entries = 0;
}

-- The loop over the entries before `index`.
unfoldable pub profile_name_is_present : List SofiaProfile → ℕ → Bytes → Bool
profile_name_is_present profiles zero name = false
profile_name_is_present [] (suc index) name = false
profile_name_is_present (p ∷ profiles) (suc index) name =
    bytes_eq p.name name || profile_name_is_present profiles index name

-- `switch_core_hash_insert`, which replaces what the key had.
unfoldable pub hash_insert : Hash → Bytes → VirtualIp → Hash
hash_insert [] address vip = (address, vip) ∷ []
hash_insert ((key, old) ∷ hash) address vip =
    if bytes_eq key address then (key, vip) ∷ hash else (key, old) ∷ hash_insert hash address vip

-- A new virtual ip with its address, group and netmask.
abbrev pub addressed : Bytes → ℤ → VirtualIp
addressed address netmask = record zeroed {
  config = record (zeroed.config) {
    address = snprintf 16 address;
    netmask = netmask;
    group_name = snprintf 255 address;
  };
}

abbrev pub at_least_one : ℤ → ℤ
at_least_one delay = if is_zero delay then pos 1 else delay

-- The interface with its address; `none` where it has none.
abbrev pub with_mac : Bytes → Config → Option Bytes → Option Config
with_mac device c none = none
with_mac device c (some mac) = some (record c { device = device; mac = snprintf 18 mac })

-- The entry that a `profile` fills.
abbrev pub filled : XmlProfile → SofiaProfile
filled x = record {
  name = x.name;
  autorecover = bytes_eq x.autorecover (codes "true");
  running = false;
}

-- How the body of the loop over the virtual ips ends: it goes on with the next one, or leaves the
-- loop by `goto out`, or by the `return` after a failed allocation.
pub data Exit : Type 0 where
  next_vip out memory_error : Exit

-- The rest of a chain that `none` ends.
abbrev pub and_maybe : {A B : Type 0} → (A → M (Option B)) → Option A → M (Option B)
and_maybe rest none = pure none
and_maybe rest (some a) = rest a

abbrev pub is_some : {A : Type 0} → Option A → Bool
is_some none = false
is_some (some a) = true

abbrev pub go_on :
    Exit → Hash → Status → (Hash → Status → M (Hash × Status × Exit)) → M (Hash × Status × Exit)
go_on next_vip hash status rest = rest hash status
go_on exit hash status rest = pure (hash, status, exit)

-- `switch_xml_free` stands behind the label `out`.
abbrev pub frees_xml : Exit → Bool
frees_xml memory_error = false
frees_xml _ = true

module _ (env : Env) where
  -- One `param`; `none` at `goto out`.
  unfoldable pub set_param : XmlParam → Config → M (Option Config)
  set_param param c =
      if bytes_eq param.name (codes "device")
      then (do
        let device = snprintf 6 param.value
        mac ← utils_get_mac_addr env device
        pure (with_mac device c mac))
      else pure (
          some (
            if bytes_eq param.name (codes "autoload")
            then record c { autoload = bytes_eq param.value (codes "true") }
            else if bytes_eq param.name (codes "autorollback")
            then record c { autorollback = bytes_eq param.value (codes "true") }
            else if bytes_eq param.name (codes "rollback-delay")
            then record c { rollback_delay = at_least_one (env.atoi param.value) }
            else if bytes_eq param.name (codes "priority")
            then record c { priority = env.atoi param.value }
            else c))

  unfoldable pub params_loop : List XmlParam → Config → M (Option Config)
  unfolding set_param
  params_loop [] c = pure (some c)
  params_loop (param ∷ params) c = do set ← set_param param c; and_maybe (params_loop params) set

  unfoldable pub profiles_loop : List XmlProfile → ℕ → List SofiaProfile → M (List SofiaProfile)
  unfolding profile_name_is_present
  profiles_loop [] counter profiles = pure profiles
  profiles_loop (x ∷ xs) counter profiles =
      let skip = profiles_loop xs counter profiles in
      let keep = profiles_loop xs (suc counter) (set profiles counter (filled x)) in
      if leb max_sofia_profiles counter then crash else do
        defined ← utils_profile_control env x.name
        if not (is_success defined) || profile_name_is_present profiles counter x.name
            then skip
            else if leb max_sofia_name (length x.name)
            then crash
            else keep

  -- From the insertion of a virtual ip into the hash on.
  abbrev pub insert_vip : Hash → VirtualIp → M (Hash × Status × Exit)
  insert_vip hash vip = do
    result ← ask env (core_hash_insert vip.config.address)
    let status = status_of result
    if is_success status
        then pure (hash_insert hash vip.config.address vip, status, next_vip)
        else pure (hash, status, out)

  -- The profiles, after the parameters; `none` is a device that is not valid.
  abbrev pub finish_vip : XmlVip → Hash → Option Config → M (Hash × Status × Exit)
  finish_vip x hash none = pure (hash, status_false, out)
  finish_vip x hash (some c) = do
    profiles ← profiles_loop x.profiles 0 c.profiles
    insert_vip hash (record zeroed { config = record c { profiles = profiles } })

  -- The body of the loop over the virtual ips.
  unfoldable pub configure_vip : XmlVip → Hash → Status → M (Hash × Status × Exit)
  unfolding find_virtual_ip hash_insert params_loop profiles_loop utils_get_netmask
  configure_vip x hash status =
      if is_some (find_virtual_ip hash x.address) then pure (hash, status, next_vip) else do
        valid ← utils_ip_is_valid env x.address
        if not valid then pure (hash, status, next_vip) else do
          p ← ask env core_alloc
          if is_zero p then pure (hash, status_false, memory_error) else do
            c ←
                params_loop x.params
                  (addressed x.address (utils_get_netmask env x.cidr_netmask)).config
            finish_vip x hash c

  unfoldable pub vips_loop : List XmlVip → Hash → Status → M (Hash × Status × Exit)
  unfolding configure_vip
  vips_loop [] hash status = pure (hash, status, out)
  vips_loop (x ∷ xs) hash status = do
    (hash, status, exit) ← configure_vip x hash status
    go_on exit hash status (vips_loop xs)

  -- `cfg` is the element of the file `cf`, none where it cannot be opened.
  unfoldable pub do_config : Option (List XmlVip) → Bytes → Hash → M (Hash × Status)
  unfolding vips_loop
  do_config none cf hash = do tell env (xml_open_cfg cf); pure (hash, status_term)
  do_config (some cfg) cf hash = do
    tell env (xml_open_cfg cf)
    (hash, status, exit) ← vips_loop cfg hash success
    if frees_xml exit then tell env xml_free else pure tt
    pure (hash, status)
