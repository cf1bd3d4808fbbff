-- ===== src/Module/Report.antt =====
-- mod_cpg.c and cpg_utils.c: the report of `cpg status`, and the addresses that the console offers
-- to complete. A line of the report is the data that it is printed from; `inet_ntoa` of libc is a
-- parameter, on the four bytes of the address in memory.
pub mod Readback
use freeswitch_mod_cpg.Base.{
  ℕ, zero, suc, ◌*◌, ◌/◌, ◌%◌, ℤ, Bool, true, false, List, [], ◌∷◌, ◌++◌, Bytes, zstr, snprintf,
  codes, ◌==◌, if◌then◌else◌, Option, none, some, map,
}
use freeswitch_mod_cpg.Types.{is_rback, SofiaProfile, Node, VirtualIp}
use freeswitch_mod_cpg.VirtualIp.Names.{virtual_ip_get_state}
use freeswitch_mod_cpg.Module.{Hash}

pub data Line : Type 0 where
  double_rule single_rule : Line
  columns : Bytes → Bytes → Bytes → Line
  node_line : ℤ → Bool → Bytes → Line
  profile_line : Bytes → Line
  rollback_line : Bytes → Line

-- The bytes of an unsigned of four bytes, the lowest first.
abbrev pub memory_of : ℕ → List ℕ
memory_of n = n % 256 ∷ n / 256 % 256 ∷ n / 65536 % 256 ∷ n / 16777216 % 256 ∷ []

unfoldable pub list_vips : Hash → Option (List Bytes)
list_vips [] = none
list_vips (e ∷ hash) = some (map (λ e. e.0) (e ∷ hash))

module _ (inet_ntoa : List ℕ → Bytes) where
  -- On a little endian machine.
  unfoldable pub utils_node_pid_format : ℕ → Bytes
  utils_node_pid_format nodeid = inet_ntoa (memory_of nodeid)

  -- The loop over the nodes.
  unfoldable pub node_lines : ℕ → List Node → List Line
  unfolding utils_node_pid_format
  node_lines own [] = []
  node_lines own (n ∷ list) =
      node_line n.priority (n.nodeid == own) (utils_node_pid_format n.nodeid) ∷ node_lines own list

  -- The loop over the profiles, which an entry without a name ends.
  unfoldable pub profile_lines : List SofiaProfile → List Line
  profile_lines [] = []
  profile_lines (p ∷ profiles) =
      if zstr p.name then [] else profile_line p.name ∷ profile_lines profiles

  -- What follows the head of a virtual ip.
  abbrev pub vip_body : VirtualIp → List Node → List Line
  vip_body vip [] = double_rule ∷ []
  vip_body vip (n ∷ list) =
      node_lines vip.node_id (n ∷ list)
      ++ (single_rule
          ∷ (profile_lines vip.config.profiles
              ++ (single_rule
                  ∷ (if is_rback vip.state
                      then rollback_line (utils_node_pid_format vip.rollback_node_id)
                        ∷ double_rule
                        ∷ []
                      else double_rule ∷ []))))

  unfoldable pub vip_lines : Hash → List Line
  unfolding node_lines profile_lines virtual_ip_get_state
  vip_lines [] = double_rule ∷ []
  vip_lines ((key, vip) ∷ hash) =
      columns vip.config.address (utils_node_pid_format vip.master_id) (virtual_ip_get_state vip)
      ∷ single_rule
      ∷ (vip_body vip vip.node_list ++ vip_lines hash)

  unfoldable pub cmd_status : Hash → List Line
  unfolding vip_lines
  cmd_status hash =
      columns (codes "Virtual Ip") (codes "Master Ip") (codes "State")
      ∷ double_rule
      ∷ vip_lines hash
