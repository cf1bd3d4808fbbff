-- ===== src/Module/Report/Readback.antt =====
-- What can be read off the report of `cpg status` in mod_cpg.c.
use freeswitch_mod_cpg.Base.{
  ℕ, ℤ, ◌≡◌, refl, ap, ◌∙◌, inl, inr, Bool, Bool-cases, Option, none, some, List, [], ◌∷◌, ◌++◌,
  map, append-nil, append_assoc, Bytes, zstr, ◌==◌, if◌then◌else◌,
}
use freeswitch_mod_cpg.Types.{is_rback, SofiaProfile, Node, VirtualIp}
use freeswitch_mod_cpg.VirtualIp.Names.{virtual_ip_get_state}
use freeswitch_mod_cpg.Module.{Hash}
use freeswitch_mod_cpg.Module.Report.{
  Line, double_rule, single_rule, columns, node_line, profile_line, rollback_line,
  utils_node_pid_format, node_lines, profile_lines, vip_body, vip_lines, cmd_status,
}

-- What the report says of one virtual ip.
pub record Said : Type 0 where
  pub address : Bytes
  pub master : Bytes
  pub state : Bytes
  pub nodes : List (ℤ × Bool × Bytes)
  pub profiles : List Bytes
  pub rollback_to : Option Bytes

-- What has been read behind the head of a virtual ip, and the virtual ips behind it.
pub record Reading : Type 0 where
  pub nodes : List (ℤ × Bool × Bytes)
  pub profiles : List Bytes
  pub rollback_to : Option Bytes
  pub later : List Said

abbrev pub behind : List Said → Reading
behind later = record { nodes = []; profiles = []; rollback_to = none; later = later }

-- One line, before what has been read behind it.
abbrev pub read_line : Line → Reading → Reading
read_line double_rule r = r
read_line single_rule r = r
read_line (columns address master state) r = behind (
    record {
      address = address;
      master = master;
      state = state;
      nodes = r.nodes;
      profiles = r.profiles;
      rollback_to = r.rollback_to;
    }
    ∷ r.later)
read_line (node_line p own pid) r = record r { nodes = (p, own, pid) ∷ r.nodes }
read_line (profile_line name) r = record r { profiles = name ∷ r.profiles }
read_line (rollback_line pid) r = record r { rollback_to = some pid }

unfoldable pub read_lines : List Line → Reading
read_lines [] = behind []
read_lines (line ∷ lines) = read_line line (read_lines lines)

-- The report without its own head.
abbrev pub read_report : List Line → List Said
read_report [] = []
read_report (head ∷ lines) = (read_lines lines).later

-- The names before the first empty one.
abbrev pub names_of : List SofiaProfile → List Bytes
names_of [] = []
names_of (p ∷ profiles) = if zstr p.name then [] else p.name ∷ names_of profiles

module _ (inet_ntoa : List ℕ → Bytes) where
  abbrev pub node_said : ℕ → Node → ℤ × Bool × Bytes
  node_said own n = (n.priority, n.nodeid == own, utils_node_pid_format inet_ntoa n.nodeid)

  -- What is to be said of the profiles: nothing for a virtual ip without nodes.
  abbrev pub profiles_said : VirtualIp → List Node → List Bytes
  profiles_said vip [] = []
  profiles_said vip (n ∷ list) = names_of vip.config.profiles

  abbrev pub rollback_said : VirtualIp → List Node → Option Bytes
  rollback_said vip [] = none
  rollback_said vip (n ∷ list) =
      if is_rback vip.state
      then some (utils_node_pid_format inet_ntoa vip.rollback_node_id)
      else none

  abbrev pub said : VirtualIp → Said
  said vip = record {
    address = vip.config.address;
    master = utils_node_pid_format inet_ntoa vip.master_id;
    state = virtual_ip_get_state vip;
    nodes = map (node_said vip.node_id) vip.node_list;
    profiles = profiles_said vip vip.node_list;
    rollback_to = rollback_said vip vip.node_list;
  }

  read-node_lines :
      (own : ℕ) (list : List Node) (lines : List Line)
      → read_lines (node_lines inet_ntoa own list ++ lines)
        ≡ record (read_lines lines) { nodes = map (node_said own) list ++ (read_lines lines).nodes }
  unfolding read_lines node_lines
  read-node_lines own [] lines = refl
  read-node_lines own (n ∷ list) lines =
      ap
        (read_line
          (node_line n.priority (n.nodeid == own) (utils_node_pid_format inet_ntoa n.nodeid)))
        (read-node_lines own list lines)

  read-profile_lines :
      (profiles : List SofiaProfile) (lines : List Line)
      → read_lines (profile_lines inet_ntoa profiles ++ lines)
        ≡ record (read_lines lines) { profiles = names_of profiles ++ (read_lines lines).profiles }
  unfolding read_lines profile_lines
  read-profile_lines [] lines = refl
  read-profile_lines (p ∷ profiles) lines = elim (Bool-cases (zstr p.name)) [
    | inl empty ↦ rw empty refl
    | inr full ↦ rw full (ap (read_line (profile_line p.name)) (read-profile_lines profiles lines))
  ]

  -- The last lines of a virtual ip with nodes.
  abbrev tail : VirtualIp → List Line
  tail vip =
      if is_rback vip.state
      then rollback_line (utils_node_pid_format inet_ntoa vip.rollback_node_id) ∷ double_rule ∷ []
      else double_rule ∷ []

  read-tail :
      (vip : VirtualIp) (n : Node) (list : List Node) (lines : List Line) (later : List Said)
      → read_lines lines ≡ behind later
      → read_lines (tail vip ++ lines)
        ≡ record (behind later) { rollback_to = rollback_said vip (n ∷ list) }
  unfolding read_lines
  read-tail vip n list lines later h = elim (Bool-cases (is_rback vip.state)) [
    | inl yes_rback ↦ rw (yes_rback, h) refl
    | inr no_rback ↦ rw (no_rback, h) refl
  ]

  read-vip_body :
      (vip : VirtualIp) (list : List Node) (lines : List Line) (later : List Said)
      → read_lines lines ≡ behind later
      → read_lines (vip_body inet_ntoa vip list ++ lines) ≡ record {
        nodes = map (node_said vip.node_id) list;
        profiles = profiles_said vip list;
        rollback_to = rollback_said vip list;
        later = later;
      }
  unfolding read_lines
  read-vip_body vip [] lines later h = h
  read-vip_body vip (n ∷ list) lines later h =
      let own = vip.node_id in
      let ps = vip.config.profiles in
      let body = single_rule ∷ (profile_lines inet_ntoa ps ++ (single_rule ∷ tail vip)) in
      let nodes = map (node_said own) (n ∷ list) in
      let with_profiles =
        ap read_lines (append_assoc (profile_lines inet_ntoa ps) (single_rule ∷ tail vip) lines)
        ∙ read-profile_lines ps (single_rule ∷ (tail vip ++ lines))
        ∙ ap (λ (r : Reading). record r { profiles = names_of ps ++ r.profiles })
            (read-tail vip n list lines later h) in
      ap read_lines (append_assoc (node_lines inet_ntoa own (n ∷ list)) body lines)
      ∙ read-node_lines own (n ∷ list) (body ++ lines)
      ∙ ap (λ (r : Reading). record r { nodes = nodes ++ r.nodes }) with_profiles
      ∙ rw (append-nil (map (node_said own) list), append-nil (names_of ps)) refl

  read-vip_lines :
      (hash : Hash) → read_lines (vip_lines inet_ntoa hash) ≡ behind (map (λ e. said e.1) hash)
  unfolding read_lines vip_lines
  read-vip_lines [] = refl
  read-vip_lines ((key, vip) ∷ hash) =
      ap
        (λ r.
          read_line
            (columns vip.config.address (utils_node_pid_format inet_ntoa vip.master_id)
              (virtual_ip_get_state vip))
            r)
        (read-vip_body vip vip.node_list (vip_lines inet_ntoa hash) (map (λ e. said e.1) hash)
          (read-vip_lines hash))

  -- The report of `cpg status`, as the sequence of the calls that write it with what they are given
  -- to format, can be read back: it says, for every virtual ip of the hash in its order, the address,
  -- the master and the state; where nodes are known, these with their priorities and a mark at the
  -- own one, the profiles before the first without a name and, in state ROLLBACK, the node that the
  -- address goes to; and of a virtual ip without nodes no profile and no such node, although it may
  -- have them. It says nothing else.
  pub read-cmd_status :
      (hash : Hash) → read_report (cmd_status inet_ntoa hash) ≡ map (λ e. said e.1) hash
  unfolding cmd_status read_lines
  read-cmd_status hash = ap (λ r. r.later) (read-vip_lines hash)
