-- ===== src/Agreement.antt =====
-- The nodes of a group, to which corosync makes the same callbacks in the same order
-- (cpg_virtual_ip.c, fsm_input.c, fsm.c).
pub mod Known
pub mod Both
pub mod OneMaster
pub mod Joining
pub mod Succession
pub mod Successor
pub mod Line
use freeswitch_mod_cpg.Base.{
  ℤ, ◌==◌, ◌||◌, Option, none, some, if◌then◌else◌, ℕ, ◌≡◌, ◌≢◌, ◌⊎◌, ◌∙◌, sym, ap, refl, inl, inr,
  Bool, true, false, Bool-cases, ◌&&◌, List, [], ◌∷◌, Bytes, All, arith,
}
use freeswitch_mod_cpg.Types.{Event, rback_req, State, idle, Node}
use freeswitch_mod_cpg.World.{Env, World, M, ◌>>◌, pure}
use freeswitch_mod_cpg.World.Returns.{Returns, returns, bind, weaken, both}
use freeswitch_mod_cpg.Node.Contents.{priority_of}
use freeswitch_mod_cpg.Node.Election.{SameView, HasDistinctPriorities}
use freeswitch_mod_cpg.Node.Announcements.{HasMemory}
use freeswitch_mod_cpg.Utils.Garp.{Addresses}
use freeswitch_mod_cpg.VirtualIp.Delivery.{Responsive}
use freeswitch_mod_cpg.Fsm.{fsm_do_transaction}
use freeswitch_mod_cpg.Fsm.Transitions.{In, successors, serves, IsSafe, fsm_do_transaction-Transits}
use freeswitch_mod_cpg.Fsm.OneMaster.{Candidate, one_master}
use freeswitch_mod_cpg.Input.Safety.{IsSound}
use freeswitch_mod_cpg.Callbacks.Safety.{
  Callback, state_from, sql_from, confchg, call_back, Receivable, Keeps, call_back-Keeps,
}
use freeswitch_mod_cpg.Callbacks.Views.{view_after}
use freeswitch_mod_cpg.Callbacks.{HasContext}

-- Callbacks one after another.
unfoldable pub call_backs : Env → List Callback → M (Unit {0})
call_backs env [] = pure tt
call_backs env (cb ∷ history) = call_back env cb >> call_backs env history

-- The nodes that are known after them.
unfoldable pub view_of : List Node → List Callback → List Node
view_of l [] = l
view_of l (cb ∷ history) = view_of (view_after l cb) history

-- A node whose surroundings answer: libc reads its addresses, corosync settles its messages and
-- finds its context, and memory for new nodes is there.
pub record Member (env : Env) (w : World) : Type 0 where
  pub ether : Bytes
  pub ip : Bytes
  pub responsive : Responsive env
  pub addresses : Addresses env w.vip.config.mac w.vip.config.address ether ip
  pub memory : HasMemory env
  pub context : HasContext env
  pub sound : IsSound w

abbrev pub is_in : ℕ → List ℕ → Bool
is_in id [] = false
is_in id (j ∷ l) = (j == id) || is_in id l

abbrev pub or_else : Option ℤ → Option ℤ → Option ℤ
or_else none q = q
or_else (some p) q = some p

-- What callbacks tell of one node: the first priority that it announces, until it leaves.
unfoldable pub known_of : ℕ → Option ℤ → List Callback → Option ℤ
known_of id known [] = known
known_of id known (state_from nm nodeid ∷ history) =
    known_of id (if nodeid == id then or_else known (some nm.priority) else known) history
known_of id known (sql_from beyond name text nodeid ∷ history) = known_of id known history
known_of id known (confchg members left_list joined ∷ history) =
    known_of id (if is_in id left_list then none else known) history
