-- ===== src/GroupThread/Protocol.antt =====
-- The order in which `vip_thread` of cpg_virtual_ip.c joins and leaves its process group.
use freeswitch_mod_cpg.Base.{
  ℕ, suc, ◌+◌, ◌≤◌, ℤ, eqb_ℤ, Bool, true, false, [], ◌∷◌, ◌≡◌, if◌then◌else◌,
}
use freeswitch_mod_cpg.World.{
  Env, World, M, Log, Call, entry, cpg_initialize, cpg_join, cpg_leave, cpg_finalize, select_fd,
}
use freeswitch_mod_cpg.World.Sleep.{slept}
use freeswitch_mod_cpg.World.Partial.{IfReturns}

-- Where a thread stands with corosync; `misused` once it has called something out of turn.
pub data Membership : Type 0 where
  unopened opened joined misused : Membership

-- The membership, and how many times `cpg_initialize` and `cpg_join` have been called.
pub record Protocol : Type 0 where
  pub membership : Membership
  pub initializes : ℕ
  pub joins : ℕ

after_initialize : Bool → Membership → Membership
after_initialize true unopened = opened
after_initialize false unopened = unopened
after_initialize _ _ = misused

after_join : Bool → Membership → Membership
after_join true opened = joined
after_join false opened = opened
after_join _ _ = misused

after_leave : Membership → Membership
after_leave joined = opened
after_leave _ = misused

after_finalize : Membership → Membership
after_finalize opened = unopened
after_finalize _ = misused

-- What a call makes of it.
protocol_after : Env → Call → ℤ → Protocol → Protocol
unfolding after_initialize after_join after_leave after_finalize
protocol_after env cpg_initialize result p = record p {
  membership = after_initialize (eqb_ℤ result env.cs_ok) p.membership;
  initializes = suc p.initializes;
}
protocol_after env (cpg_join group_name) result p = record p {
  membership = after_join (eqb_ℤ result env.cs_ok) p.membership;
  joins = suc p.joins;
}
protocol_after env cpg_leave result p = record p { membership = after_leave p.membership }
protocol_after env cpg_finalize result p = record p { membership = after_finalize p.membership }
protocol_after env _ result p = p

unfoldable pub protocol : Env → Log → Protocol
unfolding protocol_after
protocol env [] = record { membership = unopened; initializes = 0; joins = 0 }
protocol env (e ∷ log) = protocol_after env e.call e.answer (protocol env log)

-- The thread comes back to where it was with corosync.
abbrev pub Balanced : Env → World → World → Type 0
Balanced env w w' =
    ((protocol env w'.log).membership ≡ unopened)
    × ((protocol env w'.log).initializes ≤ (protocol env w.log).initializes + 10)
    × ((protocol env w'.log).joins ≤ (protocol env w.log).joins + 10)

-- The other threads, and the callbacks, leave the membership of this thread alone.
pub record KeepsMembership (env : Env) (elsewhere : World → World) (dispatch : M ℤ) : Type 0 where
  pub others : (w : World) → protocol env (elsewhere w).log ≡ protocol env w.log
  pub callbacks :
      (w : World) → IfReturns (λ r w'. protocol env w'.log ≡ protocol env w.log) (dispatch w)

-- After at most so many tries, counted by `count`: the membership by the result of the last one.
abbrev pub Tried :
    Env → (Protocol → ℕ) → (Protocol → ℕ) → Membership → Membership → ℕ → World → ℤ → World → Type 0
Tried env count other before won n w r w' =
    ((protocol env w'.log).membership ≡ (if eqb_ℤ r env.cs_ok then won else before))
    × (count (protocol env w'.log) ≤ count (protocol env w.log) + n)
    × (other (protocol env w'.log) ≡ other (protocol env w.log))

-- The world after `select`.
abbrev pub waited : Env → (World → World) → ℕ → World → World
waited env elsewhere fd w =
    elsewhere (record w { log = entry (select_fd fd) (env.answer w.log (select_fd fd)) ∷ w.log })

abbrev pub initializes_of : Protocol → ℕ
initializes_of p = p.initializes

abbrev pub joins_of : Protocol → ℕ
joins_of p = p.joins

module _ (env : Env) (elsewhere : World → World) (dispatch : M ℤ)
    (keeps : KeepsMembership env elsewhere dispatch) where
  -- The sleep of this thread changes nothing of it.
  pub protocol-slept :
      (us : ℕ) (w : World) → protocol env (slept env elsewhere us w).log ≡ protocol env w.log
  unfolding protocol
  protocol-slept us w = keeps.others _
