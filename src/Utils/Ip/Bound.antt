-- ===== src/Utils/Ip/Bound.antt =====
-- What `utils_add_vip` and `utils_remove_vip` of cpg_utils.c do to the interface's address, read
-- off the answers of netlink.
use freeswitch_mod_cpg.Base.{
  ℤ, pos, negsuc, is_neg, eqb_ℤ, ◌≤ℤ◌, Bool, true, false, ◌||◌, ◌&&◌, not, [], ◌∷◌, Bytes, bytes_eq,
  bytes_eq_refl, if◌then◌else◌, arith, ◌≡◌, ◌⊎◌,
}
use freeswitch_mod_cpg.Types.{Config}
use freeswitch_mod_cpg.World.{
  if_nametoindex, Env, World, Log, Call, Status, success, status_false, rtnl_addr_add,
  rtnl_addr_delete,
}
use freeswitch_mod_cpg.World.Returns.{Returns, of_Ensures}
use freeswitch_mod_cpg.Utils.Ip.{ip_addr, utils_add_vip, utils_remove_vip, utils_get_netmask}

-- An address and the device that it belongs to.
abbrev pub Target : Type 0
Target = Bytes × Bytes

-- Where the configuration of a virtual ip wants its address.
abbrev pub target : Config → Target
target c = (c.address, c.device)

named_by : Bytes → Call → ℤ → ℤ → ℤ
named_by dev (if_nametoindex d) idx before = if bytes_eq dev d then idx else before
named_by dev _ idx before = before

-- The index of the device, as `if_nametoindex` last gave it; a negative number before it did.
unfoldable pub index_of : Bytes → Log → ℤ
unfolding named_by
index_of dev [] = negsuc 0
index_of dev (e ∷ log) = named_by dev e.call e.answer (index_of dev log)

-- Whether the address is on the interface after one more call. A call about another address or at
-- another index than the device has by then is about something else.
bound_by : Target → Log → Call → ℤ → Bool → Bool
bound_by t log (rtnl_addr_add a i) err before =
    if bytes_eq a t.0 && (eqb_ℤ i (index_of t.1 log) && (eqb_ℤ err (negsuc 16) || not (is_neg err)))
    then true
    else before
bound_by t log (rtnl_addr_delete a i) err before =
    if bytes_eq a t.0 && (eqb_ℤ i (index_of t.1 log) && (eqb_ℤ err (negsuc 98) || not (is_neg err)))
    then false
    else before
bound_by t log _ err before = before

-- Whether the module has put the address on the interface and not taken it off since: the last
-- netlink call about the address and the interface that had its effect was an addition. The
-- interface is the one of the index that `if_nametoindex` last gave for the device.
unfoldable pub bound : Target → Log → Bool
unfolding bound_by index_of
bound t [] = false
bound t (e ∷ log) = bound_by t log e.call e.answer (bound t log)

-- The address is bound as `want` says where the result is a success, and as before where not.
abbrev pub Rebinds : Target → Bool → World → Status → World → Type 0
Rebinds t want w status w' =
    (w'.vip ≡ w.vip)
    × (w'.rings ≡ w.rings)
    × (((status ≡ success) × (bound t w'.log ≡ want))
        ⊎ ((status ≡ status_false) × (bound t w'.log ≡ bound t w.log)))

-- `utils_add_vip` returns, and leaves the address bound on the interface of the device where it
-- reports success, and bound there as it was before where it reports failure. It changes neither the
-- virtual ip nor the rings of arpator.c.
pub utils_add_vip-bound :
    (env : Env) (ip dev : Bytes) (w : World)
    → Returns (Rebinds (ip, dev) true w) (utils_add_vip env ip dev w)
unfolding utils_add_vip ip_addr bound index_of
utils_add_vip-bound env ip dev w =
    of_Ensures (Rebinds (ip, dev) true w) _ (ground (arith, bytes_eq_refl ip, bytes_eq_refl dev))

-- `utils_remove_vip` returns, and leaves the address unbound on the interface of the device where it
-- reports success, and bound there as it was before where it reports failure. It changes neither the
-- virtual ip nor the rings of arpator.c.
pub utils_remove_vip-bound :
    (env : Env) (ip dev : Bytes) (w : World)
    → Returns (Rebinds (ip, dev) false w) (utils_remove_vip env ip dev w)
unfolding utils_remove_vip ip_addr bound index_of
utils_remove_vip-bound env ip dev w =
    of_Ensures (Rebinds (ip, dev) false w) _ (ground (arith, bytes_eq_refl ip, bytes_eq_refl dev))

-- The netmask of a virtual ip is a prefix length from 1 to 32, whatever the text is.
pub utils_get_netmask_range :
    (env : Env) (netmask : Bytes)
    → (pos 1 ≤ℤ utils_get_netmask env netmask) × (utils_get_netmask env netmask ≤ℤ pos 32)
unfolding utils_get_netmask
utils_get_netmask_range env netmask = ground arith
