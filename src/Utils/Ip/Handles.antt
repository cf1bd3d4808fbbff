-- ===== src/Utils/Ip/Handles.antt =====
-- The netlink handles and addresses that cpg_utils.c takes and releases.
use freeswitch_mod_cpg.Base.{ℕ, suc, ◌+◌, ◌≡◌, ℤ, is_zero, [], ◌∷◌, Bytes, if◌then◌else◌, arith}
use freeswitch_mod_cpg.World.{
  Env, World, Log, Call, nl_handle_alloc, nl_connect, nl_handle_destroy, rtnl_addr_alloc,
  rtnl_addr_put, rtnl_link_alloc_cache, rtnl_link_get_by_name, rtnl_link_get_addr, rtnl_link_put,
  nl_addr_destroy, nl_addr_build, nl_addr_put,
}
use freeswitch_mod_cpg.World.Returns.{Returns, of_Ensures}
use freeswitch_mod_cpg.Utils.Ip.{Cmd, ip_addr, utils_get_mac_addr}

-- What has been taken successfully, and what has been released: netlink handles, the address
-- objects of `rtnl_addr_alloc`, the caches of links, the links, and the binary addresses of
-- `nl_addr_build`. The address that `rtnl_link_get_addr` gives is only lent: the link goes on owning
-- it, and no call of the caller has to release it.
pub record Tally : Type 0 where
  pub handles : ℕ
  pub destroyed : ℕ
  pub connected : ℕ
  pub addresses : ℕ
  pub addresses_put : ℕ
  pub caches : ℕ
  pub links : ℕ
  pub links_put : ℕ
  pub built : ℕ
  pub built_put : ℕ
  pub lent : ℕ
  pub lent_destroyed : ℕ

-- One more where the answer is a pointer.
abbrev given : ℤ → ℕ → ℕ
given a n = if is_zero a then n else suc n

abbrev pub tally_after : Call → ℤ → Tally → Tally
tally_after nl_handle_alloc a t = record t { handles = given a t.handles }
tally_after nl_handle_destroy a t = record t { destroyed = suc t.destroyed }
tally_after nl_connect a t = record t {
  connected = if is_zero a then suc t.connected else t.connected;
}
tally_after rtnl_addr_alloc a t = record t { addresses = given a t.addresses }
tally_after rtnl_addr_put a t = record t { addresses_put = suc t.addresses_put }
tally_after rtnl_link_alloc_cache a t = record t { caches = given a t.caches }
tally_after (rtnl_link_get_by_name s) a t = record t { links = given a t.links }
tally_after rtnl_link_put a t = record t { links_put = suc t.links_put }
tally_after nl_addr_build a t = record t { built = given a t.built }
tally_after nl_addr_put a t = record t { built_put = suc t.built_put }
tally_after rtnl_link_get_addr a t = record t { lent = given a t.lent }
tally_after nl_addr_destroy a t = record t { lent_destroyed = suc t.lent_destroyed }
tally_after _ a t = t

unfoldable pub tally : Log → Tally
tally [] = record {
  handles = 0;
  destroyed = 0;
  connected = 0;
  addresses = 0;
  addresses_put = 0;
  caches = 0;
  links = 0;
  links_put = 0;
  built = 0;
  built_put = 0;
  lent = 0;
  lent_destroyed = 0;
}
tally (e ∷ log) = tally_after e.call e.answer (tally log)

-- Between two logs: address objects and binary addresses released as taken, and a handle left open
-- for each that was connected without an address object taken.
abbrev pub LeaksWithoutAddress : Tally → Tally → Type 0
LeaksWithoutAddress t t' =
    (t'.addresses + t.addresses_put ≡ t.addresses + t'.addresses_put)
    × (t'.built + t.built_put ≡ t.built + t'.built_put)
    × (t'.handles + t.destroyed + t'.addresses + t.connected
        ≡ t.handles + t'.destroyed + t.addresses + t'.connected)

-- Between two logs: links released as taken, an address destroyed for each that a link has lent, and
-- a handle left open for each that was connected without a cache taken.
abbrev pub LeaksWithoutCache : Tally → Tally → Type 0
LeaksWithoutCache t t' =
    (t'.links + t.links_put ≡ t.links + t'.links_put)
    × (t'.lent + t.lent_destroyed ≡ t.lent + t'.lent_destroyed)
    × (t'.handles + t.destroyed + t'.caches + t.connected
        ≡ t.handles + t'.destroyed + t.caches + t'.connected)

module _ (env : Env) where
  -- `ip_addr` returns, and releases as many of the address objects that `rtnl_addr_alloc` gives as it
  -- takes, and as many of the binary addresses that `nl_addr_build` gives. Of the handles, it leaves
  -- open as many as it connected without getting an address object.
  pub tally-ip_addr :
      (ip4addr interface : Bytes) (cmd : Cmd) (w : World)
      → Returns
          (λ r w'. LeaksWithoutAddress (tally w.log) (tally w'.log))
          (ip_addr env ip4addr interface cmd w)
  unfolding ip_addr tally
  tally-ip_addr ip4addr interface cmd w =
      of_Ensures (λ r w'. LeaksWithoutAddress (tally w.log) (tally w'.log)) _ (ground arith)

  -- `utils_get_mac_addr` returns, and releases as many links as it takes. It also destroys an address
  -- for each that a link has only lent to it. Of the handles, it leaves open as many as it connected
  -- without getting the link cache.
  pub tally-utils_get_mac_addr :
      (interface : Bytes) (w : World)
      → Returns
          (λ r w'. LeaksWithoutCache (tally w.log) (tally w'.log))
          (utils_get_mac_addr env interface w)
  unfolding utils_get_mac_addr tally
  tally-utils_get_mac_addr interface w =
      of_Ensures (λ r w'. LeaksWithoutCache (tally w.log) (tally w'.log)) _ (ground arith)
