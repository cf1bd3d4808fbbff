-- ===== src/Utils/Ip.antt =====
-- cpg_utils.c: adding and removing the virtual address by netlink, the interface's MAC address,
-- and the two checks on configured addresses.
pub mod Bound
pub mod Handles
use freeswitch_mod_cpg.Base.{
  ℕ, ℤ, pos, negsuc, is_neg, is_zero, eqb_ℤ, ltb_ℤ, Bool, true, false, not, ◌&&◌, ◌||◌, Option,
  none, some, Bytes, zstr, if◌then◌else◌,
}
use freeswitch_mod_cpg.World.{
  Env, M, Status, success, status_false, nl_handle_alloc, nl_connect, nl_handle_destroy, nl_close,
  if_nametoindex, rtnl_addr_alloc, rtnl_addr_put, nl_addr_build, nl_addr_put, rtnl_addr_add,
  rtnl_addr_delete, inet_pton, rtnl_link_alloc_cache, rtnl_link_get_by_name, rtnl_link_get_addr,
  rtnl_link_put, nl_addr_destroy, nl_addr2str, calloc, ◌>>=◌, ◌>>◌, pure, ask, tell, ask_text,
}

pub data Cmd : Type 0 where
  add_ip del_ip : Cmd

module _ (env : Env) where
  pub init_handle : M ℤ
  init_handle = do
    handle ← ask env nl_handle_alloc
    if is_zero handle then pure (negsuc 0) else do
      err ← ask env nl_connect
      if is_zero err then pure (pos 0) else do tell env nl_handle_destroy; pure (negsuc 0)

  -- The `switch (cmd)`: -17 is EEXIST, -99 is EADDRNOTAVAIL.
  pub change_addr : Bytes → ℤ → Cmd → M ℤ
  change_addr ip4addr iface_idx add_ip = do
    err ← ask env (rtnl_addr_add ip4addr iface_idx)
    pure (if eqb_ℤ err (negsuc 16) then pos 0 else if is_neg err then negsuc 0 else pos 0)
  change_addr ip4addr iface_idx del_ip = do
    err ← ask env (rtnl_addr_delete ip4addr iface_idx)
    pure (if eqb_ℤ err (negsuc 98) then pos 0 else if is_neg err then negsuc 0 else pos 0)

  -- From the label `out` on.
  abbrev out : ℤ → M ℤ
  out ret = do tell env rtnl_addr_put; tell env nl_close; tell env nl_handle_destroy; pure ret

  unfoldable pub ip_addr : Bytes → Bytes → Cmd → M ℤ
  unfolding init_handle change_addr
  ip_addr ip4addr interface cmd = do
    inited ← init_handle
    if not (is_zero inited) then pure (negsuc 0) else do
      iface_idx ← ask env (if_nametoindex interface)
      if is_neg iface_idx then pure (negsuc 0) else do
        addr ← ask env rtnl_addr_alloc
        if is_zero addr then pure (negsuc 0) else do
          valid ← ask env (inet_pton ip4addr)
          if is_zero valid then out (negsuc 0) else do
            nl_addr ← ask env nl_addr_build
            if is_zero nl_addr
                then out (negsuc 0)
                else do tell env nl_addr_put; ret ← change_addr ip4addr iface_idx cmd; out ret

  unfoldable pub utils_add_vip : Bytes → Bytes → M Status
  utils_add_vip ip dev =
      if not (zstr ip) && not (zstr dev)
      then (do ret ← ip_addr ip dev add_ip; pure (if is_neg ret then status_false else success))
      else pure status_false

  unfoldable pub utils_remove_vip : Bytes → Bytes → M Status
  utils_remove_vip ip dev =
      if not (zstr ip) && not (zstr dev)
      then (do ret ← ip_addr ip dev del_ip; pure (if is_neg ret then status_false else success))
      else pure status_false

  abbrev close_handle : Option Bytes → M (Option Bytes)
  close_handle buf = do tell env nl_close; tell env nl_handle_destroy; pure buf

  -- `calloc` of 20 pointers, and the text that `nl_addr2str` puts there.
  abbrev mac_text : M (Option Bytes)
  mac_text = do
    buf ← ask env (calloc 20)
    if is_zero buf then pure none else do (_, text) ← ask_text env nl_addr2str; pure (some text)

  -- The labels `mac2str_error4` to `mac2str_error2` release what has been taken so far.
  unfoldable pub utils_get_mac_addr : Bytes → M (Option Bytes)
  unfolding init_handle
  utils_get_mac_addr interface = if zstr interface then pure none else do
    inited ← init_handle
    if not (is_zero inited) then pure none else do
      cache ← ask env rtnl_link_alloc_cache
      if is_zero cache then pure none else do
        link ← ask env (rtnl_link_get_by_name interface)
        if is_zero link then close_handle none else do
          addr ← ask env rtnl_link_get_addr
          if is_zero addr then (do tell env rtnl_link_put; close_handle none) else do
            buf ← mac_text
            tell env nl_addr_destroy
            tell env rtnl_link_put
            close_handle buf

  -- `inet_pton` answers 1 for a valid address.
  unfoldable pub utils_ip_is_valid : Bytes → M Bool
  utils_ip_is_valid address = do s ← ask env (inet_pton address); pure (eqb_ℤ s (pos 1))

  unfoldable pub utils_get_netmask : Bytes → ℤ
  utils_get_netmask netmask =
      let nm = env.atoi netmask in
      if not (ltb_ℤ (pos 0) nm) || ltb_ℤ (pos 32) nm then pos 32 else nm
