-- ===== src/Utils/Sofia.antt =====
-- cpg_utils.c: commands and events for the sofia profiles of FreeSWITCH.
use freeswitch_mod_cpg.Base.{
  ℕ, zero, suc, ℤ, pos, negsuc, eqb_ℤ, not, is_zero, [], ◌∷◌, ◌++◌, Bytes, codes, snprintf, zstr,
  if◌then◌else◌,
}
use freeswitch_mod_cpg.World.{
  Env, M, Status, success, status_false, status_of, is_success, api_execute, event_create,
  event_fire, file_exists, gethostname, core_db_handle, db_execute, db_release, mprintf_channels,
  free_buffer, ask_text, xml_open_root, xml_free, ◌>>=◌, ◌>>◌, pure, ask, tell, done, entry,
}

-- Called once for every row of the result.
abbrev pub show_callback : ℕ → ℕ
show_callback count = suc count

-- What the count is after so many rows.
unfoldable pub count_rows : ℕ → ℕ → ℕ
count_rows zero count = count
count_rows (suc rows) count = count_rows rows (show_callback count)

module _ (env : Env) where
  unfoldable pub utils_reloadxml : M (Unit {0})
  utils_reloadxml = do
    xml_root ← ask env xml_open_root
    if is_zero xml_root then pure tt else tell env xml_free

  unfoldable pub utils_profile_control : Bytes → M Status
  utils_profile_control profile_name = do
    exists ← ask env (
        file_exists (
          snprintf 128
            (env.conf_dir ++ (codes "/sip_profiles/" ++ (profile_name ++ codes ".xml")))))
    pure (status_of exists)

  abbrev execute : Bytes → Bytes → M Status
  execute cmd arg = do
    status ← ask env (api_execute cmd arg)
    pure (if is_success (status_of status) then success else status_false)

  -- "profile %s COMMAND"
  abbrev pub profile_command : Bytes → Bytes → Bytes
  profile_command profile_name command =
      snprintf 128 (codes "profile " ++ (profile_name ++ command))

  unfoldable pub utils_start_sofia_profile : Bytes → M Status
  unfolding utils_profile_control
  utils_start_sofia_profile profile_name = if zstr profile_name then pure status_false else do
    defined ← utils_profile_control profile_name
    if is_success defined
        then execute (codes "sofia") (profile_command profile_name (codes " start"))
        else pure status_false

  unfoldable pub utils_stop_sofia_profile : Bytes → M Status
  utils_stop_sofia_profile profile_name =
      if zstr profile_name
      then pure status_false
      else execute (codes "sofia") (profile_command profile_name (codes " stop"))

  unfoldable pub utils_hupall : Bytes → M (Unit {0})
  utils_hupall profile_name = tell env (
      api_execute (codes "hupall")
        (snprintf 128 (codes "normal_clearing sofia_profile_name " ++ profile_name)))

  unfoldable pub utils_recover : Bytes → M Status
  utils_recover profile_name =
      if zstr profile_name
      then pure status_false
      else execute (codes "sofia") (profile_command profile_name (codes " recover"))

  -- An event "sofia::recovery_recv" with these two headers, if one can be created.
  abbrev fire : Bytes → Bytes → Bytes → M (Unit {0})
  fire profile_name header value = do
    created ← ask env event_create
    if is_success (status_of created)
        then tell env (event_fire ((codes "profile_name", profile_name) ∷ (header, value) ∷ []))
        else pure tt

  unfoldable pub utils_send_track_event : Bytes → Bytes → M (Unit {0})
  utils_send_track_event sql profile_name = fire profile_name (codes "sql") sql

  unfoldable pub utils_send_request_all : Bytes → M (Unit {0})
  utils_send_request_all profile_name = fire profile_name (codes "request_all") (codes "true")

  unfoldable pub utils_clean_up_table : Bytes → Bytes → M Status
  unfolding utils_send_track_event
  utils_clean_up_table runtime_uuid sofia_profile_name = do
    utils_send_track_event
        (codes "delete from sip_recovery where runtime_uuid='"
          ++ (env.quoted runtime_uuid
              ++ (codes "' and profile_name='" ++ (env.quoted sofia_profile_name ++ codes "'"))))
        sofia_profile_name
    pure success

  -- The query with its status, the number of its rows and its message.
  abbrev ask_rows : M (ℤ × ℕ × Bytes)
  ask_rows w =
      let a = env.answer w.log db_execute in
      done (a, env.stored w.log db_execute, env.text w.log db_execute)
        (record w { log = entry db_execute a ∷ w.log })

  -- SWITCH_STATUS_FALSE is 1. `switch_mprintf` fills the query, `db_execute` stores the number of
  -- rows, and its text is the message behind `errmsg`.
  unfoldable pub utils_count_profile_channels : Bytes → M ℤ
  unfolding count_rows
  utils_count_profile_channels profile_name = do
    (_, hostname) ← ask_text env gethostname
    opened ← ask env core_db_handle
    if not (is_success (status_of opened)) then pure (negsuc 0) else do
      sql ← ask env (mprintf_channels (snprintf 256 hostname) profile_name)
      if is_zero sql then pure (negsuc 0) else do
        (status, rows, errmsg) ← ask_rows
        tell env free_buffer
        if zstr errmsg then pure tt else tell env free_buffer
        tell env db_release
        pure (if eqb_ℤ status (pos 1) then negsuc 0 else pos (count_rows rows 0))
