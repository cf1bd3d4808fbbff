-- ===== src/Module/Api.antt =====
-- mod_cpg.c: the API command `cpg`. `strcasecmp` of libc, `switch_separate_string` of FreeSWITCH
-- (the words of the line) and `inet_ntoa` are parameters.
pub mod Safety
use freeswitch_mod_cpg.Base.{
  ℕ, ℤ, is_zero, Bool, true, false, List, [], ◌∷◌, Bytes, codes, zstr, if◌then◌else◌,
}
use freeswitch_mod_cpg.World.{
  Env, M, Status, success, status_memerr, strdup, free_buffer, ◌>>=◌, ◌>>◌, pure, ask, tell,
}
use freeswitch_mod_cpg.Module.{Hash, Reply, cmd_vip}
use freeswitch_mod_cpg.Module.Report.{Line, cmd_status}

-- What the stream receives.
pub data Output : Type 0 where
  nothing usage : Output
  report : List Line → Output
  reply : Reply → Output
  unknown : Bytes → Output

module _ (env : Env) (strcasecmp : Bytes → Bytes → ℤ) (inet_ntoa : List ℕ → Bytes) where
  -- The words that follow `vip`: the address, and what is to be done.
  abbrev pub vip_command : Hash → List Bytes → M (Output × Hash)
  vip_command hash [] = pure (usage, hash)
  vip_command hash (address ∷ words) =
      if zstr address
      then pure (usage, hash)
      else do (answer, hash) ← cmd_vip env strcasecmp hash address words; pure (reply answer, hash)

  -- The words of a command line.
  abbrev pub run_command : Hash → List Bytes → M (Output × Hash)
  run_command hash [] = pure (usage, hash)
  run_command hash (word ∷ words) =
      if is_zero (strcasecmp word (codes "status"))
      then pure (report (cmd_status inet_ntoa hash), hash)
      else if is_zero (strcasecmp word (codes "vip"))
      then vip_command hash words
      else if is_zero (strcasecmp word (codes "help"))
      then pure (usage, hash)
      else pure (unknown word, hash)

  unfoldable pub cpg_function : (Bytes → List Bytes) → Hash → Bytes → M (Status × Output × Hash)
  unfolding cmd_vip cmd_status
  cpg_function switch_separate_string hash cmd =
      if zstr cmd then pure (success, usage, hash) else do
        mycmd ← ask env (strdup cmd)
        if is_zero mycmd then pure (status_memerr, nothing, hash) else do
          (output, hash) ← run_command hash (switch_separate_string cmd)
          tell env free_buffer
          pure (success, output, hash)
