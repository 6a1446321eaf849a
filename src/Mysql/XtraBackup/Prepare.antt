-- ===== src/Mysql/XtraBackup/Prepare.antt =====
-- bdbackup/mysql/xtrabackup.py, `prepare`: a recovery copy of a full backup and of the incrementals
-- up to the requested one. The backup tool and the copies that it works on are parameters.
pub mod Replay
pub mod Sources
use bdbackup.Base.{
  ℕ, suc, ◌+◌, ◌-◌, Bool, true, false, not, ◌&&◌, ◌||◌, Option, none, some, List, [], ◌∷◌, ◌++◌,
  String, str_eq, ltb, ◌==◌, if◌then◌else◌, length,
}
use bdbackup.Base.FilePath.{FilePath, path_eq}
use bdbackup.Mysql.XtraBackup.{
  BackupDir, Checkpoints, BackupType, full_backuped, incremental, log_applied, full_prepared,
  Result, ok, err, ◌>>=◌, ◌>>◌, raise_if, checkpoints, metadata, chain, tool_failed,
  destination_exists, inside_root, lock_held, escapes_root, not_committed, already_prepared,
  check_failed, copy_failed, has_symlinks, no_key, wrong_key, still_encrypted, not_recovered,
}

-- The chain up to a backup, with none if the backup is not in it.
unfoldable pub up_to : FilePath → List BackupDir → Option (List BackupDir)
up_to p [] = none
up_to p (d ∷ ds) =
    if path_eq d.path p
    then some (d ∷ [])
    else elim (up_to p ds) [ none ↦ none | some es ↦ some (d ∷ es) ]

-- The sources of a recovery up to an incremental. `full_at` reads the full at a path and the
-- directory of its incrementals, with none for a path that escapes the root.
unfoldable pub chain_sources :
    (FilePath → Option (BackupDir × List BackupDir)) → BackupDir → Result (List BackupDir)
unfolding metadata chain up_to
chain_sources full_at source = do
  m ← metadata source
  elim (full_at m.full) [
    | none ↦ err escapes_root
    | some (full, entries) ↦ do
      ds ← chain full entries
      elim (up_to source.path ds) [ none ↦ err not_committed | some es ↦ ok (full ∷ es) ]
  ]

-- The sources of a recovery.
unfoldable pub sources :
    (FilePath → Option (BackupDir × List BackupDir)) → BackupDir → Result (List BackupDir)
unfolding checkpoints chain_sources
sources full_at source = do
  c ← checkpoints source
  elim c.backup_type [
    | incremental ↦ chain_sources full_at source
    | full_backuped ↦ ok (source ∷ [])
    | _ ↦ err already_prepared
  ]

-- A run of the backup tool on the copy with this index.
pub data Command : Type 0 where
  decrypt decompress : ℕ → Command
  -- `--prepare` of the first copy, with an incremental's copy or none, and `--apply-log-only`.
  apply : Option ℕ → Bool → Command

-- What the surroundings do. `exits_0` is the tool's result after the commands before, `left` the
-- first copy's checkpoints after all commands.
pub record Surroundings : Type 0 where
  pub copies : BackupDir → Bool
  pub symlinks : BackupDir → Bool
  pub xbcrypt : BackupDir → Bool
  pub xbcrypt_left : BackupDir → Bool
  pub compressed : BackupDir → Bool
  pub exits_0 : List Command → Command → Bool
  pub left : List Command → Option Checkpoints
  -- `_encryption_key_id`, with none where it raises.
  pub key_id : Option String
  pub check : List BackupDir → Bool
  pub root_free : Bool
  pub destination_free : Bool
  pub is_mariadb : Bool

-- The destination as `prepare` finds it, and again behind the locks.
pub record Destination : Type 0 where
  pub exists : Bool
  pub is_link : Bool
  pub in_root : Bool
  pub exists_later : Bool

abbrev is_prepared : BackupType → Bool
is_prepared full_prepared = true
is_prepared log_applied = true
is_prepared _ = false

-- What is renamed to the destination.
pub record Recovered : Type 0 where
  pub sources : List BackupDir
  pub log : List Command

abbrev pub last_of : BackupDir → List BackupDir → BackupDir
last_of d [] = d
last_of d (x ∷ xs) = last_of x xs

module _ (w : Surroundings) where
  -- `_run`
  abbrev pub run_tool : Command → List Command → Result (List Command)
  run_tool c log = if w.exits_0 log c then ok (log ++ (c ∷ [])) else err tool_failed

  -- The key check of an encrypted copy.
  unfoldable pub check_key : BackupDir → String → Result (Unit {0})
  unfolding metadata
  check_key d key = elim d.metadata_file [
    | none ↦ ok tt
    | some _ ↦ do
      m ← metadata d
      elim m.key_id [ none ↦ ok tt | some k ↦ raise_if (not (str_eq k key)) wrong_key ]
  ]

  unfoldable pub decrypt_copy : ℕ → BackupDir → List Command → Result (List Command)
  unfolding check_key
  decrypt_copy i d log = elim w.key_id [
    | none ↦ err no_key
    | some key ↦ do
      check_key d key
      after ← run_tool (decrypt i) log
      raise_if (w.xbcrypt_left d) still_encrypted
      ok after
  ]

  -- The body of the loop over the sources.
  unfoldable pub copy_source : ℕ → BackupDir → List Command → Result (List Command)
  unfolding decrypt_copy
  copy_source i d log = do
    raise_if (not (w.copies d)) copy_failed
    raise_if (w.symlinks d) has_symlinks
    plain ← if w.xbcrypt d then decrypt_copy i d log else ok log
    if w.compressed d then run_tool (decompress i) plain else ok plain

  unfoldable pub copy_sources : ℕ → List BackupDir → List Command → Result (List Command)
  unfolding copy_source
  copy_sources i [] log = ok log
  copy_sources i (d ∷ ds) log = copy_source i d log >>= λ after. copy_sources (suc i) ds after

  -- The loop over the incrementals; `count` is the number of copies.
  unfoldable pub apply_rest : ℕ → ℕ → List BackupDir → List Command → Result (List Command)
  apply_rest count i [] log = ok log
  apply_rest count i (d ∷ ds) log =
      run_tool (apply (some i) (ltb i (count - 1) && not w.is_mariadb)) log >>= λ after.
      apply_rest count (suc i) ds after

  unfoldable pub apply_all : List BackupDir → List Command → Result (List Command)
  unfolding apply_rest
  apply_all [] log = ok log
  apply_all (d ∷ ds) log =
      run_tool (apply none (ltb 1 (length (d ∷ ds)) && not w.is_mariadb)) log >>= λ after.
      apply_rest (length (d ∷ ds)) 1 ds after

  -- `verify` of the first copy, and the check of the recovery point. The copy has a new path.
  unfoldable pub check_point : BackupDir → BackupDir → List Command → Result (Unit {0})
  unfolding checkpoints
  check_point first last log = do
    c ← checkpoints (record first { checkpoints_file = w.left log })
    e ← checkpoints last
    raise_if (not (c.to_lsn == e.to_lsn) || not (is_prepared c.backup_type)) not_recovered

  unfoldable pub recover : List BackupDir → Result Recovered
  unfolding copy_sources apply_all check_point
  recover [] = err not_recovered
  recover (d ∷ ds) = do
    copied ← copy_sources 0 (d ∷ ds) []
    log ← apply_all (d ∷ ds) copied
    check_point d (last_of d ds) log
    ok (record { sources = d ∷ ds; log = log })

  -- `prepare`; after an error the workspace is removed and nothing is renamed.
  unfoldable pub prepare :
      (FilePath → Option (BackupDir × List BackupDir)) → BackupDir → Destination → Result Recovered
  unfolding sources recover
  prepare full_at source dest = do
    raise_if (dest.exists || dest.is_link) destination_exists
    raise_if dest.in_root inside_root
    raise_if (not w.root_free) lock_held
    ds ← sources full_at source
    raise_if (not (w.check ds)) check_failed
    raise_if (not w.destination_free) lock_held
    raise_if dest.exists_later destination_exists
    recover ds
