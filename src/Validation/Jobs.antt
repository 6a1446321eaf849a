-- ===== src/Validation/Jobs.antt =====
-- bdbackup/validation.py, `validate_config`: the checks of each job. What a constructor makes of a
-- job's settings is a parameter, and what a walk selects is the walk of the file backup.
use bdbackup.Base.{
  Bool, true, false, not, ◌&&◌, ◌||◌, Option, none, some, List, [], ◌∷◌, String, str_eq,
  if◌then◌else◌, any_of,
}
use bdbackup.Base.FilePath.{FilePath, path_eq, parent, is_relative_to}
use bdbackup.FileBackup.{Member, Walked, done, stopped, members_of}
use bdbackup.FileBackup.Setup.{append_text}
use bdbackup.Validation.{
  Report, Host, Value, add, write, directory, file, binary, gfs, settings, status_ok, status_fail,
}
use bdbackup.Validation.Grants.{Engine, physical, logical, Query, mysql, has_option}

-- `HistorySettings`
pub record History : Type 0 where
  pub database : FilePath
  pub restore_root : FilePath

-- A `FileBackup` as the checks read it, with the walk over its inputs.
pub record Archive : Type 0 where
  pub tar_filename : FilePath
  -- `tar_filename.resolve()`
  pub resolved : FilePath
  pub has_paths : Bool
  pub follow_symlinks : Bool
  pub walked : Walked

-- A database backend: `is_named` says that its user is a text that is not blank.
pub record Database : Type 0 where
  pub is_named : Bool
  pub engine : Engine
  pub binary : String
  pub root : FilePath
  pub compress : String
  pub encrypt : Bool
  pub query : Query

pub data Backend : Type 0 where
  archive : Archive → Backend
  database : Database → Backend

-- A job; `built` is what `build_backend` makes of it, with none where it raises.
pub record Job : Type 0 where
  pub name : String
  pub kind : String
  pub active : Bool
  pub restore_root : Option FilePath
  pub stages : List (List FilePath)
  pub destination : Option FilePath
  pub params : List (String × Value)
  pub built : Option Backend

-- The end of a job's checks: they come to their end, or raise.
pub data Step : Type 0 where
  goes raises : Report → Step

abbrev pub optional : {A : Type 0} → Option A → (A → Report → Report) → Report → Report
optional none f r = r
optional (some a) f r = f a r

-- Whether a database is named.
abbrev pub has_database : Option String → Bool
has_database none = false
has_database (some s) = not (str_eq s "")

abbrev pub is_none : {A : Type 0} → Option A → Bool
is_none none = true
is_none (some a) = false

module _ (h : Host) where
  -- The check of one selected source.
  unfoldable pub source_accessible : Archive → Member → Bool
  source_accessible a m =
      (h.is_symlink m.path && not a.follow_symlinks)
      || (h.readable m.path && (if h.is_dir m.path then h.searchable m.path else true))

  unfoldable pub sources : Archive → List Member → Report → Report
  unfolding source_accessible add
  sources a [] r = r
  sources a (m ∷ ms) r =
      sources a ms (if source_accessible a m then r else add status_fail "source" r)

  -- The conflict of the archive with the files of the history database.
  unfoldable pub conflicts : Archive → History → Bool
  unfolding append_text path_eq
  conflicts a s =
      any_of (λ suffix. path_eq a.resolved (append_text s.database suffix))
        ("" ∷ "-wal" ∷ "-shm" ∷ "-journal" ∷ [])

  -- The count of the selected entries.
  unfoldable pub counted : Archive → Walked → Report → Step
  unfolding add
  counted a (stopped ms e) r = raises r
  counted a (done []) r = goes (if a.has_paths then add status_fail "no entries" r else r)
  counted a (done (m ∷ ms)) r = goes (add status_ok "entries" r)

  unfoldable pub check_archive : Option History → Archive → Report → Step
  unfolding directory conflicts sources counted add
  check_archive history a r =
      let placed = directory h (parent a.tar_filename) "Archive destination" true true r in
      let apart =
        optional history (λ s t. if conflicts a s then add status_fail "conflict" t else t)
          placed in
      let listed = if a.has_paths then apart else add status_fail "template" apart in
      counted a a.walked (sources a (members_of a.walked) listed)

  -- The checks of a dump and of a physical backup before those of the server.
  unfoldable pub check_engine : Option History → Option FilePath → Database → Report → Report
  unfolding binary directory add is_relative_to
  check_engine history destination d r = elim d.engine [
    | logical b ↦
        let found = binary h "mysqldump" r in
        let chosen =
          if not (has_database b.database) && not (has_option b.options "--all-databases")
          then add status_fail "database" found
          else found in
        if is_none destination
        then directory h d.root "Backup destination" true true chosen
        else chosen
    | physical b ↦
        let found = binary h d.binary r in
        let outside =
          optional history
            (λ s t. if is_relative_to s.restore_root d.root then add status_fail "root" t else t)
            found in
        let known =
          if any_of (str_eq d.compress) ("" ∷ "zstd" ∷ "lz4" ∷ "quicklz" ∷ [])
          then outside
          else add status_fail "compress" outside in
        let packed =
          if str_eq d.compress ""
          then known
          else binary h (if str_eq d.compress "quicklz" then "qpress" else d.compress) known in
        if d.encrypt then add status_ok "key file" packed else packed
  ]

  unfoldable pub check_database : Option History → Option FilePath → Database → Report → Step
  unfolding check_engine mysql
  check_database history destination d r =
      if d.is_named
      then goes (mysql h d.engine d.query (check_engine history destination d r))
      else raises r

  unfoldable pub check_built : Option History → Job → Report → Step
  unfolding check_archive check_database
  check_built history j r = elim j.built [
    | none ↦ raises r
    | some b ↦ elim b [
      | archive a ↦ check_archive history a r
      | database d ↦ check_database history j.destination d r
    ]
  ]

  -- The `try` block of one job.
  unfoldable pub check_job : Option History → Job → Report → Step
  unfolding directory gfs settings check_built add
  check_job history j r =
      let rooted = optional j.restore_root (λ p. directory h p "Recovery root" true true) r in
      if str_eq j.kind "gfs"
      then goes (gfs h j.stages rooted)
      else if not (str_eq j.kind "file" || str_eq j.kind "xtrabackup" || str_eq j.kind "mysqldump")
      then goes (add status_fail "engine" rooted)
      else let placed =
          optional j.destination (λ p. directory h p "Backup destination" true true) rooted in
        if settings j.params then check_built history j placed else raises placed

  -- What a raised exception adds.
  unfoldable pub settle : Step → Report
  unfolding add
  settle (goes r) = r
  settle (raises r) = add status_fail "settings" r

  unfoldable pub check_jobs : Option History → List Job → Report → Report
  unfolding check_job settle write
  check_jobs history [] r = r
  check_jobs history (j ∷ js) r =
      check_jobs history js
        (if j.active then settle (check_job history j (write j.name r)) else write j.name r)

  unfoldable pub check_history : Option History → Report → Report
  unfolding directory file
  check_history history r =
      optional history
        (λ s t.
          let placed = directory h (parent s.database) "SQLite history directory" true true t in
          let found =
            if h.exists s.database
            then file h s.database "SQLite history" true placed
            else placed in
          directory h s.restore_root "Recovery root" true true found)
        r

  -- `validate_config`
  unfoldable pub validate_config : Option History → List Job → Report
  unfolding check_history check_jobs write
  validate_config history js =
      let checked = check_jobs history js (
        check_history history (write "Validation as OS user" (record { lines = []; ok = true }))) in
      write (if checked.ok then "Validation passed." else "Validation failed") checked
