-- ===== src/Validation.antt =====
-- bdbackup/validation.py: the checks before a run. What the host, the database server and the
-- constructors of the backends answer is a parameter; a message is given by what it is about.
pub mod Grants
pub mod Jobs
pub mod Checks
pub mod Passed
use bdbackup.Base.{
  ℕ, zero, suc, Bool, true, false, not, ◌&&◌, ◌||◌, Option, none, some, List, [], ◌∷◌, ◌++◌, String,
  ◌<>◌, str_eq, if◌then◌else◌, any_of, all_of, length, leb, ltb, ◌==◌,
}
use bdbackup.Base.FilePath.{FilePath, path_eq, parent, child_path}

pub data Status : Type 0 where
  status_ok status_fail status_info : Status

pub data Line : Type 0 where
  text : String → Line
  entry : Status → String → Line

-- `Report`
pub record Report : Type 0 where
  pub lines : List Line
  pub ok : Bool

abbrev pub is_fail : Status → Bool
is_fail status_fail = true
is_fail _ = false

-- `Report.add`
unfoldable pub add : Status → String → Report → Report
add status message r = record {
  lines = r.lines ++ (entry status message ∷ []);
  ok = if is_fail status then false else r.ok;
}

-- `report.lines.append`
unfoldable pub write : String → Report → Report
write message r = record r { lines = r.lines ++ (text message ∷ []) }

-- What the checks ask the host: the tests of `pathlib`, `os.access` for the effective user, and
-- `shutil.which`.
pub record Host : Type 0 where
  pub exists : FilePath → Bool
  pub is_dir : FilePath → Bool
  pub is_file : FilePath → Bool
  pub is_symlink : FilePath → Bool
  pub readable : FilePath → Bool
  pub writable : FilePath → Bool
  pub searchable : FilePath → Bool
  pub which : String → Bool

-- The marker of a stage path.
abbrev pub marker : FilePath → FilePath
marker p = child_path p ".bdbackup-destination"

-- The paths of the stages behind the first, `job.params["stage"][1:]`.
abbrev pub later_paths : List (List FilePath) → List FilePath
later_paths [] = []
later_paths (s ∷ ss) = all_paths ss
  where
    all_paths : List (List FilePath) → List FilePath
    all_paths [] = []
    all_paths (t ∷ ts) = t ++ all_paths ts

module _ (h : Host) where
  -- The nearest directory above a path that exists, or the root; the fuel is the path's length.
  unfoldable pub nearest : ℕ → FilePath → FilePath
  unfolding parent
  nearest zero p = p
  nearest (suc fuel) p =
      let above = nearest fuel (parent p) in if h.exists p || path_eq p (parent p) then p else above

  -- The access that `_directory` wants.
  abbrev pub dir_accessible : FilePath → Bool → Bool
  dir_accessible p wants_write =
      h.is_dir p && (h.readable p && h.searchable p && (if wants_write then h.writable p else true))

  -- Whether a directory that does not exist can be made.
  unfoldable pub creatable : FilePath → Bool
  unfolding nearest
  creatable p =
      let above = nearest (length p) (parent p) in
      h.is_dir above && (h.writable above && h.searchable above)

  -- `_directory`
  unfoldable pub directory : FilePath → String → Bool → Bool → Report → Report
  unfolding add write creatable
  directory p label wants_write can_create r =
      if not (h.exists p)
      then write "needs permissions" (
          write "Required directory"
            (add (if can_create && creatable p then status_ok else status_fail) label r))
      else if dir_accessible p wants_write
      then add status_ok label r
      else add status_fail label r

  -- `_file`
  unfoldable pub file : FilePath → String → Bool → Report → Report
  unfolding add
  file p label wants_write r =
      if h.is_file p && (h.readable p && (if wants_write then h.writable p else true))
      then add status_ok label r
      else add status_fail label r

  -- `_binary`
  unfoldable pub binary : String → Report → Report
  unfolding add
  binary name r = if h.which name then add status_ok name r else add status_fail name r

  -- `_gfs`, the check of one path.
  unfoldable pub stage_path : FilePath → Report → Report
  unfolding add
  stage_path p r =
      if not (h.is_dir p)
      then add status_fail "does not exist" r
      else if not (h.writable p && h.searchable p)
      then add status_fail "not writable" r
      else if not (h.is_file (marker p))
      then add status_fail "marker missing" r
      else if not (h.writable (marker p))
      then add status_fail "marker not writable" r
      else add status_ok "stage path" r

  unfoldable pub stage_paths : List FilePath → Report → Report
  unfolding stage_path
  stage_paths [] r = r
  stage_paths (p ∷ ps) r = stage_paths ps (stage_path p r)

  -- `_gfs`
  unfoldable pub gfs : List (List FilePath) → Report → Report
  unfolding stage_paths
  gfs stages r = stage_paths (later_paths stages) r

-- A value of a job's table.
pub data Value : Type 0 where
  integer : ℕ → Value
  negative : ℕ → Value
  boolean : Bool → Value
  word : String → Value
  words : List String → Value
  other : Value

abbrev one_of : List String → String → Bool
one_of names k = any_of (str_eq k) names

-- `_settings`, whether it lets one setting pass.
unfoldable pub setting_fits : String → Value → Bool
setting_fits k v =
    if str_eq k "retention_days"
    then elim v [ integer n ↦ true | _ ↦ false ]
    else if one_of ("parallel" ∷ "compress_threads" ∷ "throttle" ∷ "port" ∷ []) k
    then elim v [ integer n ↦ leb 1 n && not (str_eq k "port" && ltb 65535 n) | _ ↦ false ]
    else if one_of ("encrypt" ∷ "follow_symlinks" ∷ "timestamp" ∷ []) k
    then elim v [ boolean b ↦ true | _ ↦ false ]
    else if one_of
        ("user" ∷ "password" ∷ "host" ∷ "binary" ∷ "compress" ∷ "database" ∷ "format" ∷ []) k
    then elim v [ word w ↦ true | _ ↦ false ]
    else if one_of ("options" ∷ "exclude" ∷ "exclude_pattern" ∷ "exclude_templates" ∷ []) k
    then elim v [ words ws ↦ true | _ ↦ false ]
    else true

-- `_settings`, with false for its `ValueError`.
unfoldable pub settings : List (String × Value) → Bool
unfolding setting_fits
settings [] = true
settings ((k, v) ∷ ps) = setting_fits k v && settings ps
