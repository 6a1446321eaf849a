-- ===== src/Config.antt =====
-- bdbackup/config.py: the reading of a configuration file into jobs. The file is given by what
-- `tomllib` makes of it; a resolved path, `_engine_output` and the list of engines are parameters.
pub mod Accepted
use bdbackup.Base.{
  ℕ, Bool, true, false, not, ◌&&◌, ◌||◌, Option, none, some, List, [], ◌∷◌, ◌++◌, map, String,
  str_eq, if◌then◌else◌, any_of, keep_if,
}
use bdbackup.Base.FilePath.{FilePath}
use bdbackup.Base.Strip.{is_empty, is_space, strip}
use bdbackup.Gfs.Stages.{Stage}
use bdbackup.Gfs.Config as Rules
use bdbackup.Gfs.Config.{Table, Checked, parse_gfs_job, check_gfs_config}

-- A value of a section.
pub data Entry : Type 0 where
  text : String → Entry
  boolean : Bool → Entry
  tables : List (Option Table) → Entry
  other : Entry

abbrev pub Section : Type 0
Section = List (String × Entry)

-- `HistorySettings`
pub record HistorySettings : Type 0 where
  pub database : FilePath
  pub restore_root : FilePath

-- A parameter of a job: a path of the configuration, or the value as it is.
pub data Param : Type 0 where
  path : FilePath → Param
  plain : Entry → Param

-- What a job's parameters are: the stages of a rotation, or those of an engine.
pub data Params : Type 0 where
  stages_of : List Stage → Params
  params_of : List (String × Param) → Params

-- `Job`
pub record Job : Type 0 where
  pub name : String
  pub kind : String
  pub params : Params
  pub restore_root : Option FilePath
  pub active : Bool

-- The `ConfigError`s.
pub data ConfigError : Type 0 where
  bad_history not_a_table unsupported_type removed_key bad_active bad_stages : ConfigError
  bad_restore_root no_history_section bad_path bad_rotation unknown_job unreadable : ConfigError

pub data Result (A : Type 0) : Type 0 where
  ok : A → Result A
  config_error : ConfigError → Result A

infixl 5 ◌>>=◌ ◌>>◌
abbrev pub ◌>>=◌ : {A B : Type 0} → Result A → (A → Result B) → Result B
ok a >>= f = f a
config_error e >>= f = config_error e

abbrev pub ◌>>◌ : {B : Type 0} → Result (Unit {0}) → Result B → Result B
m >> k = m >>= λ _. k

abbrev pub raise_if : Bool → ConfigError → Result (Unit {0})
raise_if true e = config_error e
raise_if false e = ok tt

abbrev pub rules_ok : {A : Type 0} → ConfigError → Checked A → Result A
rules_ok e (Rules.ok a) = ok a
rules_ok e (Rules.invalid i) = config_error e

unfoldable pub get_entry : String → Section → Option Entry
get_entry k [] = none
get_entry k ((j, v) ∷ s) = if str_eq j k then some v else get_entry k s

abbrev pub has_key : String → Section → Bool
has_key k s = any_of (λ (e : String × Entry). str_eq e.0 k) s

abbrev pub without : List String → Section → Section
without ks s = keep_if (λ (e : String × Entry). not (any_of (str_eq e.0) ks)) s

abbrev pub keys_of : Section → List String
keys_of s = map (λ (e : String × Entry). e.0) s

-- A text that is not blank.
abbrev pub path_text : Option Entry → Option String
path_text (some (text s)) = if is_empty (strip is_space s) then none else some s
path_text _ = none

-- `_REMOVED_KEYS`
unfoldable pub removed : String → Section → Bool
removed kind s =
    has_key "schedule" s
    || (has_key "apply" s && str_eq kind "gfs")
    || (has_key "jobs" s && str_eq kind "mysqldump")

-- The keys whose values are paths of the configuration.
abbrev pub is_path_key : String → Bool
is_path_key k = any_of (str_eq k) (
    "template_filename" ∷ "backup_dst" ∷ "chdir" ∷ "out_dir" ∷ "backup_root" ∷ "encrypt_key_file"
    ∷ [])

-- `supported_types`, for the names of the registered engines.
abbrev pub supported : List String → String → Bool
supported engines kind = any_of (str_eq kind) ("file" ∷ "gfs" ∷ engines)

-- The value of `active`, which is true where it is missing.
abbrev pub active_of : Option Entry → Result Bool
active_of none = ok true
active_of (some (boolean b)) = ok b
active_of (some _) = config_error bad_active

abbrev pub kind_of : Option Entry → Result String
kind_of (some (text t)) = ok t
kind_of _ = config_error unsupported_type

abbrev pub tables_of : Option Entry → Option (List (Option Table))
tables_of (some (tables ts)) = some ts
tables_of _ = none

-- What the file gives: `resolve` is `(base / Path(p).expanduser()).resolve()` for the file's
-- directory, `relative` the same without `resolve`, and `output` what the rules read of an engine's
-- job: its output, its retention and whether its archives are stamped.
pub record Setting : Type 0 where
  pub resolve : String → FilePath
  pub relative : String → FilePath
  pub engines : List String
  pub output : Job → Option FilePath × Option ℕ × Bool

pub record Loaded : Type 0 where
  pub history : Option HistorySettings
  pub jobs : List Job

abbrev pub database_of : Option HistorySettings → Option FilePath
database_of none = none
database_of (some h) = some h.database

-- The file: its `[history]` section, if it has one, and the other sections in their order.
pub record Data : Type 0 where
  pub history : Option (Option Section)
  pub sections : List (String × Option Section)

-- A job as the rules across jobs read it.
abbrev pub stages_in : Params → List Stage
stages_in (stages_of ss) = ss
stages_in (params_of ps) = []

module _ (c : Setting) where
  -- One of the two paths of `[history]`.
  unfoldable pub history_path : Option Entry → Result FilePath
  history_path e = elim (path_text e) [
    | none ↦ config_error bad_history
    | some s ↦ if str_eq s ":memory:" then config_error bad_history else ok (c.resolve s)
  ]

  abbrev pub or_default : Option Entry → String → Option Entry
  or_default none s = some (text s)
  or_default (some e) s = some e

  -- The `[history]` section; what is not a table is none.
  unfoldable pub load_history : Option Section → Result HistorySettings
  unfolding history_path get_entry
  load_history none = config_error bad_history
  load_history (some s) = do
    raise_if (any_of (λ k. not (str_eq k "database" || str_eq k "restore_root")) (keys_of s))
        bad_history
    d ← history_path (get_entry "database" s)
    r ← history_path (or_default (get_entry "restore_root" s) "restores")
    ok (record { database = d; restore_root = r })

  -- The parameters of an engine's job.
  unfoldable pub load_params : Section → Result (List (String × Param))
  load_params [] = ok []
  load_params ((k, v) ∷ s) = do
    p ←
        if is_path_key k
        then elim v [ text t ↦ ok (path (c.relative t)) | _ ↦ config_error bad_path ]
        else ok (plain v)
    rest ← load_params s
    ok ((k, p) ∷ rest)

  unfoldable pub load_restore_root : Option HistorySettings → Section → Result (Option FilePath)
  unfolding get_entry
  load_restore_root history s =
      if has_key "restore_root" s
      then elim (path_text (get_entry "restore_root" s)) [
        | none ↦ config_error bad_restore_root
        | some t ↦ elim history [
          | none ↦ config_error no_history_section
          | some h ↦ ok (some (c.resolve t))
        ]
      ]
      else ok none

  unfoldable pub load_gfs : String → Bool → Section → Result Job
  unfolding get_entry parse_gfs_job
  load_gfs name active s = do
    ss ← rules_ok bad_stages (parse_gfs_job c.resolve (keys_of s) (tables_of (get_entry "stage" s)))
    ok (record {
      name = name;
      kind = "gfs";
      params = stages_of ss;
      restore_root = none;
      active = active;
    })

  unfoldable pub load_engine :
      Option HistorySettings → String → String → Bool → Section → Result Job
  unfolding load_restore_root load_params
  load_engine history name kind active s = do
    root ← load_restore_root history s
    ps ← load_params (without ("type" ∷ "restore_root" ∷ []) s)
    ok (record {
      name = name;
      kind = kind;
      params = params_of ps;
      restore_root = root;
      active = active;
    })

  -- The body of the loop of `_load` over the sections.
  unfoldable pub load_job : Option HistorySettings → String → Option Section → Result Job
  unfolding removed load_gfs load_engine get_entry
  load_job history name none = config_error not_a_table
  load_job history name (some s) = do
    kind ← kind_of (get_entry "type" s)
    raise_if (not (supported c.engines kind)) unsupported_type
    raise_if (removed kind s) removed_key
    active ← active_of (get_entry "active" s)
    if str_eq kind "gfs"
        then load_gfs name active (without ("active" ∷ []) s)
        else load_engine history name kind active (without ("active" ∷ []) s)

  unfoldable pub load_jobs :
      Option HistorySettings → List (String × Option Section) → Result (List Job)
  unfolding load_job
  load_jobs history [] = ok []
  load_jobs history ((name, s) ∷ rest) = do
    j ← load_job history name s
    js ← load_jobs history rest
    ok (j ∷ js)

  unfoldable pub view : Job → Rules.Job
  view j =
      let (output, retention, stamped) = c.output j in
      record {
        name = j.name;
        kind = j.kind;
        stage = stages_in j.params;
        output = output;
        retention_days = retention;
        is_timestamped = stamped;
      }

  abbrev pub some_history : Option (Option Section) → Result (Option HistorySettings)
  some_history none = ok none
  some_history (some s) = load_history s >>= λ h. ok (some h)

  -- `Config._load`, with none where the file is missing or cannot be read. `check_gfs_config` does
  -- nothing where there is no rotation.
  unfoldable pub load : Option Data → Result Loaded
  unfolding load_history load_jobs view check_gfs_config
  load none = config_error unreadable
  load (some d) = do
    history ← some_history d.history
    js ← load_jobs history d.sections
    u ← rules_ok bad_rotation (check_gfs_config (map view js) (database_of history))
    ok (record { history = history; jobs = js })

-- `Config.get`
unfoldable pub get : String → List Job → Result Job
get name [] = config_error unknown_job
get name (j ∷ js) = if str_eq j.name name then ok j else get name js
