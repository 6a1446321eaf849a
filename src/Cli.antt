-- ===== src/Cli.antt =====
-- bdbackup/cli.py: the option rules of `run` and `restore`, and the exit codes.
pub mod Restoring
use bdbackup.Base.{
  ℕ, ◌≡◌, Bool, true, false, not, ◌&&◌, ◌||◌, Option, none, some, String, str_eq, ◌<>◌,
  if◌then◌else◌, arith,
}

-- How a command ends: Click's usage error, which is the exit code 2, or a value.
pub data Usage (A : Type 0) : Type 0 where
  ok : A → Usage A
  usage_error : String → Usage A

infixl 5 ◌>>◌
abbrev pub ◌>>◌ : {A : Type 0} → Usage (Unit {0}) → Usage A → Usage A
ok tt >> k = k
usage_error e >> k = usage_error e

abbrev pub raise_if : Bool → String → Usage (Unit {0})
raise_if true e = usage_error e
raise_if false e = ok tt

-- The options of `restore`, by whether each is given.
pub record RestoreOptions : Type 0 where
  pub config : Bool
  pub backup_id : Bool
  pub job : Bool
  pub yes : Bool
  pub dst : Bool
  pub archive : Bool
  pub backup : Bool
  pub root : Bool
  pub binary : Bool
  pub encrypt_key_file : Bool

pub data Mode : Type 0 where
  history archive backup : Mode

-- `_restore_mode`
unfoldable pub restore_mode : RestoreOptions → Usage Mode
restore_mode o = do
  raise_if (o.archive && (o.backup || o.root)) "--archive and --backup cannot be combined"
  raise_if (o.backup && not o.root) "--backup requires --root"
  raise_if (o.root && not o.backup) "--root requires --backup"
  if not o.archive && not o.backup
      then (do raise_if o.binary "--binary applies only to --backup"; ok history)
      else (do
        raise_if o.config "--config applies only to history restores"
        raise_if (o.backup_id || o.job || o.yes)
            "--backup-id, --job and --yes apply only to history restores"
        raise_if (o.archive && o.binary) "--binary applies only to --backup"
        raise_if (o.archive && o.encrypt_key_file) "--encrypt-key-file does not apply to --archive"
        raise_if (not o.dst) "Provide --dst for --archive and --backup"
        ok (if o.archive then archive else backup))

-- The options of `run`; `verify_given` says that --verify or --no-verify was written.
pub record RunOptions : Type 0 where
  pub job : Bool
  pub full : Bool
  pub incremental : Bool
  pub verify : Bool
  pub verify_given : Bool
  pub dry_run : Bool
  pub validate_only : Bool
  pub initialize : Bool

abbrev verify_flag : Bool → String
verify_flag b = if b then "--verify" else "--no-verify"

-- The rules at the head of `run`, before the configuration is read.
unfoldable pub check_run : RunOptions → Usage (Unit {0})
check_run o = do
  if o.initialize
      then (do
        raise_if o.full "--initialize-structure cannot be combined with --full"
        raise_if o.incremental "--initialize-structure cannot be combined with --incremental"
        raise_if o.verify_given
            ("--initialize-structure cannot be combined with " <> verify_flag o.verify)
        raise_if o.dry_run "--initialize-structure cannot be combined with --dry-run"
        raise_if o.validate_only "--initialize-structure cannot be combined with --validate"
        raise_if (not o.job) "--initialize-structure requires --job NAME")
      else ok tt
  raise_if (o.full && o.incremental) "Choose --full or --incremental, not both"
  if o.validate_only
      then (do
        raise_if o.full "--validate cannot be combined with --full"
        raise_if o.incremental "--validate cannot be combined with --incremental"
        raise_if o.verify_given ("--validate cannot be combined with " <> verify_flag o.verify)
        raise_if o.dry_run "--validate cannot be combined with --dry-run")
      else ok tt
  raise_if (o.dry_run && o.verify_given) "--dry-run cannot be combined with --verify or --no-verify"

-- The job that --job names, as far as `run` reads it.
pub record Job : Type 0 where
  pub active : Bool
  pub kind : String

-- What a run goes on to do.
pub data Command : Type 0 where
  initialize_structure validate : Command
  gfs_run dry_run backup_run : Command

-- The rest of `run` up to the work, its messages without the names; `job` is none without --job, and `some none` where the
-- configuration has no such job.
unfoldable pub choose : RunOptions → Option (Option Job) → Bool → Usage Command
choose o job has_jobs = elim job [
  | none ↦
      if o.initialize
      then usage_error "--initialize-structure requires --job NAME"
      else if o.validate_only
      then (if has_jobs then ok validate else usage_error "No configured jobs selected")
      else usage_error "Provide --job NAME or --validate"
  | some none ↦ usage_error "unknown job"
  | some (some j) ↦
      if not j.active
      then usage_error "the job is inactive"
      else if o.initialize
      then (if str_eq j.kind "gfs"
          then ok initialize_structure
          else usage_error "--initialize-structure applies only to gfs jobs")
      else if o.validate_only
      then ok validate
      else if o.incremental && not (str_eq j.kind "xtrabackup")
      then usage_error "--incremental applies only to xtrabackup jobs"
      else if str_eq j.kind "gfs"
      then ok gfs_run
      else if o.dry_run
      then ok Command.dry_run
      else ok backup_run
]

-- `run`'s rules, in order.
unfoldable pub plan : RunOptions → Option (Option Job) → Bool → Usage Command
unfolding check_run choose
plan o job has_jobs = check_run o >> choose o job has_jobs

-- The exceptions that `_handle_errors` tells apart.
pub data Raised : Type 0 where
  click_error : ℕ → Raised
  blocking config_error template_error value_error type_error : Raised
  backup_error called_process other : Raised

-- `_handle_errors`: the exit code for how the body ends; Click's own errors bring their code.
unfoldable pub handle_errors : Option Raised → ℕ
handle_errors none = 0
handle_errors (some (click_error code)) = code
handle_errors (some blocking) = 3
handle_errors (some config_error) = 2
handle_errors (some template_error) = 2
handle_errors (some value_error) = 2
handle_errors (some type_error) = 2
handle_errors (some backup_error) = 1
handle_errors (some called_process) = 1
handle_errors (some other) = 1

-- The options of each mode.
abbrev pub Fits : RestoreOptions → Mode → Type 0
Fits o history = (o.archive ≡ false) × (o.backup ≡ false) × (o.root ≡ false) × (o.binary ≡ false)
Fits o archive =
    (o.dst ≡ true)
    × (o.archive ≡ true)
    × (o.backup ≡ false)
    × (o.root ≡ false)
    × (o.binary ≡ false)
    × (o.encrypt_key_file ≡ false)
    × (o.config ≡ false)
    × (o.backup_id ≡ false)
    × (o.job ≡ false)
    × (o.yes ≡ false)
Fits o backup =
    (o.dst ≡ true)
    × (o.archive ≡ false)
    × (o.backup ≡ true)
    × (o.root ≡ true)
    × (o.config ≡ false)
    × (o.backup_id ≡ false)
    × (o.job ≡ false)
    × (o.yes ≡ false)

-- The modes of a restore never mix. If `_restore_mode` accepts the options: a mode other than history has a destination and takes none of
-- --config, --backup-id, --job and --yes; the mode archive takes --archive and none of --backup,
-- --root, --binary and --encrypt-key-file; the mode backup takes --backup and --root but not
-- --archive; the mode history takes none of --archive, --backup, --root and --binary.
pub restore_mode-Fits : (o : RestoreOptions) (m : Mode) → restore_mode o ≡ ok m → Fits o m
unfolding restore_mode
restore_mode-Fits o history h = (ground arith, ground arith, ground arith, ground arith)
restore_mode-Fits o archive h = (
  ground arith,
  ground arith,
  ground arith,
  ground arith,
  ground arith,
  ground arith,
  ground arith,
  ground arith,
  ground arith,
  ground arith,
)
restore_mode-Fits o backup h = (
  ground arith,
  ground arith,
  ground arith,
  ground arith,
  ground arith,
  ground arith,
  ground arith,
  ground arith,
)
