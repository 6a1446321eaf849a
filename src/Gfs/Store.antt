-- ===== src/Gfs/Store.antt =====
-- bdbackup/gfs/store.py: the rotation's tables of the history database and their operations.
-- A function of the database takes the tables and returns them; `none` is a rolled back
-- transaction. Times are instants, and a path stands for its text.
pub mod Steps
pub mod Load
pub mod Laws
pub mod View
pub mod Effects
use bdbackup.Base.{
  ℕ, suc, ◌+◌, Bool, true, false, not, ◌&&◌, ◌||◌, Option, none, some, List, [], ◌∷◌, ◌++◌, map,
  String, str_eq, str_lt, ltb, ◌==◌, if◌then◌else◌, any_of, all_of, keep_if, length, min,
}
use bdbackup.Base.FilePath.{FilePath, path_eq, is_relative_to, relative_to}

pub record Location : Type 0 where
  pub stage_path : FilePath
  pub path : FilePath

pub data Status : Type 0 where
  running success failed : Status

-- A row of `backup_runs`, with the columns that the rotation reads; a missing number is 0.
pub record BackupRecord : Type 0 where
  pub id : ℕ
  pub job_name : String
  pub started_at : ℕ
  pub completed_at : ℕ
  pub status : Status
  pub path : Option FilePath
  pub size_bytes : ℕ
  pub identity : Option String
  pub kind : String
  pub unit : Option FilePath
  pub checksum : Option String

pub record ManagedUnit : Type 0 where
  pub id : Option ℕ
  pub unit : FilePath
  pub series : String
  pub relative : FilePath
  pub kind : String
  pub time : ℕ
  pub members : List BackupRecord
  pub locations : List Location
  pub size : ℕ

-- A row of `gfs_units`; `deleted` says whether `deleted_at` is set.
pub record UnitRow : Type 0 where
  pub id : ℕ
  pub unit : FilePath
  pub series : String
  pub relative : FilePath
  pub deleted : Bool

-- A row of `gfs_locations`.
pub record LocationRow : Type 0 where
  pub unit_id : ℕ
  pub location : Location

pub data RunStatus : Type 0 where
  running completed failed : RunStatus

pub record Counts : Type 0 where
  pub moved : ℕ
  pub deleted : ℕ
  pub held : ℕ
  pub deferred : ℕ
  pub refused : ℕ
  pub failed : ℕ
  pub unmanaged : ℕ

-- A row of `gfs_runs`.
pub record RunRow : Type 0 where
  pub id : ℕ
  pub gfs_job : String
  pub status : RunStatus
  pub exit_code : Option ℕ
  pub counts : Option Counts

-- The tables. `next_unit` and `next_run` are what AUTOINCREMENT gives next.
pub record Tables : Type 0 where
  pub records : List BackupRecord
  pub units : List UnitRow
  pub locations : List LocationRow
  pub members : List (ℕ × Bool)
  pub runs : List RunRow
  pub next_unit : ℕ
  pub next_run : ℕ

-- `artifact_identity(path)`, with `none` for its `OSError`.
abbrev pub Identities : Type 0
Identities = FilePath → Option String

abbrev pub is_success : Status → Bool
is_success Status.success = true
is_success _ = false

abbrev pub is_running : Status → Bool
is_running Status.running = true
is_running _ = false

-- `BackupRecord.available`
unfoldable pub record_available : Identities → BackupRecord → Bool
record_available identity_of r = is_success r.status && (elim r.path [
  | none ↦ false
  | some p ↦ elim (identity_of p) [
    | none ↦ false
    | some i ↦ elim r.identity [ none ↦ false | some j ↦ str_eq i j ]
  ]
])

abbrev pub lookup : {A : Type 0} → ℕ → List (ℕ × A) → Option A
lookup k [] = none
lookup k ((j, v) ∷ m) = if k == j then some v else lookup k m

-- The row of `gfs_units` for a unit path.
unfoldable pub unit_row : FilePath → List UnitRow → Option UnitRow
unit_row p [] = none
unit_row p (r ∷ rs) = if path_eq p r.unit then some r else unit_row p rs

unfoldable pub locations_of : ℕ → List LocationRow → List Location
locations_of i [] = []
locations_of i (r ∷ rs) =
    if r.unit_id == i then r.location ∷ locations_of i rs else locations_of i rs

-- `INSERT INTO gfs_locations`: a path is UNIQUE.
unfoldable pub insert_locations : ℕ → List Location → List LocationRow → Option (List LocationRow)
insert_locations i [] rows = some rows
insert_locations i (l ∷ ls) rows =
    if any_of (λ r. path_eq r.location.path l.path) rows
    then none
    else insert_locations i ls (rows ++ (record { unit_id = i; location = l } ∷ []))

-- `record_unit`: the unit's path is UNIQUE.
unfoldable pub record_unit : Tables → ManagedUnit → Option (ℕ × Tables)
unfolding insert_locations
record_unit db u =
    if any_of (λ r. path_eq r.unit u.unit) db.units
    then none
    else elim (insert_locations db.next_unit u.locations db.locations) [
      | none ↦ none
      | some rows ↦ some (
        db.next_unit,
        record db {
          units =
              db.units
              ++ (record {
                id = db.next_unit;
                unit = u.unit;
                series = u.series;
                relative = u.relative;
                deleted = false;
              }
                  ∷ []);
          locations = rows;
          next_unit = suc db.next_unit;
        },
      )
    ]

-- `record_members`: `INSERT OR IGNORE`, one judgment after the other.
unfoldable pub insert_members : List (ℕ × Bool) → List (ℕ × Bool) → List (ℕ × Bool)
insert_members [] rows = rows
insert_members ((i, a) ∷ seen) rows =
    insert_members seen (elim (lookup i rows) [ none ↦ rows ++ ((i, a) ∷ []) | some _ ↦ rows ])

unfoldable pub record_members : Tables → List (ℕ × Bool) → Tables
unfolding insert_members
record_members db seen = record db { members = insert_members seen db.members }

-- `DELETE FROM gfs_locations WHERE unit_id=? AND path=?` for each removed location.
unfoldable pub delete_locations : ℕ → List Location → List LocationRow → List LocationRow
delete_locations i removed rows =
    keep_if (λ r. not ((r.unit_id == i) && any_of (λ l. path_eq r.location.path l.path) removed))
      rows

-- `record_move`, one transaction.
unfoldable pub record_move : Tables → ℕ → List Location → List Location → Option Tables
unfolding insert_locations delete_locations
record_move db i new removed = elim (insert_locations i new db.locations) [
  | none ↦ none
  | some rows ↦ some (record db { locations = delete_locations i removed rows })
]

abbrev pub mark_deleted : ℕ → List UnitRow → List UnitRow
mark_deleted i [] = []
mark_deleted i (r ∷ rs) = (if r.id == i then record r { deleted = true } else r) ∷ mark_deleted i rs

-- `record_delete`
unfoldable pub record_delete : Tables → ℕ → Tables
record_delete db i = record db {
  locations = keep_if (λ r. not (r.unit_id == i)) db.locations;
  units = mark_deleted i db.units;
}

-- `begin_run`
unfoldable pub begin_run : Tables → String → ℕ × Tables
begin_run db job = (
  db.next_run,
  record db {
    runs =
        db.runs
        ++ (record {
          id = db.next_run;
          gfs_job = job;
          status = RunStatus.running;
          exit_code = none;
          counts = none;
        }
            ∷ []);
    next_run = suc db.next_run;
  },
)

abbrev pub update_run : ℕ → (RunRow → RunRow) → List RunRow → List RunRow
update_run i f [] = []
update_run i f (r ∷ rs) = (if r.id == i then f r else r) ∷ update_run i f rs

-- `finish_run`
unfoldable pub finish_run : Tables → ℕ → ℕ → Counts → Tables
finish_run db i code counts = record db {
  runs =
      update_run i
        (λ r. record r {
          status = RunStatus.completed;
          exit_code = some code;
          counts = some counts;
        })
        db.runs;
}

-- `fail_run`
unfoldable pub fail_run : Tables → ℕ → Tables
fail_run db i = record db {
  runs = update_run i (λ r. record r { status = RunStatus.failed }) db.runs;
}

-- `running_backups`: job name -> (id, start) of its oldest backup still running.
unfoldable pub running_backups : List BackupRecord → String → Option (ℕ × ℕ)
running_backups [] job = none
running_backups (r ∷ rs) job =
    if is_running r.status && str_eq r.job_name job
    then some (r.id, r.started_at)
    else running_backups rs job
