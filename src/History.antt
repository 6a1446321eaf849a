-- ===== src/History.antt =====
-- bdbackup/history.py: the schema of the history database, a tracked run and the later checksums.
-- A connection is one transaction: `none` leaves the database as it was.
pub mod Listing
pub mod Upgrades
pub mod Runs
use bdbackup.Base.{
  ℕ, suc, ◌+◌, Bool, true, false, not, ◌&&◌, ◌||◌, Option, none, some, List, [], ◌∷◌, ◌++◌, String,
  str_eq, ltb, leb, ◌==◌, if◌then◌else◌, any_of,
}
use bdbackup.Base.FilePath.{FilePath, path_eq}
use bdbackup.Ledger.{RestoreInfo, unit_path}

pub data Status : Type 0 where
  running success failed : Status

-- A row of `backup_runs`, without its times, its type and its encryption flag.
pub record Row : Type 0 where
  pub id : ℕ
  pub job_name : String
  pub status : Status
  pub path : Option FilePath
  pub size_bytes : Option ℕ
  pub identity : Option String
  pub restore_info : RestoreInfo
  pub error : Option String
  pub unit : Option FilePath
  pub checksum : Option String

-- What the schema may hold: the tables, and the columns that were added to one later.
pub data Piece : Type 0 where
  backup_runs gfs_units gfs_locations gfs_steps gfs_members gfs_runs : Piece
  encrypted unit_column checksum_column identities run_id : Piece

abbrev pub number : Piece → ℕ
number backup_runs = 0
number gfs_units = 1
number gfs_locations = 2
number gfs_steps = 3
number gfs_members = 4
number gfs_runs = 5
number encrypted = 6
number unit_column = 7
number checksum_column = 8
number identities = 9
number run_id = 10

-- The database. `units` are the paths of `gfs_units`, `members` the rows of `gfs_members`, and
-- `next_id` what AUTOINCREMENT gives the next row of `backup_runs`.
pub record Database : Type 0 where
  pub version : ℕ
  pub pieces : List Piece
  pub rows : List Row
  pub next_id : ℕ
  pub units : List FilePath
  pub members : List (ℕ × Bool)

abbrev pub has : Piece → Database → Bool
has p db = any_of (λ q. number p == number q) db.pieces

-- `CREATE TABLE`, and `ALTER TABLE … ADD COLUMN`.
unfoldable pub create_table : Piece → Database → Option Database
create_table p db = if has p db then none else some (record db { pieces = db.pieces ++ (p ∷ []) })

unfoldable pub add_column : Piece → Piece → Database → Option Database
add_column table p db =
    if has table db && not (has p db)
    then some (record db { pieces = db.pieces ++ (p ∷ []) })
    else none

abbrev pub is_success : Status → Bool
is_success success = true
is_success _ = false

abbrev pub in_units : List FilePath → Row → Bool
in_units units r = elim r.unit [ none ↦ false | some u ↦ any_of (path_eq u) units ]

-- `INSERT INTO gfs_members … JOIN gfs_units ON gfs_units.unit = backup_runs.unit`
unfoldable pub managed_rows : List FilePath → List Row → List (ℕ × Bool)
managed_rows units [] = []
managed_rows units (r ∷ rs) =
    let rest = managed_rows units rs in
    if is_success r.status && in_units units r then (r.id, true) ∷ rest else rest

-- `PRAGMA user_version = …`
abbrev pub set_version : ℕ → Database → Option Database
set_version v db = some (record db { version = v })

infixl 5 ◌>=>◌
abbrev pub ◌>=>◌ :
    (Database → Option Database) → (Database → Option Database) → Database → Option Database
◌>=>◌ f g db = elim (f db) [ none ↦ none | some d ↦ g d ]

-- The five steps of the ladder.
unfoldable pub to_1 : Database → Option Database
unfolding create_table
to_1 = create_table backup_runs >=> set_version 1

unfoldable pub to_2 : Database → Option Database
unfolding add_column
to_2 = add_column backup_runs encrypted >=> set_version 2

unfoldable pub to_3 : Database → Option Database
unfolding add_column
to_3 =
    add_column backup_runs unit_column >=> add_column backup_runs checksum_column >=> set_version 3

unfoldable pub to_4 : Database → Option Database
unfolding create_table
to_4 =
    create_table gfs_units
    >=> create_table gfs_locations
    >=> create_table gfs_steps
    >=> set_version 4

unfoldable pub to_5 : Database → Option Database
unfolding create_table add_column managed_rows
to_5 =
    add_column gfs_locations identities
    >=> create_table gfs_members
    >=> create_table gfs_runs
    >=> add_column gfs_steps run_id
    >=> (λ db. some (record db { members = db.members ++ managed_rows db.units db.rows }))
    >=> set_version 5

-- `if create and schema in (…)`
abbrev pub step_if : Bool → (Database → Option Database) → Database → Option Database
step_if true f db = f db
step_if false f db = some db

unfoldable pub upgrade : ℕ → Database → Option Database
unfolding to_1 to_2 to_3 to_4 to_5
upgrade schema =
    step_if (schema == 0) to_1
    >=> step_if (leb schema 1) to_2
    >=> step_if (leb schema 2) to_3
    >=> step_if (leb schema 3) to_4
    >=> step_if (leb schema 4) to_5

-- `_connect` up to its `yield`, for a file that exists.
unfoldable pub connect : Bool → Database → Option Database
unfolding upgrade
connect create db =
    if not (leb db.version 5) || (not create && (db.version == 0))
    then none
    else if create
    then upgrade db.version db
    else some db

-- What a finished action yields, up to the checksum; any exception on the way gives none.
pub record Facts : Type 0 where
  pub path : FilePath
  pub size_bytes : ℕ
  pub identity : String
  pub unit : FilePath
  pub digest : String

-- How a tracked run ends: it returns, raises the action's exception, or a `HistoryError`.
pub data Ended : Type 0 where
  returned raised history_error : Ended

abbrev pub started : Database → String → RestoreInfo → Row
started db job info = record {
  id = db.next_id;
  job_name = job;
  status = running;
  path = none;
  size_bytes = none;
  identity = none;
  restore_info = info;
  error = none;
  unit = none;
  checksum = none;
}

-- `INSERT INTO backup_runs`
unfoldable pub insert_run : Database → String → RestoreInfo → Database
insert_run db job info = record db {
  rows = db.rows ++ (started db job info ∷ []);
  next_id = suc db.next_id;
}

-- `UPDATE backup_runs … WHERE id=?`
unfoldable pub update_row : ℕ → (Row → Row) → List Row → List Row
update_row i f [] = []
update_row i f (r ∷ rs) = (if r.id == i then f r else r) ∷ update_row i f rs

abbrev pub mark_failed : String → Row → Row
mark_failed name r = record r { status = failed; error = some name }

abbrev pub mark_success : Facts → Row → Row
mark_success f r = record r {
  status = success;
  path = some f.path;
  size_bytes = some f.size_bytes;
  identity = some f.identity;
  unit = some f.unit;
  checksum = some f.digest;
}

-- The last connection of a run; `can_write` says whether it works.
abbrev pub close_run : Bool → Database → ℕ → (Row → Row) → Ended → Ended × Database
close_run can_write db i f e = elim (connect true db) [
  | none ↦ (history_error, db)
  | some d ↦
      if can_write then (e, record d { rows = update_row i f d.rows }) else (history_error, db)
]

-- `History.run`. The two flags say whether the first and the last connection work.
unfoldable pub run :
    Bool → Bool → String → RestoreInfo → Option Facts → String → Database → Ended × Database
unfolding connect insert_run update_row
run can_start can_write job info facts exception db = elim (connect true db) [
  | none ↦ (history_error, db)
  | some d ↦ if not can_start then (history_error, db) else elim facts [
    | none ↦ close_run can_write (insert_run d job info) d.next_id (mark_failed exception) raised
    | some f ↦ close_run can_write (insert_run d job info) d.next_id (mark_success f) returned
  ]
]

-- `BackupRecord.available`, for the identities on the disk.
unfoldable pub is_available : (FilePath → Option String) → Row → Bool
is_available identity_of r = is_success r.status && (elim r.path [
  | none ↦ false
  | some p ↦ elim (identity_of p) [
    | none ↦ false
    | some i ↦ elim r.identity [ none ↦ false | some j ↦ str_eq i j ]
  ]
])

pub data Recorded : Type 0 where
  recorded unavailable unexpected_unit : Recorded

-- The records that `record_checksums` selects, oldest first.
abbrev pub of_job : Option String → Row → Bool
of_job none r = true
of_job (some j) r = str_eq r.job_name j

unfoldable pub without_checksum : Option String → List Row → List Row
without_checksum job [] = []
without_checksum job (r ∷ rs) =
    let rest = without_checksum job rs in
    if is_success r.status && (elim r.checksum [ none ↦ true | some _ ↦ false ]) && of_job job r
    then r ∷ rest
    else rest

abbrev pub fill : FilePath → String → Row → Row
fill u digest r = elim r.checksum [
  | none ↦ record r { unit = some u; checksum = some digest }
  | some _ ↦ r
]

module _ (identity_of checksum_of : FilePath → Option String) where
  -- The loop's body for one record; the update tests the checksum of the row as it is then.
  unfoldable pub record_checksum : Row → List Row → Recorded × List Row
  unfolding is_available unit_path update_row
  record_checksum r rows =
      if not (is_available identity_of r) then (unavailable, rows) else elim r.path [
        | none ↦ (unavailable, rows)
        | some p ↦ elim (unit_path p r.restore_info) [
          | none ↦ (unexpected_unit, rows)
          | some u ↦ elim (checksum_of p) [
            | none ↦ (unexpected_unit, rows)
            | some digest ↦ (recorded, update_row r.id (fill u digest) rows)
          ]
        ]
      ]

  -- The loop. Between two records, another process may write: `meanwhile` says what.
  unfoldable pub record_all :
      (ℕ → List Row → List Row) → List Row → List Row → List (ℕ × Recorded) × List Row
  unfolding record_checksum
  record_all meanwhile [] rows = ([], rows)
  record_all meanwhile (r ∷ rs) rows =
      let (outcome, after) = record_checksum r (meanwhile r.id rows) in
      let (outcomes, end) = record_all meanwhile rs after in ((r.id, outcome) ∷ outcomes, end)

  -- `record_checksums`, behind its first connection.
  unfoldable pub record_checksums :
      (ℕ → List Row → List Row) → Option String → List Row → List (ℕ × Recorded) × List Row
  unfolding without_checksum record_all
  record_checksums meanwhile job rows = record_all meanwhile (without_checksum job rows) rows
