-- ===== src/Gfs/Store/Steps.antt =====
-- bdbackup/gfs/store.py: the tables under any sequence of operations of the store.
use bdbackup.Base.{ℕ, ◌≡◌, Bool, Option, none, some, List, String}
use bdbackup.Gfs.Store.{
  Location, BackupRecord, ManagedUnit, Tables, Counts, record_unit, record_move, record_delete,
  record_members, begin_run, finish_run, fail_run,
}

-- One operation of the store, or a change of the history's rows by the engines.
pub data Step : Tables → Tables → Type 0 where
  unit_recorded :
      (db db' : Tables) (u : ManagedUnit) (i : ℕ) → record_unit db u ≡ some (i, db') → Step db db'
  move_recorded :
      (db db' : Tables) (i : ℕ) (new removed : List Location)
      → record_move db i new removed ≡ some db'
      → Step db db'
  delete_recorded : (db : Tables) (i : ℕ) → Step db (record_delete db i)
  members_recorded : (db : Tables) (seen : List (ℕ × Bool)) → Step db (record_members db seen)
  run_begun : (db : Tables) (job : String) → Step db (begin_run db job).1
  run_finished :
      (db : Tables) (i code : ℕ) (counts : Counts) → Step db (finish_run db i code counts)
  run_failed : (db : Tables) (i : ℕ) → Step db (fail_run db i)
  records_changed : (db : Tables) (rs : List BackupRecord) → Step db (record db { records = rs })

pub data Reach (start : Tables) : Tables → Type 0 where
  here : Reach start start
  next : {db db' : Tables} → Reach start db → Step db db' → Reach start db'

-- The tables inside an optional result.
abbrev pub result_or : {A : Type 0} → A → Option A → A
result_or a none = a
result_or a (some b) = b
