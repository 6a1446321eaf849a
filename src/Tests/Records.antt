-- ===== src/Tests/Records.antt =====
-- The history database.
use bdbackup.Base.{
  ℕ, ◌≡◌, ◌↔◌, refl, ap, arith, inl, Bool, true, false, Option, none, some, [], ◌∷◌, String, In,
}
use bdbackup.Base.FilePath.{FilePath, path_eq}
use bdbackup.Cli.Restoring.{
  Options, Answers, Chosen, restore, IsAsked, IsConfirmed, restore-IsConfirmed,
}
use bdbackup.Recovery.Destination.{
  suggested_destination, candidate, base_name, decimal, is_plain, dashed, take_chars,
  suggested_destination-some,
}
use bdbackup.Base.Strip.{strip}
use bdbackup.Ledger.{RestoreInfo, unit_path, IsUnit, unit_path-IsUnit}
use bdbackup.History.{Row, success, Database, Facts, run, record_all}
use bdbackup.History.Upgrades.{Upgraded, pieces_at, connect-Upgraded}
use bdbackup.History.Runs.{Outcome, run-Outcome, record_all-keeps}

abbrev file_info : RestoreInfo
file_info = record { kind = some "file"; backup_root = [] }

abbrev row : ℕ → Option String → Row
row i sum = record {
  id = i;
  job_name = "www";
  status = success;
  path = some ("a" ∷ []);
  size_bytes = some 5;
  identity = some "1,2";
  restore_info = file_info;
  error = none;
  unit = some ("a" ∷ []);
  checksum = sum;
}

abbrev database : ℕ → Database
database v = record {
  version = v;
  pieces = pieces_at v;
  rows = row 1 (some "aa") ∷ [];
  next_id = 2;
  units = [];
  members = [];
}

connect-Upgraded_example : (d : Database) × Upgraded (database 3) d
connect-Upgraded_example = connect-Upgraded (database 3) (ground arith) refl

abbrev facts : Facts
facts = record { path = "b" ∷ []; size_bytes = 6; identity = "3,4"; unit = "b" ∷ []; digest = "bb" }

abbrev identity_of : FilePath → Option String
identity_of p = some "3,4"

abbrev identity_in : Option Facts → Option String
identity_in none = none
identity_in (some f) = some f.identity

run-Outcome_example :
    Outcome identity_of
      (some facts)
      "OSError"
      (database 5)
      (run true true "www" file_info (some facts) "OSError" (database 5))
run-Outcome_example =
    run-Outcome identity_of "www" file_info (some facts) "OSError" (database 5) refl (refl, tt)
      (λ f e. ap identity_in e)

record_all-keeps_example :
    In
      (row 1 (some "aa"))
      (record_all identity_of
        (λ p. some "cc")
        (λ i rs. rs)
        (row 1 none ∷ [])
        (row 1 (some "aa") ∷ [])).1
record_all-keeps_example =
    record_all-keeps identity_of (λ p. some "cc") (λ i rs. rs) (row 1 (some "aa")) "aa"
      (row 1 none ∷ []) (row 1 (some "aa") ∷ []) refl (λ i rs m. m) (inl refl)

abbrev physical_info : RestoreInfo
physical_info = record { kind = some "xtrabackup"; backup_root = "db" ∷ [] }

unit_path-IsUnit_example :
    (unit_path ("db" ∷ "2024-01-05" ∷ "Full_1" ∷ []) physical_info
      ≡ some ("db" ∷ "2024-01-05" ∷ []))
    ↔ IsUnit ("db" ∷ "2024-01-05" ∷ "Full_1" ∷ []) physical_info ("db" ∷ "2024-01-05" ∷ [])
unit_path-IsUnit_example =
    unit_path-IsUnit ("db" ∷ "2024-01-05" ∷ "Full_1" ∷ []) ("db" ∷ "2024-01-05" ∷ []) physical_info

abbrev restore_options : Options
restore_options = record {
  backup_id = none;
  job = some "www";
  yes = false;
  dst = some ("new" ∷ []);
  has_key_file = false;
}

-- The user takes the newest record that is offered.
abbrev replies : Answers
replies = record { pick = λ i. i; destination = λ p. p; confirms = true }

abbrev newest_row : Chosen
newest_row = record { row = row 2 none; destination = "new" ∷ [] }

restore-IsConfirmed_example :
    IsAsked restore_options (row 1 none ∷ row 2 none ∷ []) newest_row.row
    × IsConfirmed (λ r. true) (λ r. "file") (λ r. []) restore_options replies newest_row
    × (restore_options.backup_id ≡ none → replies.confirms ≡ true)
unfolding restore
restore-IsConfirmed_example =
    restore-IsConfirmed (λ r. true) (λ r. "file") (λ r. []) restore_options replies
      (row 1 none ∷ row 2 none ∷ []) newest_row refl

-- The first name is taken.
abbrev is_taken : FilePath → Bool
is_taken p = path_eq p ("root" ∷ "a-b-12" ∷ [])

suggested_destination-some_example :
    (p : FilePath) × (suggested_destination is_taken 2 ("root" ∷ []) "a b!" 12 ≡ some p)
    × (is_taken p ≡ false)
unfolding candidate base_name decimal path_eq is_plain strip dashed take_chars
suggested_destination-some_example =
    suggested_destination-some is_taken 2 ("root" ∷ []) "a b!" 12 1 refl (omega arith)
