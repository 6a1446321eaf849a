-- ===== src/Tests/Physical.antt =====
-- Chains of physical backups, and the configuration of the rotation.
use bdbackup.Base.{
  ℕ, ◌≡◌, refl, ◌<◌, ◌-◌, ◌⊎◌, ◌≢◌, true, false, Option, none, some, List, [], ◌∷◌, String, In, All,
  length, Perm,
}
use bdbackup.Base.FilePath.{FilePath, path_eq, is_relative_to}
use bdbackup.Mysql.XtraBackup.{
  BackupDir, BackupType, Checkpoints, Metadata, full_backuped, incremental, log_applied, ok, chain,
  Produced, pending, with_metadata,
}
use bdbackup.Mysql.XtraBackup.Dates.{DateDir, latest_date_dir, latest_full, prune}
use bdbackup.Mysql.XtraBackup.Chain.{IsLinked, IsIncrementalOf, committed, chain-IsLinked}
use bdbackup.Mysql.XtraBackup.Prepare.{
  Surroundings, Destination, Recovered, decompress, apply, prepare,
}
use bdbackup.Mysql.XtraBackup.Prepare.Replay.{IsRecovery, prepare-IsRecovery}
use bdbackup.Mysql.XtraBackup.Expiry.{prune-removes}
use bdbackup.Gfs.Stages.{Stage, days, weeks, daily, weekly}
use bdbackup.Gfs.Config.{scalar, array, text, Table, Job, parse_gfs_job, check_gfs_config}
use bdbackup.Gfs.Config.Rules.{
  IsGraded, Separate, parse_gfs_job-IsGraded, check_gfs_config-Separate,
}

abbrev checkpoints_of : ℕ → ℕ → BackupType → Checkpoints
checkpoints_of a b t = record { from_lsn = a; to_lsn = b; backup_type = t }

abbrev metadata_of : Option FilePath → BackupType → ℕ → ℕ → Metadata
metadata_of p k a b = record {
  schema = 1;
  kind = k;
  full = "Full_1" ∷ [];
  parent = p;
  encrypted = false;
  key_id = none;
  from_lsn = a;
  to_lsn = b;
}

abbrev backup_dir : String → Option FilePath → BackupType → ℕ → ℕ → BackupDir
backup_dir n p k a b = record {
  path = n ∷ [];
  name = n;
  is_hidden = false;
  is_plain_dir = true;
  checkpoints_file = some (checkpoints_of a b k);
  metadata_file = some (metadata_of p k a b);
}

abbrev full_1 : BackupDir
full_1 = backup_dir "Full_1" none full_backuped 0 10

abbrev one_incremental : BackupDir
one_incremental = backup_dir "x" (some ("Full_1" ∷ [])) incremental 10 20

abbrev another : BackupDir
another = backup_dir "y" (some ("x" ∷ [])) incremental 20 30

chain-IsLinked_example :
    IsLinked full_1 (one_incremental ∷ another ∷ [])
    × Perm (committed (another ∷ one_incremental ∷ [])) (one_incremental ∷ another ∷ [])
    × All (IsIncrementalOf ("Full_1" ∷ [])) (one_incremental ∷ another ∷ [])
unfolding chain path_eq
chain-IsLinked_example =
    chain-IsLinked full_1 (another ∷ one_incremental ∷ []) (one_incremental ∷ another ∷ []) refl

abbrev made : Produced
made = record {
  tool_ok = true;
  has_encrypted_files = false;
  checkpoints_file = some (checkpoints_of 30 40 incremental);
  can_publish = true;
}

abbrev published : BackupDir
published =
    with_metadata (pending ("z" ∷ []) "z" made) false none ("Full_1" ∷ []) (some another)
      (checkpoints_of 30 40 incremental)

abbrev date_dir : String → ℕ → DateDir
date_dir n d = record {
  name = n;
  is_plain_dir = true;
  is_date_name = true;
  day = some d;
  has_success = true;
  latest = some full_1;
  latest_inside = true;
}

abbrev retention : ℕ
retention = 2

prune-removes_example :
    ((retention ≡ 0) × (date_dir "2024-01-01" 100 ∷ [] ≡ []))
    ⊎ ((newest : DateDir) × (full : BackupDir) × (latest_date_dir
            (date_dir "2024-01-01" 100 ∷ date_dir "2024-01-05" 104 ∷ [])
          ≡ some newest)
        × (latest_full (date_dir "2024-01-01" 100 ∷ date_dir "2024-01-05" 104 ∷ []) ≡ ok full)
        × ((d : DateDir)
            → In d (date_dir "2024-01-01" 100 ∷ [])
            → In d (date_dir "2024-01-01" 100 ∷ date_dir "2024-01-05" 104 ∷ [])
              × (d.name ≢ newest.name)
              × (d.has_success ≡ true)
              × ((day : ℕ) × (d.day ≡ some day) × (day < 105 - (retention - 1)))))
unfolding prune
prune-removes_example =
    prune-removes retention 105 (date_dir "2024-01-01" 100 ∷ date_dir "2024-01-05" 104 ∷ [])
      (date_dir "2024-01-01" 100 ∷ []) refl

abbrev table : String → String → String → Table
table path period keep =
    ("paths", array (text path ∷ []))
    ∷ ("period", scalar (text period))
    ∷ ("keep", scalar (text keep))
    ∷ []

abbrev two_stages : List Stage
two_stages =
    record { paths = ("/a" ∷ []) ∷ []; period = daily; keep = record { count = 7; unit = days } }
    ∷ record {
      paths = ("/b" ∷ []) ∷ [];
      period = weekly;
      keep = record { count = 5; unit = weeks };
    }
    ∷ []

parse_gfs_job-IsGraded_example : IsGraded none two_stages × (length two_stages ≡ 2)
unfolding parse_gfs_job
parse_gfs_job-IsGraded_example =
    parse_gfs_job-IsGraded (λ s. s ∷ []) ("type" ∷ "stage" ∷ [])
      (some (table "/a" "daily" "7d") ∷ some (table "/b" "weekly" "5w") ∷ []) two_stages refl

abbrev two_jobs : List Job
two_jobs =
    record {
      name = "gfs";
      kind = "gfs";
      stage = two_stages;
      output = none;
      retention_days = none;
      is_timestamped = false;
    }
    ∷ record {
      name = "db";
      kind = "xtrabackup";
      stage = [];
      output = some ("/a" ∷ "db" ∷ []);
      retention_days = some 0;
      is_timestamped = false;
    }
    ∷ []

check_gfs_config-Separate_example :
    Separate (("/a" ∷ []) ∷ ("/b" ∷ []) ∷ [])
    × All (λ p. is_relative_to ("/var" ∷ []) p ≡ false) (("/a" ∷ []) ∷ ("/b" ∷ []) ∷ [])
unfolding check_gfs_config
check_gfs_config-Separate_example = check_gfs_config-Separate two_jobs ("/var" ∷ []) refl

abbrev surroundings : Surroundings
surroundings = record {
  copies = λ d. true;
  symlinks = λ d. false;
  xbcrypt = λ d. false;
  xbcrypt_left = λ d. false;
  compressed = λ d. path_eq d.path ("x" ∷ []);
  exits_0 = λ log c. true;
  left = λ log. some (checkpoints_of 0 30 log_applied);
  key_id = none;
  check = λ ds. true;
  root_free = true;
  destination_free = true;
  is_mariadb = false;
}

abbrev fresh_destination : Destination
fresh_destination = record {
  exists = false;
  is_link = false;
  in_root = false;
  exists_later = false;
}

abbrev recovered : Recovered
recovered = record {
  sources = full_1 ∷ one_incremental ∷ another ∷ [];
  log = decompress 1 ∷ apply none true ∷ apply (some 1) true ∷ apply (some 2) false ∷ [];
}

prepare-IsRecovery_example :
    IsRecovery surroundings (λ p. some (full_1, another ∷ one_incremental ∷ [])) another recovered
unfolding prepare path_eq
prepare-IsRecovery_example =
    prepare-IsRecovery surroundings (λ p. some (full_1, another ∷ one_incremental ∷ [])) another
      fresh_destination recovered refl
