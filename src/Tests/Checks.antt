-- ===== src/Tests/Checks.antt =====
-- Validation: a file job and a dump that are ready.
use bdbackup.Base.{refl, inl, inr, true, false, none, some, [], ◌∷◌}
use bdbackup.FileBackup.{done}
use bdbackup.Validation.{Host, words, word}
use bdbackup.Validation.Grants.{Grant, logical, answers}
use bdbackup.Validation.Jobs.{Job, archive, database, validate_config}
use bdbackup.Validation.Passed.{Ready, validate_config-Ready}

abbrev host : Host
host = record {
  exists = λ p. true;
  is_dir = λ p. true;
  is_file = λ p. true;
  is_symlink = λ p. false;
  readable = λ p. true;
  writable = λ p. true;
  searchable = λ p. true;
  which = λ n. true;
}

abbrev files_job : Job
files_job = record {
  name = "files";
  kind = "file";
  active = true;
  restore_root = none;
  stages = [];
  destination = none;
  params = ("format", word "tar") ∷ [];
  built = some (
      archive (record {
        tar_filename = "backup" ∷ "files.tar" ∷ [];
        resolved = "backup" ∷ "files.tar" ∷ [];
        has_paths = true;
        follow_symlinks = false;
        walked = done (record { path = "d" ∷ []; arcname = "d" ∷ [] } ∷ []);
      }));
}

abbrev on_shop : Grant
on_shop = record {
  parsed = some ("SELECT" ∷ "SHOW VIEW" ∷ "EVENT" ∷ [], "`shop`.*");
  revokes = false;
  grants_role = false;
}

abbrev on_all : Grant
on_all = record { parsed = some ("PROCESS" ∷ [], "*.*"); revokes = false; grants_role = false }

abbrev dump_job : Job
dump_job = record {
  name = "dump";
  kind = "mysqldump";
  active = true;
  restore_root = none;
  stages = [];
  destination = some ("dumps" ∷ []);
  params = ("options", words ("--skip-triggers" ∷ [])) ∷ [];
  built = some (
      database (record {
        is_named = true;
        engine = logical (record { database = some "shop"; options = "--skip-triggers" ∷ [] });
        binary = "mysqldump";
        root = "dumps" ∷ [];
        compress = "";
        encrypt = false;
        query = answers (record {
          version = "8.0.36";
          version_is_mariadb = false;
          grants = on_shop ∷ on_all ∷ [];
          datadir = "data" ∷ [];
        });
      }));
}

validate_config-Ready_example : Ready host dump_job
unfolding validate_config
validate_config-Ready_example =
    validate_config-Ready host none (files_job ∷ dump_job ∷ []) refl dump_job (inr (inl refl)) refl
