-- ===== src/Tests/Configs.antt =====
-- Configuration files: a rotation of two stages beside a file job.
use bdbackup.Base.{true, false, none, some, List, [], ◌∷◌, String}
use bdbackup.Gfs.Stages.{Stage, days, weeks, daily, weekly}
use bdbackup.Gfs.Config as Rules
use bdbackup.Gfs.Config.{Table, scalar, array}
use bdbackup.Config.{
  Section, text, boolean, tables, HistorySettings, Setting, Data, Loaded, stages_of, params_of,
  path,
}

abbrev stage_table : String → String → String → Table
stage_table p period keep =
    ("paths", array (Rules.text p ∷ []))
    ∷ ("period", scalar (Rules.text period))
    ∷ ("keep", scalar (Rules.text keep))
    ∷ []

abbrev rotation : Section
rotation =
    ("type", text "gfs")
    ∷ (
      "stage",
      tables (some (stage_table "a" "daily" "7d") ∷ some (stage_table "b" "weekly" "5w") ∷ []),
    )
    ∷ []

abbrev archives : Section
archives =
    ("type", text "file")
    ∷ ("active", boolean false)
    ∷ ("backup_dst", text "dst")
    ∷ ("restore_root", text "root")
    ∷ []

abbrev file_data : Data
file_data = record {
  history = some (some (("database", text "db") ∷ []));
  sections = ("gfs", some rotation) ∷ ("files", some archives) ∷ [];
}

abbrev setting : Setting
setting = record {
  resolve = λ s. s ∷ [];
  relative = λ s. s ∷ [];
  engines = "xtrabackup" ∷ "mysqldump" ∷ [];
  output = λ j. (none, none, false);
}

abbrev two_stages : List Stage
two_stages =
    record { paths = ("a" ∷ []) ∷ []; period = daily; keep = record { count = 7; unit = days } }
    ∷ record { paths = ("b" ∷ []) ∷ []; period = weekly; keep = record { count = 5; unit = weeks } }
    ∷ []

abbrev history : HistorySettings
history = record { database = "db" ∷ []; restore_root = "restores" ∷ [] }

abbrev loaded : Loaded
loaded = record {
  history = some history;
  jobs =
      record {
        name = "gfs";
        kind = "gfs";
        params = stages_of two_stages;
        restore_root = none;
        active = true;
      }
      ∷ record {
        name = "files";
        kind = "file";
        params = params_of (("backup_dst", path ("dst" ∷ [])) ∷ []);
        restore_root = some ("root" ∷ []);
        active = false;
      }
      ∷ [];
}
