-- ===== src/Config/Accepted.antt =====
-- bdbackup/config.py, `Config._load`: what holds of the jobs of a file that is accepted.
use bdbackup.Base.{◌≡◌, true, Option, none, List, map, str_eq, keep_if}
use bdbackup.Base.FilePath.{FilePath}
use bdbackup.Gfs.Stages.{Stage}
use bdbackup.Gfs.Config as Rules
use bdbackup.Gfs.Config.{all_paths, is_gfs}
use bdbackup.Gfs.Config.Rules.{IsGraded}
use bdbackup.Config.{HistorySettings, stages_of, Job, supported, Setting, view}

module _ (c : Setting) where
  -- What holds of each job: a known type; a restore root only where there is a history; and the
  -- stages of a rotation are graded.
  pub record JobFits (history : Option HistorySettings) (j : Job) : Type 0 where
    pub known : supported c.engines j.kind ≡ true
    pub rooted : history ≡ none → j.restore_root ≡ none
    pub graded :
        str_eq j.kind "gfs" ≡ true
        → (ss : List Stage) × (j.params ≡ stages_of ss) × IsGraded none ss

  -- The paths of all rotations of a file.
  abbrev pub stage_paths : List Job → List FilePath
  stage_paths js = all_paths (keep_if is_gfs (map (view c) js))
