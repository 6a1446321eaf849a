-- ===== src/Tests/Options.antt =====
-- Command lines and exclusion rules.
use bdbackup.Mysql.Helpers.{is_control, quote_option, unquote, unquote-quote_option}
use bdbackup.Base.{some, ◌<>◌, ◌≡◌, refl, Bool, true, false, List, [], ◌∷◌, String, str_eq}
use bdbackup.Base.FilePath.{path_eq, is_relative_to}
use bdbackup.Base.Strip.{is_space}
use bdbackup.Cli.{RestoreOptions, RunOptions, Job, archive, Fits, restore_mode, restore_mode-Fits}
use bdbackup.Templates.Rules.{parse_rule, parse_rule-IsTrimmed, IsTrimmed}
use bdbackup.Templates.{Rule, Globs, applies, matches, matches-last}

abbrev from_archive : RestoreOptions
from_archive = record {
  config = false;
  backup_id = false;
  job = false;
  yes = false;
  dst = true;
  archive = true;
  backup = false;
  root = false;
  binary = false;
  encrypt_key_file = false;
}

restore_mode-Fits_example : Fits from_archive archive
unfolding restore_mode
restore_mode-Fits_example = restore_mode-Fits from_archive archive refl

abbrev run_options : RunOptions
run_options = record {
  job = true;
  full = false;
  incremental = true;
  verify = true;
  verify_given = false;
  dry_run = false;
  validate_only = false;
  initialize = false;
}

abbrev physical_job : Job
physical_job = record { active = true; kind = "xtrabackup" }

abbrev rule : String → Bool → Rule
rule p n = record {
  pattern = p;
  negated = n;
  dir_only = false;
  anchored = false;
  has_slash = false;
}

abbrev literal : Rule → List String → Bool
literal r [] = false
literal r (p ∷ ps) = str_eq r.pattern p

abbrev globs : Globs
globs = record { regex = literal; fnmatch = literal }

matches-last_example :
    matches globs
      (rule "a.log" false ∷ rule "a.log" true ∷ rule "b" false ∷ [])
      ("src" ∷ "a.log" ∷ [])
      false
      (("src" ∷ []) ∷ [])
    ≡ false
unfolding applies path_eq is_relative_to
matches-last_example =
    matches-last globs (rule "a.log" false ∷ []) (rule "b" false ∷ []) (rule "a.log" true)
      ("src" ∷ "a.log" ∷ []) false (("src" ∷ []) ∷ []) refl refl

abbrev kept_dir : Rule
kept_dir = record {
  pattern = "a/b";
  negated = true;
  dir_only = true;
  anchored = true;
  has_slash = true;
}

parse_rule-IsTrimmed_example : IsTrimmed kept_dir
unfolding parse_rule is_space
parse_rule-IsTrimmed_example = parse_rule-IsTrimmed " !//a/b// " kept_dir refl

unquote-quote_option_example :
    (quoted : String) × (quote_option "pass\\\"word" ≡ some quoted)
    × (unquote (quoted <> "\n") ≡ some ("pass\\\"word", "\n"))
unfolding is_control
unquote-quote_option_example = unquote-quote_option "pass\\\"word" "\n" refl
