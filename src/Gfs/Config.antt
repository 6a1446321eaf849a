-- ===== src/Gfs/Config.antt =====
-- bdbackup/gfs/stages.py: the configuration of a gfs job and the rules across jobs.
-- A TOML value is a text, an array or something else; `none` stands for what is not a table.
pub mod Rules
use bdbackup.Base.{
  ℕ, suc, ◌+◌, ◌-◌, ◌*◌, Bool, true, false, not, ◌&&◌, ◌||◌, Option, none, some, List, [], ◌∷◌,
  ◌++◌, map, String, str_eq, ltb, leb, ◌==◌, if◌then◌else◌, length, any_of, all_of, keep_if, codes,
}
use bdbackup.Base.FilePath.{FilePath, path_eq, is_relative_to}
use bdbackup.Gfs.Stages.{
  Stage, Keep, KeepUnit, days, weeks, months, years, Period, daily, weekly, monthly, yearly,
  period_index, min_days, max_days,
}

-- The `ValueError`s.
pub data Invalid : Type 0 where
  no_stages bad_paths first_paths bad_period first_period backwards bad_keep keep_too_short :
      Invalid
  no_history database_inside overlaps writes_later retention timestamp unknown_job_key : Invalid
  unknown_key : String → Invalid

pub data Checked (A : Type 0) : Type 0 where
  ok : A → Checked A
  invalid : Invalid → Checked A

infixl 5 ◌>>=◌ ◌>>◌
abbrev pub ◌>>=◌ : {A B : Type 0} → Checked A → (A → Checked B) → Checked B
ok a >>= f = f a
invalid e >>= f = invalid e

abbrev pub ◌>>◌ : {B : Type 0} → Checked (Unit {0}) → Checked B → Checked B
m >> k = m >>= λ _. k

abbrev pub raise_if : Bool → Invalid → Checked (Unit {0})
raise_if true e = invalid e
raise_if false e = ok tt

pub data Scalar : Type 0 where
  text : String → Scalar
  other : Scalar

pub data Setting : Type 0 where
  scalar : Scalar → Setting
  array : List Scalar → Setting

abbrev pub Table : Type 0
Table = List (String × Setting)

-- The white space of `str.strip`.
abbrev is_space : ℕ → Bool
is_space c =
    (leb 9 c && leb c 13)
    || (leb 28 c && leb c 32)
    || (c == 133)
    || (c == 160)
    || (c == 5760)
    || (leb 8192 c && leb c 8202)
    || (c == 8232)
    || (c == 8233)
    || (c == 8239)
    || (c == 8287)
    || (c == 12288)

-- `not p.strip()`
abbrev is_blank : String → Bool
is_blank s = all_of is_space (codes s)

abbrev is_digit : ℕ → Bool
is_digit c = leb 48 c && leb c 57

abbrev keep_unit : ℕ → Option KeepUnit
keep_unit c =
    if c == 100
    then some days
    else if c == 119
    then some weeks
    else if c == 109
    then some months
    else if c == 121
    then some years
    else none

-- `([1-9][0-9]*)([dwmy])`, behind the first digit.
unfoldable pub keep_rest : ℕ → List ℕ → Option Keep
keep_rest n [] = none
keep_rest n (c ∷ []) = elim (keep_unit c) [
  | none ↦ none
  | some u ↦ some (record { count = n; unit = u })
]
keep_rest n (c ∷ d ∷ cs) =
    let rest = keep_rest (n * 10 + (c - 48)) (d ∷ cs) in if is_digit c then rest else none

abbrev parse_codes : List ℕ → Option Keep
unfolding keep_rest
parse_codes [] = none
parse_codes (c ∷ cs) = if leb 49 c && leb c 57 then keep_rest (c - 48) cs else none

-- `Keep.parse`
unfoldable pub parse_keep : Option Setting → Option Keep
unfolding keep_rest
parse_keep (some (scalar (text s))) = parse_codes (codes s)
parse_keep _ = none

abbrev pub get : String → Table → Option Setting
get k [] = none
get k ((j, v) ∷ t) = if str_eq j k then some v else get k t

abbrev stage_key : String → Bool
stage_key k = str_eq k "paths" || str_eq k "period" || str_eq k "keep"

abbrev unknown_keys : Table → Checked (Unit {0})
unknown_keys [] = ok tt
unknown_keys ((k, _) ∷ t) = if stage_key k then unknown_keys t else invalid (unknown_key k)

-- The path strings, if the setting is a non-empty array of strings that are not blank.
abbrev path_texts : List Scalar → Option (List String)
path_texts [] = some []
path_texts (other ∷ xs) = none
path_texts (text s ∷ xs) =
    let rest = path_texts xs in
    if is_blank s then none else elim rest [ none ↦ none | some ss ↦ some (s ∷ ss) ]

unfoldable pub path_strings : Option Setting → Option (List String)
path_strings (some (array (x ∷ xs))) = path_texts (x ∷ xs)
path_strings _ = none

unfoldable pub period_of : Option Setting → Option Period
period_of (some (scalar (text s))) =
    if str_eq s "daily"
    then some daily
    else if str_eq s "weekly"
    then some weekly
    else if str_eq s "monthly"
    then some monthly
    else if str_eq s "yearly"
    then some yearly
    else none
period_of _ = none

abbrev pub required : {A : Type 0} → Option A → Invalid → Checked A
required none e = invalid e
required (some a) e = ok a

-- `_stage`'s tests against the stage before it, in the source's order.
abbrev pub paths_fit : Option Stage → List String → Bool
paths_fit none paths = length paths == 1
paths_fit (some _) paths = true

abbrev pub period_fits : Option Stage → Period → Checked (Unit {0})
period_fits none p = raise_if (not (period_index p == 0)) first_period
period_fits (some s) p = raise_if (ltb (period_index p) (period_index s.period)) backwards

abbrev pub keep_fits : Option Stage → Keep → Bool
keep_fits none k = true
keep_fits (some s) k = ltb (max_days s.keep) (min_days k)

-- `set(section) - _JOB_KEYS`
abbrev pub has_unknown_key : List String → Bool
has_unknown_key keys = any_of (λ k. not (str_eq k "type" || str_eq k "stage")) keys

module _ (resolve : String → FilePath) where
  -- `_stage`; `resolve` is `(base / Path(p).expanduser()).resolve()`.
  unfoldable pub stage : Option Table → Option Stage → Checked Stage
  unfolding parse_keep path_strings period_of min_days max_days
  stage none previous = invalid no_stages
  stage (some table) previous = do
    unknown_keys table
    paths ← required (path_strings (get "paths" table)) bad_paths
    raise_if (not (paths_fit previous paths)) first_paths
    period ← required (period_of (get "period" table)) bad_period
    period_fits previous period
    keep ← required (parse_keep (get "keep" table)) bad_keep
    raise_if (not (keep_fits previous keep)) keep_too_short
    ok (record { paths = map resolve paths; period = period; keep = keep })

  -- The loop of `parse_gfs_job`.
  unfoldable pub stages : List (Option Table) → Option Stage → Checked (List Stage)
  unfolding stage
  stages [] previous = ok []
  stages (t ∷ ts) previous = stage t previous >>= λ s. stages ts (some s) >>= λ rest. ok (s ∷ rest)

  abbrev pub some_stages : Option (List (Option Table)) → Checked (List Stage)
  some_stages (some (t ∷ ts)) = stages (t ∷ ts) none
  some_stages _ = invalid no_stages

  -- `parse_gfs_job`: the keys of the job's section, and its stage tables if they are an array.
  unfoldable pub parse_gfs_job : List String → Option (List (Option Table)) → Checked (List Stage)
  unfolding stages
  parse_gfs_job keys tables = do raise_if (has_unknown_key keys) unknown_job_key; some_stages tables

-- A job, as the rules read it: `stage` is empty for the other types, and `output` is what
-- `_engine_output` finds.
pub record Job : Type 0 where
  pub name : String
  pub kind : String
  pub stage : List Stage
  pub output : Option FilePath
  pub retention_days : Option ℕ
  pub is_timestamped : Bool

-- `_overlap`
unfoldable pub overlap : FilePath → FilePath → Bool
unfolding path_eq is_relative_to
overlap a b = path_eq a b || is_relative_to a b || is_relative_to b a

abbrev pub paths_of : List Stage → List FilePath
paths_of [] = []
paths_of (s ∷ ss) = s.paths ++ paths_of ss

abbrev pub is_gfs : Job → Bool
is_gfs j = str_eq j.kind "gfs"

abbrev pub all_paths : List Job → List FilePath
all_paths [] = []
all_paths (j ∷ js) = paths_of j.stage ++ all_paths js

-- The first loop's body over all stage paths of all gfs jobs, with the paths seen so far.
unfoldable pub check_paths : FilePath → List FilePath → List FilePath → Checked (Unit {0})
unfolding overlap is_relative_to
check_paths database [] seen = ok tt
check_paths database (p ∷ ps) seen =
    let rest = check_paths database ps (seen ++ (p ∷ [])) in
    if is_relative_to database p
    then invalid database_inside
    else if any_of (overlap p) seen
    then invalid overlaps
    else rest

-- The second loop's body for one gfs job and one engine's job.
unfoldable pub check_output : FilePath → List FilePath → Job → Checked (Unit {0})
unfolding is_relative_to
check_output first later j = elim j.output [
  | none ↦ ok tt
  | some o ↦
      if any_of (is_relative_to o) later
      then invalid writes_later
      else if not (is_relative_to o first)
      then ok tt
      else if str_eq j.kind "xtrabackup"
          && not (elim j.retention_days [ none ↦ false | some n ↦ n == 0 ])
      then invalid retention
      else if str_eq j.kind "file" && not j.is_timestamped
      then invalid timestamp
      else ok tt
]

unfoldable pub check_outputs : FilePath → List FilePath → List Job → Checked (Unit {0})
unfolding check_output
check_outputs first later [] = ok tt
check_outputs first later (j ∷ js) = check_output first later j >> check_outputs first later js

-- `job.params["stage"][0].paths[0]` and the paths of the stages behind it.
unfoldable pub check_job : List Stage → List Job → Checked (Unit {0})
unfolding check_outputs
check_job [] jobs = invalid no_stages
check_job (s ∷ ss) jobs = elim s.paths [
  | [] ↦ invalid no_stages
  | first ∷ _ ↦ check_outputs first (paths_of ss) jobs
]

unfoldable pub check_jobs : List Job → List Job → Checked (Unit {0})
unfolding check_job
check_jobs [] jobs = ok tt
check_jobs (g ∷ gs) jobs = check_job g.stage jobs >> check_jobs gs jobs

-- `check_gfs_config` for the gfs jobs among all jobs, with the database of `[history]`.
unfoldable pub check_gfs : List Job → Option FilePath → List Job → Checked (Unit {0})
unfolding check_paths check_jobs
check_gfs [] history jobs = ok tt
check_gfs (g ∷ gs) none jobs = invalid no_history
check_gfs (g ∷ gs) (some database) jobs =
    check_paths database (all_paths (g ∷ gs)) [] >> check_jobs (g ∷ gs) jobs

unfoldable pub check_gfs_config : List Job → Option FilePath → Checked (Unit {0})
unfolding check_gfs
check_gfs_config jobs history = check_gfs (keep_if is_gfs jobs) history jobs
