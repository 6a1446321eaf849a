-- ===== src/Mysql/XtraBackup/Dates.antt =====
-- bdbackup/mysql/xtrabackup.py: the dated directories of a root, the latest full and expiry.
use bdbackup.Base.{
  ℕ, ◌-◌, Bool, false, not, ◌&&◌, ◌||◌, Option, none, some, List, [], ◌∷◌, String, str_eq, str_lt,
  starts_with, ltb, leb, ◌==◌, if◌then◌else◌, keep_if,
}
use bdbackup.Mysql.XtraBackup.{
  BackupDir, Result, ok, err, ◌>>=◌, ◌>>◌, raise_if, valid_base, no_full, latest_invalid,
  refuse_prune, date_underflow,
}

-- A dated directory of the root, as `_latest_full_date_dir` and `prune` read it; `day` is the
-- ordinal of the date that its name gives, if the name is a date.
pub record DateDir : Type 0 where
  pub name : String
  pub is_plain_dir : Bool
  pub is_date_name : Bool
  pub day : Option ℕ
  pub has_success : Bool
  pub latest : Option BackupDir
  pub latest_inside : Bool

-- `_latest_full_date_dir`
abbrev pub is_candidate : DateDir → Bool
is_candidate d = d.is_plain_dir && d.is_date_name && d.has_success

unfoldable pub latest_date_dir : List DateDir → Option DateDir
latest_date_dir [] = none
latest_date_dir (d ∷ ds) = elim (latest_date_dir ds) [
  | none ↦ if is_candidate d then some d else none
  | some e ↦ if is_candidate d && str_lt e.name d.name then some d else some e
]

-- `_latest_full`
unfoldable pub latest_full : List DateDir → Result BackupDir
unfolding latest_date_dir valid_base
latest_full ds = elim (latest_date_dir ds) [
  | none ↦ err no_full
  | some d ↦ elim d.latest [
    | none ↦ err latest_invalid
    | some b ↦
        if not d.latest_inside || not (starts_with b.name "Full_") || not (valid_base b)
        then err latest_invalid
        else ok b
  ]
]

-- `prune`'s test of one directory, for a cutoff day.
unfoldable pub expires : DateDir → ℕ → DateDir → Bool
expires newest cutoff d =
    d.is_plain_dir
    && not (str_eq d.name newest.name)
    && d.has_success
    && d.is_date_name
    && (elim d.day [ none ↦ false | some day ↦ ltb day cutoff ])

-- `prune` of a root that exists: the directories that it removes. Days are ordinals of dates, which
-- begin with 1, and an earlier cutoff is an OverflowError.
unfoldable pub prune : ℕ → ℕ → List DateDir → Result (List DateDir)
unfolding latest_full latest_date_dir expires
prune retention today ds = if retention == 0 then ok [] else elim (latest_date_dir ds) [
  | none ↦ err refuse_prune
  | some newest ↦ do
    _ ← latest_full ds
    raise_if (leb today (retention - 1)) date_underflow
    ok (keep_if (expires newest (today - (retention - 1))) ds)
]
