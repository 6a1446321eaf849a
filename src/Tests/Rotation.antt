-- ===== src/Tests/Rotation.antt =====
-- The rotation policy on four units of one series.
use bdbackup.Base.{
  ℕ, zero, suc, ◌≡◌, refl, ◌<◌, ◌⊎◌, inl, inr, false, none, some, List, [], ◌∷◌, map, Perm, String,
  All, In,
}
use bdbackup.Gfs.Calendar.{Date, date, before, same_day, iso_week}
use bdbackup.Gfs.Stages.{yearly, Stage, floor, days, weeks, daily, weekly}
use bdbackup.Gfs.Policy.{
  BackupUnit, Decision, stay, decide, key_lt, weekly_units, monthly_units, yearly_units, newest,
  incomplete, eligible_units, newest_each, group_by, expired, week_done, month_done, year_done,
}
use bdbackup.Gfs.Policy.Targets.{IsPast, IsTarget}
use bdbackup.Gfs.Policy.Eligible.{
  DistinctIds, Covers, distinct_cons, IsNewest, eligible_units-IsNewest,
}
use bdbackup.Gfs.Policy.Decisions.{decide-perm}
use bdbackup.Gfs.Policy.Safety.{decide-newest_stays, decide-delete, decide-move}

abbrev backup_unit : String → Date → BackupUnit
backup_unit i d = record { id = i; series = "db"; day = d; stage = 0 }

abbrev latest : BackupUnit
latest = backup_unit "d" (date 2024 3 19)

abbrev tuesday : BackupUnit
tuesday = backup_unit "b" (date 2024 3 5)

abbrev thursday : BackupUnit
thursday = backup_unit "c" (date 2024 3 7)

abbrev old : BackupUnit
old = backup_unit "a" (date 2022 5 1)

abbrev four_units : List BackupUnit
four_units = tuesday ∷ thursday ∷ latest ∷ old ∷ []

abbrev two_stages : List Stage
two_stages =
    record { paths = ("a" ∷ []) ∷ []; period = daily; keep = record { count = 7; unit = days } }
    ∷ record { paths = ("b" ∷ []) ∷ []; period = weekly; keep = record { count = 4; unit = weeks } }
    ∷ []

abbrev today : Date
today = date 2024 3 20

abbrev decided : List Decision
unfolding decide floor
decided = elim (decide four_units two_stages today) [ none ↦ [] | some ds ↦ ds ]

abbrev nth_decision : ℕ → List Decision → Decision
nth_decision n [] = record { unit = latest; action = stay; target = none; reason = expired }
nth_decision zero (d ∷ ds) = d
nth_decision (suc n) (d ∷ ds) = nth_decision n ds

four_units-decided : decide four_units two_stages today ≡ some decided
unfolding decide floor
four_units-decided = refl

none_distinct : DistinctIds []
none_distinct u v m n e = elim m [ ]

four_units_distinct : DistinctIds four_units
four_units_distinct = distinct_cons tuesday (thursday ∷ latest ∷ old ∷ []) refl (
    distinct_cons thursday (latest ∷ old ∷ []) refl
      (distinct_cons latest (old ∷ []) refl (distinct_cons old [] refl none_distinct)))

decide-perm_example : Perm (map (λ d. d.unit) decided) four_units
decide-perm_example = decide-perm four_units two_stages today decided four_units-decided

decide-newest_stays_example :
    (d : Decision) × In d decided
    × (d.action ≡ stay)
    × (d.unit.series ≡ "db")
    × (key_lt d.unit tuesday ≡ false)
decide-newest_stays_example =
    decide-newest_stays four_units two_stages today decided tuesday four_units-decided (inl refl)

decide-delete_example :
    All (IsPast today tuesday.day) two_stages
    ⊎ ((t : ℕ) × (s : Stage) × (v : BackupUnit) × IsTarget today tuesday.day two_stages t s
        × (incomplete today tuesday.day s.period ≡ none)
        × (v.series ≡ "db")
        × Covers four_units s.period tuesday v)
unfolding decided newest key_lt before same_day incomplete week_done eligible_units weekly_units
    newest_each iso_week
decide-delete_example =
    decide-delete four_units two_stages today decided (nth_decision 0 decided) four_units_distinct
      four_units-decided (inl refl) refl

decide-move_example :
    (t : ℕ) × (s : Stage) × ((nth_decision 1 decided).target ≡ some t)
    × (0 < t)
    × IsTarget today thursday.day two_stages t s
unfolding decided newest key_lt before same_day incomplete week_done eligible_units weekly_units
    newest_each iso_week
decide-move_example =
    decide-move four_units two_stages today decided (nth_decision 1 decided) four_units-decided
      (inr (inl refl)) refl

eligible_units-IsNewest_example : IsNewest today four_units yearly old
unfolding eligible_units yearly_units monthly_units weekly_units newest_each group_by iso_week
    week_done key_lt before month_done year_done
eligible_units-IsNewest_example = eligible_units-IsNewest today four_units yearly old (inl refl)
