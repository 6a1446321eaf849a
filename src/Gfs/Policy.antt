-- ===== src/Gfs/Policy.antt =====
-- bdbackup/gfs/policy.py: which units stay, move, are held or are deleted.
pub mod Newest
pub mod Groups
pub mod Buckets
pub mod Eligible
pub mod Decisions
pub mod Targets
pub mod Safety
use bdbackup.Base.{
  ℕ, suc, ◌+◌, ◌-◌, Bool, true, false, not, ◌&&◌, ◌||◌, Option, none, some, List, [], ◌∷◌, ◌++◌,
  map, foldl, String, str_eq, str_lt, ltb, ◌==◌, if◌then◌else◌, any_of,
}
use bdbackup.Gfs.Calendar.{Date, date, month_days, to_ordinal, weekday, before, same_day, iso_week}
use bdbackup.Gfs.Stages.{Stage, Keep, floor, Period, daily, weekly, monthly, yearly}

-- `Unit`. Its id is the text of the unit's path, as the runner passes it.
pub record BackupUnit : Type 0 where
  pub id : String
  pub series : String
  pub day : Date
  pub stage : ℕ

-- What names a bucket: an ISO week, a month or a year.
pub data Label : Type 0 where
  week_label : ℕ × ℕ → Label
  month_label : ℕ × ℕ → Label
  year_label : ℕ → Label

-- The reasons, with the values that their texts show.
pub data Reason : Type 0 where
  newest_of_series expired earlier_stage in_place : Reason
  not_complete not_newest : Label → Reason
  within : Keep → Reason
  newest_of : Period → Label → Reason

pub data Action : Type 0 where
  stay move delete hold : Action

pub record Decision : Type 0 where
  pub unit : BackupUnit
  pub action : Action
  pub target : Option ℕ
  pub reason : Reason

-- `max(group, key=lambda u: (u.day, str(u.id)))` keeps the first of equal keys.
unfoldable pub key_lt : BackupUnit → BackupUnit → Bool
key_lt a b = before a.day b.day || (same_day a.day b.day && str_lt a.id b.id)

unfoldable pub newest : BackupUnit → List BackupUnit → BackupUnit
newest best [] = best
newest best (u ∷ us) = newest (if key_lt best u then u else best) us

-- A `defaultdict(list)`: its keys in the order of their first use, each with a nonempty list.
module _ {K : Type 0} (same : K → K → Bool) (key : BackupUnit → K) where
  unfoldable pub add :
      List (K × BackupUnit × List BackupUnit) → BackupUnit → List (K × BackupUnit × List BackupUnit)
  add [] a = (key a, a, []) ∷ []
  add ((k, x, xs) ∷ gs) a =
      if same k (key a) then (k, x, xs ++ (a ∷ [])) ∷ gs else (k, x, xs) ∷ add gs a

  unfoldable pub group_by : List BackupUnit → List (K × BackupUnit × List BackupUnit)
  unfolding add
  group_by us = foldl add [] us

-- `[newest(g) for k, g in groups.items() if done]`
unfoldable pub newest_each :
    {K : Type 0}
    → (K → BackupUnit → Bool)
    → List (K × BackupUnit × List BackupUnit)
    → List BackupUnit
unfolding newest
newest_each done [] = []
newest_each done ((k, x, xs) ∷ gs) =
    let rest = newest_each done gs in if done k (newest x xs) then newest x xs ∷ rest else rest

abbrev pub same_pair : ℕ × ℕ → ℕ × ℕ → Bool
same_pair a b = (a.0 == b.0) && (a.1 == b.1)

abbrev pub month_of : BackupUnit → ℕ × ℕ
month_of u = (u.day.year, u.day.month)

abbrev pub week_of : BackupUnit → ℕ × ℕ
week_of u = iso_week u.day

abbrev pub year_of : BackupUnit → ℕ
year_of u = u.day.year

-- The ISO week of the day ends before today.
unfoldable pub week_done : Date → Date → Bool
unfolding to_ordinal weekday
week_done today day = ltb (to_ordinal day + (6 - weekday day)) (to_ordinal today)

unfoldable pub month_done : Date → ℕ → ℕ → Bool
unfolding week_done
month_done today year month = week_done today (date year month (month_days year month))

unfoldable pub year_done : Date → ℕ → Bool
unfolding week_done
year_done today year = week_done today (date year 12 31)

unfoldable pub weekly_units : Date → List BackupUnit → List BackupUnit
weekly_units today units =
    newest_each (λ _ u. week_done today u.day) (group_by same_pair week_of units)

unfoldable pub monthly_units : Date → List BackupUnit → List BackupUnit
monthly_units today units =
    newest_each (λ k _. month_done today k.0 k.1)
      (group_by same_pair month_of (weekly_units today units))

unfoldable pub yearly_units : Date → List BackupUnit → List BackupUnit
yearly_units today units =
    newest_each (λ k _. year_done today k) (group_by ◌==◌ year_of (monthly_units today units))

-- The units that `_eligibility` finds for a period; a daily stage takes every unit.
unfoldable pub eligible_units : Date → List BackupUnit → Period → List BackupUnit
eligible_units today units daily = units
eligible_units today units weekly = weekly_units today units
eligible_units today units monthly = monthly_units today units
eligible_units today units yearly = yearly_units today units

abbrev pub has_id : String → List BackupUnit → Bool
has_id i us = any_of (λ v. str_eq v.id i) us

-- `incomplete`: the first bucket of the day that is not over yet.
unfoldable pub incomplete : Date → Date → Period → Option Label
incomplete today day period =
    if not (week_done today day) then some (week_label (iso_week day)) else elim period [
      | daily ↦ none
      | weekly ↦ none
      | monthly ↦
          if month_done today day.year day.month
          then none
          else some (month_label (day.year, day.month))
      | yearly ↦
          if month_done today day.year day.month
          then (if year_done today day.year then none else some (year_label day.year))
          else some (month_label (day.year, day.month))
    ]

unfoldable pub bucket_label : Date → Period → Label
bucket_label day weekly = week_label (iso_week day)
bucket_label day monthly = month_label (day.year, day.month)
bucket_label day _ = year_label day.year

-- `[stage.keep.floor(today) for stage in stages]`
unfoldable pub floors : Date → List Stage → Option (List Date)
floors today [] = some []
floors today (s ∷ ss) = elim (floor s.keep today) [
  | none ↦ none
  | some f ↦ elim (floors today ss) [ none ↦ none | some fs ↦ some (f ∷ fs) ]
]

-- `next((i for i, floor in enumerate(floors) if unit.day > floor), None)`, with the stage itself.
unfoldable pub first_within : ℕ → Date → List Date → List Stage → Option (ℕ × Stage)
first_within i day (f ∷ fs) (s ∷ ss) =
    if before f day then some (i, s) else first_within (suc i) day fs ss
first_within i day _ _ = none

abbrev pub decision : BackupUnit → Action → Option ℕ → Reason → Decision
decision u a t r = record { unit = u; action = a; target = t; reason = r }

-- The end of the loop's body: the unit may enter the target stage.
unfoldable pub place : BackupUnit → ℕ → Stage → Decision
place u t s =
    if ltb t u.stage
    then decision u stay (some u.stage) earlier_stage
    else if t == u.stage
    then decision u stay (some t) in_place
    else decision u move (some t)
        (elim s.period [ daily ↦ within s.keep | p ↦ newest_of p (bucket_label u.day p) ])

-- The body for a unit whose target stage has a period other than daily.
unfoldable pub place_periodic : Date → List BackupUnit → BackupUnit → ℕ → Stage → Decision
unfolding place
place_periodic today members u t s = elim (incomplete today u.day s.period) [
  | some pending ↦ decision u hold (some u.stage) (not_complete pending)
  | none ↦
      if has_id u.id (eligible_units today members s.period)
      then place u t s
      else decision u delete none (not_newest (bucket_label u.day s.period))
]

-- The loop's body for one unit of a series. `unit is newest` is a comparison of ids, which are the
-- same for the same unit only: the store gives each unit its own.
unfoldable pub decide_unit :
    Date → List Stage → List Date → BackupUnit → List BackupUnit → BackupUnit → Decision
unfolding place_periodic
decide_unit today stages fs top members u =
    if str_eq u.id top.id
    then decision u stay (some u.stage) newest_of_series
    else elim (first_within 0 u.day fs stages) [
      | none ↦ decision u delete none expired
      | some (t, s) ↦ elim s.period [ daily ↦ place u t s | _ ↦ place_periodic today members u t s ]
    ]

unfoldable pub decide_series :
    Date → List Stage → List Date → List (String × BackupUnit × List BackupUnit) → List Decision
unfolding decide_unit
decide_series today stages fs [] = []
decide_series today stages fs ((_, x, xs) ∷ gs) =
    map (decide_unit today stages fs (newest x xs) (x ∷ xs)) (x ∷ xs)
    ++ decide_series today stages fs gs

-- `decide`, with `none` for an exception of `floor`.
unfoldable pub decide : List BackupUnit → List Stage → Date → Option (List Decision)
unfolding decide_series group_by floors first_within
decide units stages today = elim (floors today stages) [
  | none ↦ none
  | some fs ↦ some (decide_series today stages fs (group_by str_eq (λ u. u.series) units))
]
