-- ===== src/Gfs/Policy/Decisions.antt =====
-- `decide` of bdbackup/gfs/policy.py as a list of one decision for each unit.
use bdbackup.Base.{
  ◌≡◌, refl, sym, ◌∙◌, ap, ap₂, subst, inl, inr, some, List, [], ◌∷◌, ◌++◌, map, map-append, Perm,
  String, str_eq, eq_iff, arith, Option-cases,
}
use bdbackup.Gfs.Calendar.{Date}
use bdbackup.Gfs.Stages.{Stage}
use bdbackup.Gfs.Policy.{
  BackupUnit, Decision, newest, group_by, floors, decide_unit, decide_series, decide,
}
use bdbackup.Gfs.Policy.Groups.{Groups, flat, flat-group_by}
use bdbackup.Gfs.Policy.Buckets.{IsEquality}

pub text_law : IsEquality str_eq
text_law = record { self = λ k. (eq_iff k k).1 refl; sound = λ j k h. (eq_iff j k).0 h }

abbrev pub series_of : BackupUnit → String
series_of u = u.series

pub decide-some :
    (units : List BackupUnit) (stages : List Stage) (today : Date) (ds : List Decision)
    → decide units stages today ≡ some ds
    → (fs : List Date) × (floors today stages ≡ some fs)
      × (decide_series today stages fs (group_by str_eq series_of units) ≡ ds)
unfolding decide
decide-some units stages today ds h = elim (Option-cases (floors today stages)) [
  | inl e ↦ absurd (ground arith)
  | inr (fs, e) ↦ (fs, e, ground arith)
]

pub decide_unit-unit :
    (today : Date) (stages : List Stage) (fs : List Date) (top : BackupUnit) (us : List BackupUnit)
    (u : BackupUnit)
    → (decide_unit today stages fs top us u).unit ≡ u
unfolding decide_unit
decide_unit-unit today stages fs top us u = ground arith

map-decide_unit :
    (today : Date) (stages : List Stage) (fs : List Date) (top : BackupUnit)
    (us ws : List BackupUnit)
    → map (λ (d : Decision). d.unit) (map (decide_unit today stages fs top us) ws) ≡ ws
map-decide_unit today stages fs top us [] = refl
map-decide_unit today stages fs top us (w ∷ ws) =
    rw (decide_unit-unit today stages fs top us w, map-decide_unit today stages fs top us ws) refl

map-decide_series :
    (today : Date) (stages : List Stage) (fs : List Date) (gs : Groups String)
    → map (λ (d : Decision). d.unit) (decide_series today stages fs gs) ≡ flat gs
unfolding decide_series
map-decide_series today stages fs [] = refl
map-decide_series today stages fs ((k, x, xs) ∷ gs) = rw map-append (
    ap₂ {A = List BackupUnit} {B = List BackupUnit} ◌++◌
      (map-decide_unit today stages fs (newest x xs) (x ∷ xs) (x ∷ xs))
      (map-decide_series today stages fs gs))

-- Each unit gets exactly one decision: whenever `decide` returns, the units of its decisions are a
-- permutation of the units it was given.
pub decide-perm :
    (units : List BackupUnit) (stages : List Stage) (today : Date) (ds : List Decision)
    → decide units stages today ≡ some ds
    → Perm (map (λ d. d.unit) ds) units
decide-perm units stages today ds h =
    let (fs, e, q) = decide-some units stages today ds h in
    subst (λ l. Perm l units)
      (sym (map-decide_series today stages fs (group_by str_eq series_of units))
        ∙ ap (map (λ (d : Decision). d.unit)) q)
      (flat-group_by str_eq series_of units)
