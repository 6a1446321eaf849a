-- ===== src/Gfs/Policy/Safety.antt =====
-- The actions that `decide` of bdbackup/gfs/policy.py chooses: stay, delete and move.
use bdbackup.Base.{
  ℕ, ◌<◌, ◌≡◌, refl, sym, ◌∙◌, ap, subst, inl, inr, ◌⊎◌, false, none, some, List, [], ◌∷◌, map,
  String, str_eq, eq_iff, arith, In, All, Option-cases, In-append_left, In-append_right,
  In-append_cases,
}
use bdbackup.Gfs.Calendar.{Date}
use bdbackup.Gfs.Stages.{Stage}
use bdbackup.Gfs.Policy.{
  BackupUnit, Decision, stay, move, delete, key_lt, newest, group_by, first_within, decide_unit,
  decide_series, decide, has_id, eligible_units, incomplete,
}
use bdbackup.Gfs.Policy.Newest.{newest-max, newest-In}
use bdbackup.Gfs.Policy.Groups.{Groups, members, group_by-In, group_by-Grouped}
use bdbackup.Gfs.Policy.Buckets.{group_by-key}
use bdbackup.Gfs.Policy.Eligible.{DistinctIds, Covers, eligible_units-covered}
use bdbackup.Gfs.Policy.Decisions.{text_law, series_of, decide-some, decide_unit-unit}
use bdbackup.Gfs.Policy.Targets.{IsPast, IsTarget, first_within-none, first_within-IsTarget}

map-In :
    (f : BackupUnit → Decision) (us : List BackupUnit) (u : BackupUnit)
    → In u us
    → In (f u) (map f us)
map-In f [] u m = elim m [ ]
map-In f (v ∷ us) u (inl e) = inl (ap f e)
map-In f (v ∷ us) u (inr m) = inr (map-In f us u m)

In-map :
    (f : BackupUnit → Decision) (us : List BackupUnit) (d : Decision)
    → In d (map f us)
    → (u : BackupUnit) × In u us × (f u ≡ d)
In-map f [] d m = elim m [ ]
In-map f (v ∷ us) d (inl e) = (v, inl refl, e)
In-map f (v ∷ us) d (inr m) = let (u, n, e) = In-map f us d m in (u, inr n, e)

module _ (today : Date) (stages : List Stage) (fs : List Date) where
  abbrev unit_decision : String × BackupUnit × List BackupUnit → BackupUnit → Decision
  unit_decision g = decide_unit today stages fs (newest g.1 g.2) (members g)

  decide_series-has :
      (gs : Groups String) (g : String × BackupUnit × List BackupUnit) (u : BackupUnit)
      → In g gs
      → In u (members g)
      → In (unit_decision g u) (decide_series today stages fs gs)
  unfolding decide_series
  decide_series-has [] g u m n = elim m [ ]
  decide_series-has ((k, x, xs) ∷ gs) g u (inl e) n =
      In-append_left _ (map (unit_decision (k, x, xs)) (x ∷ xs)) (decide_series today stages fs gs)
        (subst (λ h. In (unit_decision h u) (map (unit_decision (k, x, xs)) (x ∷ xs))) e
          (map-In (unit_decision (k, x, xs)) (x ∷ xs) u (subst (λ h. In u (members h)) (sym e) n)))
  decide_series-has ((k, x, xs) ∷ gs) g u (inr m) n =
      In-append_right _ (map (unit_decision (k, x, xs)) (x ∷ xs)) (decide_series today stages fs gs)
        (decide_series-has gs g u m n)

  decide_series-from :
      (gs : Groups String) (d : Decision)
      → In d (decide_series today stages fs gs)
      → (g : String × BackupUnit × List BackupUnit) × (u : BackupUnit) × In g gs
        × In u (members g)
        × (unit_decision g u ≡ d)
  unfolding decide_series
  decide_series-from [] d m = elim m [ ]
  decide_series-from ((k, x, xs) ∷ gs) d m =
      elim (In-append_cases d (map (unit_decision (k, x, xs)) (x ∷ xs))
        (decide_series today stages fs gs) m) [
          | inl l ↦
              let (u, n, e) = In-map (unit_decision (k, x, xs)) (x ∷ xs) d l in
              ((k, x, xs), u, inl refl, n, e)
          | inr r ↦ let (g, u, i, n, e) = decide_series-from gs d r in (g, u, inr i, n, e)
        ]

decide_unit-top :
    (today : Date) (stages : List Stage) (fs : List Date) (top : BackupUnit) (us : List BackupUnit)
    → (decide_unit today stages fs top us top).action ≡ stay
unfolding decide_unit
decide_unit-top today stages fs top us = ground (arith, eq_iff top.id top.id)

-- Every series keeps its newest unit where it is: for each unit given, some unit of its series that
-- is not older gets the decision to stay.
pub decide-newest_stays :
    (units : List BackupUnit) (stages : List Stage) (today : Date) (ds : List Decision)
    (u : BackupUnit)
    → decide units stages today ≡ some ds
    → In u units
    → (d : Decision) × In d ds
      × (d.action ≡ stay)
      × (d.unit.series ≡ u.series)
      × (key_lt d.unit u ≡ false)
decide-newest_stays units stages today ds u h m =
    let (fs, e, q) = decide-some units stages today ds h in
    let (g, i, n) = group_by-Grouped str_eq series_of units u m in
    let top = newest g.1 g.2 in
    let own : (unit_decision today stages fs g top).unit ≡ top =
      decide_unit-unit today stages fs top (members g) top in
    (
      unit_decision today stages fs g top,
      subst (In (unit_decision today stages fs g top)) q (
          decide_series-has today stages fs (group_by str_eq series_of units) g top i
            (newest-In g.1 g.2)),
      decide_unit-top today stages fs top (members g),
      ap (λ (w : BackupUnit). w.series) own
          ∙ sym (group_by-key str_eq text_law series_of units g top i (newest-In g.1 g.2))
          ∙ group_by-key str_eq text_law series_of units g u i n,
      subst (λ w. key_lt w u ≡ false) (sym own) (newest-max g.1 g.2 u n),
    )

-- Why `decide_unit` deletes.
decide_unit-delete :
    (today : Date) (stages : List Stage) (fs : List Date) (top : BackupUnit) (us : List BackupUnit)
    (u : BackupUnit)
    → (decide_unit today stages fs top us u).action ≡ delete
    → (first_within 0 u.day fs stages ≡ none)
      ⊎ ((t : ℕ) × (s : Stage) × (first_within 0 u.day fs stages ≡ some (t, s))
          × (incomplete today u.day s.period ≡ none)
          × (has_id u.id (eligible_units today us s.period) ≡ false))
unfolding decide_unit
decide_unit-delete today stages fs top us u h =
    elim (Option-cases (first_within 0 u.day fs stages)) [
      | inl e ↦ inl e
      | inr ((t, s), e) ↦ inr (t, s, e, ground arith, ground arith)
    ]

-- Why `decide_unit` moves.
decide_unit-move :
    (today : Date) (stages : List Stage) (fs : List Date) (top : BackupUnit) (us : List BackupUnit)
    (u : BackupUnit)
    → (decide_unit today stages fs top us u).action ≡ move
    → (t : ℕ) × (s : Stage) × (first_within 0 u.day fs stages ≡ some (t, s))
      × ((decide_unit today stages fs top us u).target ≡ some t)
      × (u.stage < t)
unfolding decide_unit
decide_unit-move today stages fs top us u h = elim (Option-cases (first_within 0 u.day fs stages)) [
  | inl e ↦ absurd (ground arith)
  | inr ((t, s), e) ↦ (t, s, e, ground arith, ground arith)
]

-- If a unit is deleted, then every stage's keep age has passed for it, or in the first stage whose keep
-- age has not passed the unit's buckets are over and another unit of its series covers it: it has
-- another id, is not older, and lies in the same ISO week if the stage is weekly, in the same week or
-- month if it is monthly, and in the same week, month or year if it is yearly. A unit whose
-- first such stage is daily is not deleted. The units' ids are distinct.
pub decide-delete :
    (units : List BackupUnit) (stages : List Stage) (today : Date) (ds : List Decision)
    (d : Decision)
    → DistinctIds units
    → decide units stages today ≡ some ds
    → In d ds
    → d.action ≡ delete
    → All (IsPast today d.unit.day) stages
      ⊎ ((t : ℕ) × (s : Stage) × (v : BackupUnit) × IsTarget today d.unit.day stages t s
          × (incomplete today d.unit.day s.period ≡ none)
          × (v.series ≡ d.unit.series)
          × Covers units s.period d.unit v)
decide-delete units stages today ds d distinct h m a =
    let (fs, e, q) = decide-some units stages today ds h in
    let gs = group_by str_eq series_of units in
    let (g, u, i, n, c) = decide_series-from today stages fs gs d (subst (In d) (sym q) m) in
    let own : u ≡ d.unit =
      sym (decide_unit-unit today stages fs (newest g.1 g.2) (members g) u)
      ∙ ap (λ (x : Decision). x.unit) c in
    let inside : (w : BackupUnit) → In w (members g) → In w units =
      λ w k. group_by-In str_eq series_of units w (g, i, k) in
    elim (decide_unit-delete today stages fs (newest g.1 g.2) (members g) u
      (subst (λ x. x.action ≡ delete) (sym c) a)) [
        | inl past ↦ inl (
            subst (λ w. All (IsPast today w.day) stages) own
              (first_within-none today u.day stages fs 0 e past))
        | inr (t, s, first, complete, absent) ↦
            let (v, cover) =
              eligible_units-covered today (members g)
                (λ x y j k r. distinct x y (inside x j) (inside y k) r) u s.period n complete
                absent in
            inr (
              t,
              s,
              v,
              subst (λ w. IsTarget today w.day stages t s) own
                  (first_within-IsTarget today u.day stages fs t s e first),
              subst (λ w. incomplete today w.day s.period ≡ none) own complete,
              sym (group_by-key str_eq text_law series_of units g v i cover.0)
                  ∙ group_by-key str_eq text_law series_of units g u i n
                  ∙ ap (λ (w : BackupUnit). w.series) own,
              subst (λ w. Covers units s.period w v) own
                  (inside v cover.0, cover.1, cover.2, cover.3),
            )
      ]

-- A move goes forward, to the first stage that still keeps the unit: its target is a later stage
-- than the unit's, the keep ages of all stages before the target have passed, the target's has not.
pub decide-move :
    (units : List BackupUnit) (stages : List Stage) (today : Date) (ds : List Decision)
    (d : Decision)
    → decide units stages today ≡ some ds
    → In d ds
    → d.action ≡ move
    → (t : ℕ) × (s : Stage) × (d.target ≡ some t)
      × (d.unit.stage < t)
      × IsTarget today d.unit.day stages t s
decide-move units stages today ds d h m a =
    let (fs, e, q) = decide-some units stages today ds h in
    let (g, u, i, n, c) =
      decide_series-from today stages fs (group_by str_eq series_of units) d
        (subst (In d) (sym q) m) in
    let own : u ≡ d.unit =
      sym (decide_unit-unit today stages fs (newest g.1 g.2) (members g) u)
      ∙ ap (λ (x : Decision). x.unit) c in
    let (t, s, f, to, forward) =
      decide_unit-move today stages fs (newest g.1 g.2) (members g) u
        (subst (λ x. x.action ≡ move) (sym c) a) in
    (
      t,
      s,
      sym (ap (λ (x : Decision). x.target) c) ∙ to,
      subst (λ w. w.stage < t) own forward,
      subst (λ w. IsTarget today w.day stages t s) own
          (first_within-IsTarget today u.day stages fs t s e f),
    )
