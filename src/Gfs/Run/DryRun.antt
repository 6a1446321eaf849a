-- ===== src/Gfs/Run/DryRun.antt =====
-- Runs without `apply` (bdbackup/gfs/runner.py, `run_job` with `dry_run`).
use bdbackup.Base.{
  ℕ, ◌≡◌, refl, sym, subst, Bool, true, false, Option, none, some, List, [], ◌∷◌, String, keep_if,
  if◌then◌else◌, not, map,
}
use bdbackup.Base.FilePath.{FilePath}
use bdbackup.Gfs.Calendar.{Date}
use bdbackup.Gfs.Stages.{Stage}
use bdbackup.Gfs.Policy.{Decision, Action, decide}
use bdbackup.Gfs.Store.{Location, ManagedUnit, Counts}
use bdbackup.Gfs.Store.Load.{Loaded}
use bdbackup.Gfs.Runner
use bdbackup.Gfs.Runner.{
  Site, World, Exit, ok, refusal, deferred, failure, crash, M, ◌>>=◌, pure, complete_interrupted,
}
use bdbackup.Gfs.Runner.Refusals.{dry_run-unchanged}
use bdbackup.Gfs.Run.{
  settle, some_or_raise, settle_placed, place_known, add_deleted, add_moved, add_deferred, move_to,
  nth, act, place_unit, place, place_all, all_indexes, maximum, act_all, Placed, placed_at,
  decide_and_act, unit_of, sort_decisions, run_units, run, finish, is_earlier, no_counts,
}

module _ (S : Site) where
  abbrev Keeps : {A : Type 0} → World S → Exit A × World S → Type 0
  Keeps w x = x.1 ≡ w

  bind-Keeps :
      {A B : Type 0} (m : M S A) (k : A → M S B) (w : World S)
      → Keeps w (m w)
      → ((a : A) → Keeps w (k a w))
      → Keeps w (◌>>=◌ S m k w)
  bind-Keeps m k w h f = of_result (m w) h
    where
      of_result : (x : Exit _ × World S) → Keeps w x → Keeps w (◌>>=◌ S (λ _. x) k w)
      of_result (ok a, v) h = subst (λ y. Keeps w (k a y)) (sym h) (f a)
      of_result (refusal e, v) h = h
      of_result (deferred, v) h = h
      of_result (failure, v) h = h
      of_result (crash, v) h = h

module _ (S : Site) (path_text : FilePath → String) (day_of : ℕ → Date) where
  settle-Keeps :
      (done : Counts → Counts) (c : Counts) (w : World S) (x : Exit (Unit {0}) × World S)
      → Keeps S w x
      → Keeps S w (settle S path_text day_of done c x)
  settle-Keeps done c w (ok _, v) h = h
  settle-Keeps done c w (refusal _, v) h = h
  settle-Keeps done c w (deferred, v) h = h
  settle-Keeps done c w (failure, v) h = h
  settle-Keeps done c w (crash, v) h = h

  some_or_raise-Keeps :
      {A B : Type 0} (o : Option A) (f : A → M S B) (w : World S)
      → ((a : A) → Keeps S w (f a w))
      → Keeps S w (some_or_raise S path_text day_of o f w)
  some_or_raise-Keeps none f w h = refl
  some_or_raise-Keeps (some a) f w h = h a

  act-Keeps :
      (stages : List Stage) (u : ManagedUnit) (d : Decision) (c : Counts) (w : World S)
      → Keeps S w (act S path_text day_of false stages u d c w)
  unfolding act
  act-Keeps stages u d c w = of_action d.action
    where
      of_action :
          (a : Action)
          → Keeps S w (act S path_text day_of false stages u (record d { action = a }) c w)
      of_action Action.hold = refl
      of_action Action.stay = refl
      of_action Action.delete =
          settle-Keeps add_deleted c w (Runner.delete S false u w)
            (dry_run-unchanged S u [] [] [] w).1
      of_action Action.move =
          settle-Keeps add_moved c w (move_to S path_text day_of false stages u d.target w) (
            some_or_raise-Keeps d.target _ w (λ t.
              some_or_raise-Keeps (nth t stages) (λ s. Runner.move S false u s.paths) w
                (λ s. (dry_run-unchanged S u s.paths [] [] w).0)))

  settle_placed-Keeps :
      (more : Placed) (c : Counts) (placed : Placed) (w : World S) (x : Exit (Unit {0}) × World S)
      → Keeps S w x
      → Keeps S w (settle_placed S path_text day_of more c placed x)
  settle_placed-Keeps more c placed w (ok _, v) h = h
  settle_placed-Keeps more c placed w (refusal _, v) h = h
  settle_placed-Keeps more c placed w (deferred, v) h = h
  settle_placed-Keeps more c placed w (failure, v) h = h
  settle_placed-Keeps more c placed w (crash, v) h = h

  place_unit-Keeps :
      (u : ManagedUnit) (i : ℕ) (c : Counts) (placed : Placed) (staying left : List Location)
      (w : World S)
      → Keeps S w (place_unit S path_text day_of false u i c placed staying left w)
  place_unit-Keeps u i c placed staying [] w = refl
  place_unit-Keeps u i c placed staying (l ∷ ls) w =
      settle_placed-Keeps _ c placed w (complete_interrupted S false u staying (l ∷ ls) w)
        (let (_, _, h) = dry_run-unchanged S u [] staying (l ∷ ls) w in h)

  place_known-Keeps :
      (stages : List Stage) (u : ManagedUnit) (c : Counts) (placed : Placed) (o : Option (List ℕ))
      (w : World S)
      → Keeps S w (place_known S path_text day_of false stages u c placed o w)
  place_known-Keeps stages u c placed none w = refl
  place_known-Keeps stages u c placed (some []) w = refl
  place_known-Keeps stages u c placed (some (i ∷ is)) w =
      let current = maximum (i ∷ is) in
      place_unit-Keeps u current c placed
        (keep_if (λ l. not (is_earlier stages current l)) u.locations)
        (keep_if (is_earlier stages current) u.locations) w

  place-Keeps :
      (stages : List Stage) (running : String → Bool) (u : ManagedUnit) (c : Counts)
      (placed : Placed) (w : World S)
      → Keeps S w (place S path_text day_of false stages running u c placed w)
  unfolding place
  place-Keeps stages running u c placed w = of_test (running u.series)
    where
      of_test :
          (b : Bool)
          → Keeps S w (
              (if b
                  then pure S (add_deferred c, placed)
                  else place_known S path_text day_of false stages u c placed
                      (all_indexes stages u.locations))
                w)
      of_test true = refl
      of_test false = place_known-Keeps stages u c placed (all_indexes stages u.locations) w

  place_all-Keeps :
      (stages : List Stage) (running : String → Bool) (us : List ManagedUnit) (c : Counts)
      (placed : Placed) (w : World S)
      → Keeps S w (place_all S path_text day_of false stages running us c placed w)
  unfolding place_all
  place_all-Keeps stages running [] c placed w = refl
  place_all-Keeps stages running (u ∷ us) c placed w =
      bind-Keeps S (place S path_text day_of false stages running u c placed)
        (λ x. place_all S path_text day_of false stages running us x.0 x.1) w
        (place-Keeps stages running u c placed w) (λ x. place_all-Keeps stages running us x.0 x.1 w)

  act_all-Keeps :
      (stages : List Stage) (placed : Placed) (ds : List Decision) (c : Counts) (w : World S)
      → Keeps S w (act_all S path_text day_of false stages placed ds c w)
  unfolding act_all
  act_all-Keeps stages placed [] c w = refl
  act_all-Keeps stages placed (d ∷ ds) c w =
      some_or_raise-Keeps (placed_at d.unit.id placed)
        (λ x.
          ◌>>=◌ S (act S path_text day_of false stages x.0 d c)
            λ c'. act_all S path_text day_of false stages placed ds c')
        w
        (λ x.
          bind-Keeps S (act S path_text day_of false stages x.0 d c)
            (λ c'. act_all S path_text day_of false stages placed ds c') w
            (act-Keeps stages x.0 d c w) (λ c'. act_all-Keeps stages placed ds c' w))

  decide_and_act-Keeps :
      (stages : List Stage) (today : Date) (c : Counts) (placed : Placed) (w : World S)
      → Keeps S w (decide_and_act S path_text day_of false stages today c placed w)
  unfolding decide_and_act
  decide_and_act-Keeps stages today c placed w =
      some_or_raise-Keeps (decide (map (unit_of S path_text day_of) placed) stages today)
        (λ ds. act_all S path_text day_of false stages placed (sort_decisions ds) c) w
        (λ ds. act_all-Keeps stages placed (sort_decisions ds) c w)

  -- A dry run changes nothing: whatever the units and their decisions are, and however it ends, a
  -- run without `apply` leaves the disk and the tables as they are.
  pub run-Keeps :
      (run_id failures : ℕ) (stages : List Stage) (today : Date) (running : String → Bool)
      (loaded : Loaded) (w : World S)
      → (run S path_text day_of false run_id failures stages today running loaded w).1 ≡ w
  unfolding run run_units
  run-Keeps run_id failures stages today running loaded w =
      bind-Keeps S (run_units S path_text day_of false stages today running loaded.units)
        (λ c. finish S path_text day_of false run_id loaded.unmanaged failures c) w
        (bind-Keeps S (place_all S path_text day_of false stages running loaded.units no_counts [])
          (λ x. decide_and_act S path_text day_of false stages today x.0 x.1) w
          (place_all-Keeps stages running loaded.units no_counts [] w)
          (λ x. decide_and_act-Keeps stages today x.0 x.1 w))
        (λ c. refl)
