-- ===== src/Gfs/Run.antt =====
-- bdbackup/gfs/runner.py: one run over all units, from the loaded units to the exit code.
-- The report and the log of steps have no part in it.
pub mod DryRun
pub mod Tally
use bdbackup.Base.{
  ℕ, zero, suc, ◌+◌, Bool, true, false, not, ◌&&◌, ◌||◌, Option, none, some, List, [], ◌∷◌, ◌++◌,
  map, String, str_eq, ltb, ◌==◌, if◌then◌else◌, any_of, keep_if, max,
}
use bdbackup.Base.FilePath.{FilePath, path_eq}
use bdbackup.Gfs.Calendar.{Date}
use bdbackup.Gfs.Stages.{Stage}
use bdbackup.Gfs.Policy.{BackupUnit, Decision, Action, stay, move, delete, hold, key_lt, decide}
use bdbackup.Gfs.Store.{
  Location, ManagedUnit, Tables, Counts, running_backups, record_members, begin_run, finish_run,
  fail_run,
}
use bdbackup.Gfs.Store.Load.{Loaded}
use bdbackup.Gfs.Runner
use bdbackup.Gfs.Runner.{
  Site, World, Exit, ok, refusal, deferred, failure, crash, M, ◌>>=◌, ◌>>◌, pure, ensure_row,
  commit, complete_interrupted,
}

abbrev pub no_counts : Counts
no_counts = record {
  moved = 0;
  deleted = 0;
  held = 0;
  deferred = 0;
  refused = 0;
  failed = 0;
  unmanaged = 0;
}

abbrev pub add_moved : Counts → Counts
add_moved c = record c { moved = suc c.moved }

abbrev pub add_deleted : Counts → Counts
add_deleted c = record c { deleted = suc c.deleted }

abbrev pub add_held : Counts → Counts
add_held c = record c { held = suc c.held }

abbrev pub add_deferred : Counts → Counts
add_deferred c = record c { deferred = suc c.deferred }

abbrev pub add_refused : Counts → Counts
add_refused c = record c { refused = suc c.refused }

abbrev pub add_failed : Counts → Counts
add_failed c = record c { failed = suc c.failed }

-- `exit_code`
unfoldable pub exit_code : Counts → ℕ
exit_code c =
    if not (c.failed == 0) || not (c.refused == 0) then 1 else if c.deferred == 0 then 0 else 3

-- `_stage_index`
unfoldable pub stage_index : ℕ → List Stage → Location → Option ℕ
stage_index i [] l = none
stage_index i (s ∷ ss) l =
    if any_of (path_eq l.stage_path) s.paths then some i else stage_index (suc i) ss l

-- The indexes of all locations, if there is a location and each has one.
unfoldable pub all_indexes : List Stage → List Location → Option (List ℕ)
unfolding stage_index
all_indexes stages [] = some []
all_indexes stages (l ∷ ls) = elim (stage_index 0 stages l) [
  | none ↦ none
  | some i ↦ elim (all_indexes stages ls) [ none ↦ none | some is ↦ some (i ∷ is) ]
]

abbrev pub maximum : List ℕ → ℕ
maximum [] = 0
maximum (i ∷ is) = max i (maximum is)

-- The locations in an earlier stage than the current one, and the others.
abbrev pub is_earlier : List Stage → ℕ → Location → Bool
is_earlier stages current l = elim (stage_index 0 stages l) [
  | none ↦ false
  | some i ↦ ltb i current
]

abbrev pub nth : ℕ → List Stage → Option Stage
nth i [] = none
nth zero (s ∷ ss) = some s
nth (suc i) (s ∷ ss) = nth i ss

-- `sorted(decisions, key=lambda d: (d.unit.day, str(d.unit.id)))`, by stable insertion.
unfoldable pub insert_decision : Decision → List Decision → List Decision
insert_decision d [] = d ∷ []
insert_decision d (e ∷ es) =
    let rest = insert_decision d es in if key_lt e.unit d.unit then e ∷ rest else d ∷ e ∷ es

unfoldable pub sort_decisions : List Decision → List Decision
unfolding insert_decision
sort_decisions [] = []
sort_decisions (d ∷ ds) = insert_decision d (sort_decisions ds)

-- `placed`: each unit with the index of its stage, under the text of its path.
abbrev pub Placed : Type 0
Placed = List (String × ManagedUnit × ℕ)

abbrev pub placed_at : String → Placed → Option (ManagedUnit × ℕ)
placed_at k [] = none
placed_at k ((j, u, i) ∷ ps) = if str_eq j k then some (u, i) else placed_at k ps

-- What the runner calls: the text of a path, and the day of an instant.
module _ (S : Site) (path_text : FilePath → String) (day_of : ℕ → Date) where
  -- The `except` clauses: how the tally counts the end of an action; a crash ends the run.
  abbrev pub settle : (Counts → Counts) → Counts → Exit (Unit {0}) × World S → Exit Counts × World S
  settle done c (e, w) = elim e [
    | ok _ ↦ (ok (done c), w)
    | refusal _ ↦ (ok (add_refused c), w)
    | deferred ↦ (ok (add_deferred c), w)
    | failure ↦ (ok (add_failed c), w)
    | crash ↦ (crash, w)
  ]

  -- `ensure_row`, which a dry run skips.
  abbrev pub keep_row : Bool → ManagedUnit → M S (Unit {0})
  keep_row true u = ◌>>=◌ S (ensure_row S u) λ _. pure S tt
  keep_row false u = pure S tt

  -- An index or a key that does not exist raises.
  abbrev pub some_or_raise : {A B : Type 0} → Option A → (A → M S B) → M S B
  some_or_raise none f w = (failure, w)
  some_or_raise (some a) f w = f a w

  -- A move to the target stage.
  abbrev pub move_to : Bool → List Stage → ManagedUnit → Option ℕ → M S (Unit {0})
  move_to apply stages u target =
      some_or_raise target λ t. some_or_raise (nth t stages) λ s. Runner.move S apply u s.paths

  -- `act`
  unfoldable pub act : Bool → List Stage → ManagedUnit → Decision → Counts → M S Counts
  act apply stages u d c w = elim d.action [
    | Action.move ↦ settle add_moved c (move_to apply stages u d.target w)
    | Action.delete ↦ settle add_deleted c (Runner.delete S apply u w)
    | Action.hold ↦ (ok (add_held c), w)
    | Action.stay ↦ settle (λ x. x) c (keep_row apply u w)
  ]

  abbrev pub completed : ManagedUnit → List Location → ManagedUnit
  completed u staying = record u { locations = staying }

  abbrev pub add_placed : Bool → ManagedUnit → ℕ → List Location → Placed → Placed
  add_placed apply u current staying placed =
      placed ++ ((path_text u.unit, if apply then completed u staying else u, current) ∷ [])

  -- What is neither a refusal nor a lock leaves the loop.
  abbrev pub settle_placed :
      Placed → Counts → Placed → Exit (Unit {0}) × World S → Exit (Counts × Placed) × World S
  settle_placed more c placed (e, w) = elim e [
    | ok _ ↦ (ok (c, more), w)
    | refusal _ ↦ (ok (add_refused c, placed), w)
    | deferred ↦ (ok (add_deferred c, placed), w)
    | failure ↦ (failure, w)
    | crash ↦ (crash, w)
  ]

  -- The end of the first loop's body, for the locations that stay and the leftovers.
  abbrev pub place_unit :
      Bool
      → ManagedUnit
      → ℕ
      → Counts
      → Placed
      → List Location
      → List Location
      → M S (Counts × Placed)
  place_unit apply u current c placed staying [] w =
      (ok (c, placed ++ ((path_text u.unit, u, current) ∷ [])), w)
  place_unit apply u current c placed staying (l ∷ ls) w =
      settle_placed (add_placed apply u current staying placed) c placed
        (complete_interrupted S apply u staying (l ∷ ls) w)

  abbrev pub refuse_unit : Bool → ManagedUnit → Counts → Placed → M S (Counts × Placed)
  refuse_unit apply u c placed = ◌>>=◌ S (keep_row apply u) λ _. pure S (add_refused c, placed)

  -- For the indexes of the unit's locations.
  abbrev pub place_known :
      Bool → List Stage → ManagedUnit → Counts → Placed → Option (List ℕ) → M S (Counts × Placed)
  place_known apply stages u c placed (some (i ∷ is)) =
      let current = maximum (i ∷ is) in
      place_unit apply u current c placed
        (keep_if (λ l. not (is_earlier stages current l)) u.locations)
        (keep_if (is_earlier stages current) u.locations)
  place_known apply stages u c placed _ = refuse_unit apply u c placed

  -- The body of the first loop; `running` are the jobs that back up right now.
  unfoldable pub place :
      Bool → List Stage → (String → Bool) → ManagedUnit → Counts → Placed → M S (Counts × Placed)
  unfolding all_indexes
  place apply stages running u c placed =
      if running u.series
      then pure S (add_deferred c, placed)
      else place_known apply stages u c placed (all_indexes stages u.locations)

  unfoldable pub place_all :
      Bool
      → List Stage
      → (String → Bool)
      → List ManagedUnit
      → Counts
      → Placed
      → M S (Counts × Placed)
  unfolding place
  place_all apply stages running [] c placed = pure S (c, placed)
  place_all apply stages running (u ∷ us) c placed =
      ◌>>=◌ S (place apply stages running u c placed) λ x. place_all apply stages running us x.0 x.1

  -- The loop over the sorted decisions; `placed` has every decided unit.
  unfoldable pub act_all : Bool → List Stage → Placed → List Decision → Counts → M S Counts
  unfolding act
  act_all apply stages placed [] c = pure S c
  act_all apply stages placed (d ∷ ds) c =
      some_or_raise (placed_at d.unit.id placed)
        λ x. ◌>>=◌ S (act apply stages x.0 d c) λ c'. act_all apply stages placed ds c'

  abbrev pub unit_of : String × ManagedUnit × ℕ → BackupUnit
  unit_of (k, u, current) = record {
    id = k;
    series = u.series;
    day = day_of u.time;
    stage = current;
  }

  -- The decisions, and the actions in their order.
  unfoldable pub decide_and_act : Bool → List Stage → Date → Counts → Placed → M S Counts
  unfolding sort_decisions act_all
  decide_and_act apply stages today c placed =
      some_or_raise (decide (map unit_of placed) stages today)
        λ ds. act_all apply stages placed (sort_decisions ds) c

  -- `_run` behind the judgments, up to the completed row: the tally of the actions.
  unfoldable pub run_units :
      Bool → List Stage → Date → (String → Bool) → List ManagedUnit → M S Counts
  unfolding place_all decide_and_act
  run_units apply stages today running us =
      ◌>>=◌ S (place_all apply stages running us no_counts [])
        λ x. decide_and_act apply stages today x.0 x.1

  -- The transactions of a run that change its own tables; a dry run has none.
  abbrev pub when : Bool → (Tables → Tables) → M S (Unit {0})
  when b f = if b then commit S (λ t. some (f t)) else pure S tt

  abbrev pub is_nil : List (ℕ × Bool) → Bool
  is_nil [] = true
  is_nil _ = false

  -- `snapshot` adds what failed to the tally, and a changed tally is written again.
  abbrev pub finish : Bool → ℕ → ℕ → ℕ → Counts → M S ℕ
  finish apply run_id unmanaged failures c =
      let c' = record c { unmanaged = unmanaged } in
      let after = record c' { failed = c.failed + failures } in
      ◌>>◌ S (when apply (λ t. finish_run t run_id (exit_code c') c')) (
        ◌>>◌ S
          (when (apply && not (failures == 0)) (λ t. finish_run t run_id (exit_code after) after))
          (pure S (exit_code (if apply then after else c'))))

  -- `_run` for loaded units; `failures` counts the snapshots that fail.
  unfoldable pub run : Bool → ℕ → ℕ → List Stage → Date → (String → Bool) → Loaded → M S ℕ
  unfolding run_units exit_code
  run apply run_id failures stages today running loaded =
      ◌>>◌ S
        (when (apply && not (is_nil loaded.judgments)) (λ t. record_members t loaded.judgments))
        (◌>>=◌ S (run_units apply stages today running loaded.units)
          λ c. finish apply run_id loaded.unmanaged failures c)
