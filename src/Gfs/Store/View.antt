-- ===== src/Gfs/Store/View.antt =====
-- bdbackup/gfs/store.py: the store as maps from ids and paths, and what each operation does to them.
use bdbackup.Base.{
  ℕ, ◌≡◌, refl, ap, ◌∙◌, Bool, true, false, Option, none, some, List, [], ◌∷◌, ◌++◌, ◌==◌, ==_iff,
  if◌then◌else◌, String,
}
use bdbackup.Base.FilePath.{FilePath, path_eq}
use bdbackup.Gfs.Store.{
  Location, UnitRow, RunRow, RunStatus, ManagedUnit, Tables, lookup, unit_row, locations_of,
  mark_deleted, update_run,
}
use bdbackup.Gfs.Store.Laws.{without}
use bdbackup.Gfs.Store.Steps.{
  Step, unit_recorded, move_recorded, delete_recorded, members_recorded, run_begun, run_finished,
  run_failed, records_changed,
}

-- The row of `gfs_runs` with an id.
abbrev pub run_of : ℕ → List RunRow → Option RunRow
run_of k [] = none
run_of k (r ∷ rs) = if r.id == k then some r else run_of k rs

-- The store as maps: the locations of a unit, the row of a unit path, the judgment of a record and the
-- row of a run.
pub record View : Type 0 where
  pub held : ℕ → List Location
  pub row : FilePath → Option UnitRow
  pub judged : ℕ → Option Bool
  pub run : ℕ → Option RunRow

abbrev pub view : Tables → View
view db = record {
  held = λ k. locations_of k db.locations;
  row = λ p. unit_row p db.units;
  judged = λ k. lookup k db.members;
  run = λ k. run_of k db.runs;
}

abbrev pub map_some : {A : Type 0} → (A → A) → Option A → Option A
map_some f none = none
map_some f (some a) = some (f a)

abbrev pub or_else : {A : Type 0} → Option A → Option A → Option A
or_else none o = o
or_else (some a) o = some a

abbrev pub new_unit : ℕ → ManagedUnit → UnitRow
new_unit i u = record {
  id = i;
  unit = u.unit;
  series = u.series;
  relative = u.relative;
  deleted = false;
}

abbrev pub new_run : ℕ → String → RunRow
new_run i job = record {
  id = i;
  gfs_job = job;
  status = RunStatus.running;
  exit_code = none;
  counts = none;
}

-- What an operation does to the maps: a new unit gets its row and its locations under the id that is
-- given out; a move exchanges locations of its unit only; a deletion takes the locations of its unit
-- and marks its row; a judgment is remembered once; a run begins, completes or fails for itself alone.
abbrev pub effect : (db db' : Tables) → Step db db' → View → View
effect _ _ (unit_recorded db db' u i h) v = record v {
  held = λ k. if db.next_unit == k then v.held k ++ u.locations else v.held k;
  row = λ p. or_else (v.row p) (if path_eq p u.unit then some (new_unit db.next_unit u) else none);
}
effect _ _ (move_recorded db db' i new removed h) v = record v {
  held = λ k. if i == k then without removed (v.held k ++ new) else v.held k;
}
effect _ _ (delete_recorded db i) v = record v {
  held = λ k. if i == k then [] else v.held k;
  row = λ p. map_some (λ r. if r.id == i then record r { deleted = true } else r) (v.row p);
}
effect _ _ (members_recorded db seen) v = record v {
  judged = λ k. or_else (v.judged k) (lookup k seen);
}
effect _ _ (run_begun db job) v = record v {
  run = λ k. or_else (v.run k) (if db.next_run == k then some (new_run db.next_run job) else none);
}
effect _ _ (run_finished db i code counts) v = record v {
  run = λ k.
      map_some
        (λ r.
          if k == i
          then record r {
            status = RunStatus.completed;
            exit_code = some code;
            counts = some counts;
          }
          else r)
        (v.run k);
}
effect _ _ (run_failed db i) v = record v {
  run = λ k. map_some (λ r. if k == i then record r { status = RunStatus.failed } else r) (v.run k);
}
effect _ _ (records_changed db rs) v = v

-- Two views that agree everywhere.
pub record Agrees (v w : View) : Type 0 where
  pub held : (k : ℕ) → v.held k ≡ w.held k
  pub row : (p : FilePath) → v.row p ≡ w.row p
  pub judged : (k : ℕ) → v.judged k ≡ w.judged k
  pub run : (k : ℕ) → v.run k ≡ w.run k

module _ {A : Type 0} where
  pub snoc_step :
      (b : Bool) (x : A) (l m o : Option A)
      → l ≡ or_else m o
      → (if b then some x else l) ≡ or_else (if b then some x else m) o
  snoc_step true x l m o e = refl
  snoc_step false x l m o e = e

  pub map_step :
      (f : A → A) (b : Bool) (x : A) (l m : Option A)
      → l ≡ map_some f m
      → (if b then some (f x) else l) ≡ map_some f (if b then some x else m)
  map_step f true x l m e = refl
  map_step f false x l m e = e

  pub same_field :
      {B : Type 0} (g : A → B) (f : A → A) (b : Bool) (x : A)
      → g (f x) ≡ g x
      → g (if b then f x else x) ≡ g x
  same_field g f true x e = e
  same_field g f false x e = refl

pub unit_row-snoc :
    (p : FilePath) (rows : List UnitRow) (r : UnitRow)
    → unit_row p (rows ++ (r ∷ []))
      ≡ or_else (unit_row p rows) (if path_eq p r.unit then some r else none)
unfolding unit_row
unit_row-snoc p [] r = refl
unit_row-snoc p (x ∷ rows) r = snoc_step (path_eq p x.unit) x _ _ _ (unit_row-snoc p rows r)

abbrev pub marked : ℕ → UnitRow → UnitRow
marked i r = if r.id == i then record r { deleted = true } else r

pub unit_row-mark_deleted :
    (p : FilePath) (i : ℕ) (rows : List UnitRow)
    → unit_row p (mark_deleted i rows) ≡ map_some (marked i) (unit_row p rows)
unfolding unit_row
unit_row-mark_deleted p i [] = refl
unit_row-mark_deleted p i (x ∷ rows) =
    ap (λ q. if path_eq p q then some (marked i x) else unit_row p (mark_deleted i rows))
      (same_field (λ (r : UnitRow). r.unit) (λ r. record r { deleted = true }) (x.id == i) x refl)
    ∙ map_step (marked i) (path_eq p x.unit) x _ _ (unit_row-mark_deleted p i rows)

pub run_of-snoc :
    (k : ℕ) (rows : List RunRow) (r : RunRow)
    → run_of k (rows ++ (r ∷ [])) ≡ or_else (run_of k rows) (if r.id == k then some r else none)
run_of-snoc k [] r = refl
run_of-snoc k (x ∷ rows) r = snoc_step (x.id == k) x _ _ _ (run_of-snoc k rows r)

pub run_of-update_run :
    (f : RunRow → RunRow) (i k : ℕ) (rows : List RunRow)
    → ((r : RunRow) → (f r).id ≡ r.id)
    → run_of k (update_run i f rows) ≡ map_some (λ r. if k == i then f r else r) (run_of k rows)
run_of-update_run f i k [] h = refl
run_of-update_run f i k (x ∷ rows) h =
    ap (λ q. if q == k then some (changed x.id) else run_of k (update_run i f rows))
      (same_field (λ (r : RunRow). r.id) f (x.id == i) x (h x))
    ∙ head (x.id == k) _ _ (λ t. ap (λ q. some (changed q)) ((==_iff x.id k).0 t))
        (run_of-update_run f i k rows h)
  where
    changed : ℕ → RunRow
    changed q = if q == i then f x else x

    head :
        (b : Bool) (l m : Option RunRow)
        → (b ≡ true → some (changed x.id) ≡ some (changed k))
        → l ≡ map_some (λ r. if k == i then f r else r) m
        → (if b then some (changed x.id) else l)
          ≡ map_some (λ r. if k == i then f r else r) (if b then some x else m)
    head true l m e q = e refl
    head false l m e q = q
