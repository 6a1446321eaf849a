-- ===== src/Gfs/Store/Effects.antt =====
-- bdbackup/gfs/store.py: the operations on the tables have their effects on the maps.
use bdbackup.Base.{
  ℕ, ◌≡◌, refl, sym, ap, subst, ◌∙◌, inl, inr, Bool, true, false, Option, none, some, List, [],
  ◌++◌, ◌==◌, append-nil, if◌then◌else◌, any_of, Bool-cases, Option-cases,
}
use bdbackup.Base.FilePath.{path_eq}
use bdbackup.Gfs.Store.{
  Location, ManagedUnit, Tables, lookup, unit_row, locations_of, insert_locations, record_unit,
  record_move, record_delete, record_members, begin_run, finish_run, fail_run,
}
use bdbackup.Gfs.Store.Laws.{
  without, insert_locations-of, locations_of-record_move, locations_of-record_delete,
  lookup-record_members,
}
use bdbackup.Gfs.Store.Steps.{
  Step, unit_recorded, move_recorded, delete_recorded, members_recorded, run_begun, run_finished,
  run_failed, records_changed, result_or, Reach, here, next,
}
use bdbackup.Gfs.Store.View.{
  run_of, View, view, map_some, or_else, new_unit, new_run, effect, Agrees, unit_row-snoc, marked,
  unit_row-mark_deleted, run_of-snoc, run_of-update_run,
}

Agrees-refl : (v : View) → Agrees v v
Agrees-refl v = record { held = λ k. refl; row = λ p. refl; judged = λ k. refl; run = λ k. refl }

record_unit-Agrees :
    (db db' : Tables) (u : ManagedUnit) (i : ℕ) (h : record_unit db u ≡ some (i, db'))
    → Agrees (view db') (effect db db' (unit_recorded db db' u i h) (view db))
unfolding record_unit
record_unit-Agrees db db' u i h = elim (Bool-cases (any_of (λ r. path_eq r.unit u.unit) db.units)) [
  | inl t ↦ absurd (cc (rw (record_unit, t) at h))
  | inr t ↦ elim (Option-cases (insert_locations db.next_unit u.locations db.locations)) [
    | inl e ↦ absurd (cc (rw (record_unit, t, e) at h))
    | inr (rows, e) ↦
        subst (λ x. Agrees (view x) (effect db db' (unit_recorded db db' u i h) (view db)))
          (ap (λ (o : Option (ℕ × Tables)). (result_or (i, db') o).1) (rw (record_unit, t, e) at h))
          (record {
            held = λ k.
                insert_locations-of db.next_unit k u.locations db.locations rows e
                ∙ appended (db.next_unit == k) (locations_of k db.locations);
            row = λ p. unit_row-snoc p db.units (new_unit db.next_unit u);
            judged = λ k. refl;
            run = λ k. refl;
          })
  ]
]
  where
    appended :
        (b : Bool) (ls : List Location)
        → ls ++ (if b then u.locations else []) ≡ (if b then ls ++ u.locations else ls)
    appended true ls = refl
    appended false ls = append-nil ls

record_move-Agrees :
    (db db' : Tables) (i : ℕ) (new removed : List Location)
    (h : record_move db i new removed ≡ some db')
    → Agrees (view db') (effect db db' (move_recorded db db' i new removed h) (view db))
unfolding record_move
record_move-Agrees db db' i new removed h =
    elim (Option-cases (insert_locations i new db.locations)) [
      | inl e ↦ absurd (cc (rw (record_move, e) at h))
      | inr (rows, e) ↦
          let same = ap (result_or db') (rw (record_move, e) at h) in
          record {
            held = λ k. locations_of-record_move db i k new removed db' h;
            row = λ p. ap (λ (x : Tables). unit_row p x.units) (sym same);
            judged = λ k. ap (λ (x : Tables). lookup k x.members) (sym same);
            run = λ k. ap (λ (x : Tables). run_of k x.runs) (sym same);
          }
    ]

-- Each operation has its effect on the maps, and no other.
pub Step-Agrees :
    (db db' : Tables) (s : Step db db') → Agrees (view db') (effect db db' s (view db))
unfolding record_members finish_run fail_run begin_run record_delete
Step-Agrees _ _ (unit_recorded db db' u i h) = record_unit-Agrees db db' u i h
Step-Agrees _ _ (move_recorded db db' i new removed h) = record_move-Agrees db db' i new removed h
Step-Agrees _ _ (delete_recorded db i) = record {
  held = λ k. locations_of-record_delete db i k;
  row = λ p. unit_row-mark_deleted p i db.units;
  judged = λ k. refl;
  run = λ k. refl;
}
Step-Agrees _ _ (members_recorded db seen) = record {
  held = λ k. refl;
  row = λ p. refl;
  judged = λ k. lookup-record_members db seen k ∙ first (lookup k db.members) (lookup k seen);
  run = λ k. refl;
}
  where
    first : (o n : Option Bool) → (elim o [ none ↦ n | some b ↦ some b ]) ≡ or_else o n
    first none n = refl
    first (some b) n = refl
Step-Agrees _ _ (run_begun db job) = record {
  held = λ k. refl;
  row = λ p. refl;
  judged = λ k. refl;
  run = λ k. run_of-snoc k db.runs (new_run db.next_run job);
}
Step-Agrees _ _ (run_finished db i code counts) = record {
  held = λ k. refl;
  row = λ p. refl;
  judged = λ k. refl;
  run = λ k. run_of-update_run _ i k db.runs (λ r. refl);
}
Step-Agrees _ _ (run_failed db i) = record {
  held = λ k. refl;
  row = λ p. refl;
  judged = λ k. refl;
  run = λ k. run_of-update_run _ i k db.runs (λ r. refl);
}
Step-Agrees _ _ (records_changed db rs) = Agrees-refl (view db)

Agrees-trans : {u v w : View} → Agrees u v → Agrees v w → Agrees u w
Agrees-trans a b = record {
  held = λ k. a.held k ∙ b.held k;
  row = λ p. a.row p ∙ b.row p;
  judged = λ k. a.judged k ∙ b.judged k;
  run = λ k. a.run k ∙ b.run k;
}

effect-Agrees :
    (db db' : Tables) (s : Step db db') (v w : View)
    → Agrees v w
    → Agrees (effect db db' s v) (effect db db' s w)
effect-Agrees _ _ (unit_recorded db db' u i h) v w a = record {
  held = λ k. ap (λ ls. if db.next_unit == k then ls ++ u.locations else ls) (a.held k);
  row = λ p.
      ap (λ r. or_else r (if path_eq p u.unit then some (new_unit db.next_unit u) else none))
        (a.row p);
  judged = a.judged;
  run = a.run;
}
effect-Agrees _ _ (move_recorded db db' i new removed h) v w a = record {
  held = λ k. ap (λ ls. if i == k then without removed (ls ++ new) else ls) (a.held k);
  row = a.row;
  judged = a.judged;
  run = a.run;
}
effect-Agrees _ _ (delete_recorded db i) v w a = record {
  held = λ k. ap (λ ls. if i == k then [] else ls) (a.held k);
  row = λ p. ap (map_some (marked i)) (a.row p);
  judged = a.judged;
  run = a.run;
}
effect-Agrees _ _ (members_recorded db seen) v w a = record {
  held = a.held;
  row = a.row;
  judged = λ k. ap (λ o. or_else o (lookup k seen)) (a.judged k);
  run = a.run;
}
effect-Agrees _ _ (run_begun db job) v w a = record {
  held = a.held;
  row = a.row;
  judged = a.judged;
  run = λ k.
      ap (λ o. or_else o (if db.next_run == k then some (new_run db.next_run job) else none))
        (a.run k);
}
effect-Agrees _ _ (run_finished db i code counts) v w a = record {
  held = a.held;
  row = a.row;
  judged = a.judged;
  run = λ k. ap (map_some _) (a.run k);
}
effect-Agrees _ _ (run_failed db i) v w a = record {
  held = a.held;
  row = a.row;
  judged = a.judged;
  run = λ k. ap (map_some _) (a.run k);
}
effect-Agrees _ _ (records_changed db rs) v w a = a

-- The effects of a sequence of operations, one after the other.
abbrev pub effects : {start db : Tables} → Reach start db → View → View
effects here v = v
effects (next {db = db} {db' = db'} r s) v = effect db db' s (effects r v)

-- The tables refine the maps: whatever sequence of operations leads from one state of the tables to
-- another, what the tables then hold for each unit, unit path, record and run is what the effects of
-- these operations, one after the other, make of what they held before.
pub Reach-Agrees :
    (start db : Tables) (r : Reach start db) → Agrees (view db) (effects r (view start))
Reach-Agrees start _ here = Agrees-refl (view start)
Reach-Agrees start _ (next {db = db} {db' = db'} r s) =
    Agrees-trans (Step-Agrees db db' s)
      (effect-Agrees db db' s (view db) (effects r (view start)) (Reach-Agrees start db r))
