-- ===== src/Tests/Moves.antt =====
-- Moves, dry runs and the tables at a small site.
use bdbackup.Base.{
  ◌≡◌, refl, inl, true, false, none, some, List, [], ◌∷◌, ◌++◌, String, str_eq, if◌then◌else◌,
}
use bdbackup.Base.FilePath.{path_eq}
use bdbackup.Gfs.Calendar.{date}
use bdbackup.Gfs.Stages.{Stage, days, weeks, daily, weekly}
use bdbackup.Gfs.Policy.{Decision, Action, in_place}
use bdbackup.Gfs.Store.{
  Location, ManagedUnit, Tables, locations_of, record_move, record_delete, record_unit, begin_run,
  insert_locations, delete_locations,
}
use bdbackup.Gfs.Store.View.{Agrees, view}
use bdbackup.Gfs.Store.Effects.{effects, Reach-Agrees}
use bdbackup.Gfs.Store.Steps.{
  Reach, here, next, unit_recorded, move_recorded, delete_recorded, run_begun,
}
use bdbackup.Gfs.Store.Laws.{without, locations_of-record_move}
use bdbackup.Gfs.Runner.{
  Site, World, refusal, Refused, Outcome, works, crashes, move, move_from, verify_all, copy_all,
  publish, drop_staged,
}
use bdbackup.Gfs.Runner.Copies.{IsSafe}
use bdbackup.Gfs.Runner.Safety.{move-IsSafe}
use bdbackup.Gfs.Runner.Refusals.{move-refused}
use bdbackup.Gfs.Run.{act_all, run, exit_code, no_counts, add_moved, Placed}
use bdbackup.Gfs.Run.DryRun.{run-Keeps}
use bdbackup.Gfs.Run.Tally.{Ran, act_all-Ran}

abbrev site : Site
site = record {
  Node = String;
  holds = λ u n. str_eq n "whole";
  remains = λ n. some "torn";
  ready = λ p. true;
  busy = λ p. false;
}

abbrev first_copy : Location
first_copy = record { stage_path = "a" ∷ []; path = "a" ∷ "db" ∷ [] }

abbrev unit : ManagedUnit
unit = record {
  id = some 1;
  unit = "a" ∷ "db" ∷ [];
  series = "db";
  relative = "db" ∷ [];
  kind = "file";
  time = 0;
  members = [];
  locations = first_copy ∷ [];
  size = 5;
}

abbrev tables : Tables
tables = record {
  records = [];
  units = [];
  locations = record { unit_id = 1; location = first_copy } ∷ [];
  members = (7, true) ∷ [];
  runs = [];
  next_unit = 2;
  next_run = 1;
}

-- One copy in the first stage; the copy, the rename, the identities and the transaction work, and
-- the removal of the old copy crashes.
abbrev world : List Outcome → World site
world outcomes = record {
  disk = λ p. if path_eq p ("a" ∷ "db" ∷ []) then some "whole" else none;
  staged = λ p. none;
  tables = tables;
  schedule = outcomes;
}

move-IsSafe_example :
    IsSafe site unit 1
      (move site true unit
        (("b" ∷ []) ∷ [])
        (world (works ∷ works ∷ works ∷ works ∷ crashes ∷ []))).1
unfolding locations_of path_eq
move-IsSafe_example =
    move-IsSafe site unit 1 refl true ("b" ∷ []) []
      (world (works ∷ works ∷ works ∷ works ∷ crashes ∷ [])) (first_copy, inl refl) refl
      (("whole", refl, refl), tt)

move-refused_example :
    (r : Refused) × (move site true unit (("a" ∷ []) ∷ []) (world []) ≡ (refusal r, world []))
unfolding path_eq
move-refused_example =
    move-refused site true unit (("a" ∷ []) ∷ []) ("a" ∷ "db" ∷ []) "whole" (world []) (inl refl)
      refl

abbrev two_stages : List Stage
two_stages =
    record { paths = ("a" ∷ []) ∷ []; period = daily; keep = record { count = 7; unit = days } }
    ∷ record { paths = ("b" ∷ []) ∷ []; period = weekly; keep = record { count = 4; unit = weeks } }
    ∷ []

run-Keeps_example :
    (run site
      (λ p. "db")
      (λ t. date 2024 3 1)
      false
      1
      0
      two_stages
      (date 2024 3 20)
      (λ j. false)
      (record { units = unit ∷ []; unmanaged = 0; judgments = [] })
      (world [])).1
    ≡ world []
run-Keeps_example =
    run-Keeps site (λ p. "db") (λ t. date 2024 3 1) 1 0 two_stages (date 2024 3 20) (λ j. false)
      (record { units = unit ∷ []; unmanaged = 0; judgments = [] }) (world [])

abbrev placed_unit : Placed
placed_unit = ("db", unit, 0) ∷ []

abbrev to_second : Decision
to_second = record {
  unit = record { id = "db"; series = "db"; day = date 2024 3 1; stage = 0 };
  action = Action.move;
  target = some 1;
  reason = in_place;
}

abbrev moved_world : World site
unfolding act_all
moved_world =
    (act_all site (λ p. "db") (λ t. date 2024 3 1) true two_stages placed_unit (to_second ∷ [])
      no_counts (world [])).1

act_all-Ran_example :
    Ran site
      (λ p. "db")
      (λ t. date 2024 3 1)
      true
      two_stages
      placed_unit
      (to_second ∷ [])
      (world [])
      moved_world
unfolding moved_world move path_eq move_from verify_all copy_all publish record_move drop_staged
    exit_code
act_all-Ran_example =
    act_all-Ran site (λ p. "db") (λ t. date 2024 3 1) true two_stages placed_unit (to_second ∷ [])
      no_counts (add_moved no_counts) (world []) moved_world refl refl

abbrev second_copy : Location
second_copy = record { stage_path = "b" ∷ []; path = "b" ∷ "db" ∷ [] }

abbrev moved_tables : Tables
moved_tables = record tables { locations = record { unit_id = 1; location = second_copy } ∷ [] }

locations_of-record_move_example :
    locations_of 1 moved_tables.locations
    ≡ without (first_copy ∷ []) (locations_of 1 tables.locations ++ (second_copy ∷ []))
unfolding record_move path_eq
locations_of-record_move_example =
    locations_of-record_move tables 1 1 (second_copy ∷ []) (first_copy ∷ []) moved_tables refl

abbrev no_tables : Tables
no_tables = record {
  records = [];
  units = [];
  locations = [];
  members = [];
  runs = [];
  next_unit = 1;
  next_run = 1;
}

abbrev one_unit : Tables
one_unit = record no_tables {
  units =
      record {
        id = 1;
        unit = "a" ∷ "db" ∷ [];
        series = "db";
        relative = "db" ∷ [];
        deleted = false;
      }
      ∷ [];
  locations = record { unit_id = 1; location = first_copy } ∷ [];
  next_unit = 2;
}

abbrev one_moved : Tables
one_moved = record one_unit { locations = record { unit_id = 1; location = second_copy } ∷ [] }

-- A unit is recorded, moved and deleted, and a run begins.
abbrev history : Reach no_tables (begin_run (record_delete one_moved 1) "db").1
unfolding record_unit record_move path_eq insert_locations delete_locations
history =
    next
      (next
        (next (next here (unit_recorded no_tables one_unit unit 1 refl))
          (move_recorded one_unit one_moved 1 (second_copy ∷ []) (first_copy ∷ []) refl))
        (delete_recorded one_moved 1))
      (run_begun (record_delete one_moved 1) "db")

Reach-Agrees_example :
    Agrees (view (begin_run (record_delete one_moved 1) "db").1) (effects history (view no_tables))
Reach-Agrees_example = Reach-Agrees no_tables (begin_run (record_delete one_moved 1) "db").1 history
