-- ===== src/Gfs/Runner.antt =====
-- bdbackup/gfs/runner.py: the actions of one run on the disk and the tables.
-- An effect works, raises or is cut off by a crash, as a schedule says, which any proof leaves open.
-- A crash ends the process: nothing catches it and no cleanup follows.
pub mod Post
pub mod Copies
pub mod Recorded
pub mod Safety
pub mod Refusals
use bdbackup.Base.{
  ℕ, suc, ◌+◌, Bool, true, false, not, ◌&&◌, ◌||◌, Option, none, some, List, [], ◌∷◌, ◌++◌, map,
  String, str_eq, ltb, ◌==◌, if◌then◌else◌, any_of, max,
}
use bdbackup.Base.FilePath.{FilePath, path_eq, parent}
use bdbackup.Gfs.Stages.{Stage}
use bdbackup.Gfs.Store.{Location, ManagedUnit, Tables, record_unit, record_move, record_delete}

pub data Outcome : Type 0 where
  works raises crashes : Outcome

-- The reasons of a `Refusal`.
pub data Refused : Type 0 where
  missing_location : FilePath → Refused
  mismatch : Refused
  final_exists : FilePath → Refused
  not_ready : FilePath → Refused
  not_configured : Refused

-- How a method ends: it returns, raises `Refusal`, `_Deferred` or another exception, or is cut off.
pub data Exit (A : Type 0) : Type 0 where
  ok : A → Exit A
  refusal : Refused → Exit A
  deferred failure crash : Exit A

-- What the runner takes from elsewhere. `holds` is the whole check of a unit at a location, its
-- contents and its checksums; `remains` is what a removal that raises leaves behind; `ready` says
-- that a destination's marker exists; `busy` that another process holds an engine's root lock.
pub record Site : Type 1 where
  pub Node : Type 0
  pub holds : ManagedUnit → Node → Bool
  pub remains : Node → Option Node
  pub ready : FilePath → Bool
  pub busy : FilePath → Bool

module _ (S : Site) where
  -- `staged` holds the temporary copies, by the final name that each stands beside; their own names
  -- are fresh.
  pub record World : Type 0 where
    pub disk : FilePath → Option S.Node
    pub staged : FilePath → Option S.Node
    pub tables : Tables
    pub schedule : List Outcome

  abbrev pub M : Type 0 → Type 0
  M A = World → Exit A × World

  abbrev pub put : {A : Type 0} → (FilePath → Option A) → FilePath → Option A → FilePath → Option A
  put f p v q = if path_eq p q then v else f q

  abbrev pub pure : {A : Type 0} → A → M A
  pure a w = (ok a, w)

  abbrev pub throw : {A : Type 0} → Refused → M A
  throw r w = (refusal r, w)

  infixl 5 ◌>>=◌ ◌>>◌
  abbrev pub ◌>>=◌ : {A B : Type 0} → M A → (A → M B) → M B
  ◌>>=◌ m f w =
      let (r, w') = m w in
      elim r [
        | ok a ↦ f a w'
        | refusal e ↦ (refusal e, w')
        | deferred ↦ (deferred, w')
        | failure ↦ (failure, w')
        | crash ↦ (crash, w')
      ]

  abbrev pub ◌>>◌ : {B : Type 0} → M (Unit {0}) → M B → M B
  m >> k = m >>= λ _. k

  -- One effect: the next outcome of the schedule decides between its three results.
  abbrev pub effect : World → World → World → Exit (Unit {0}) × World
  effect w done torn = elim w.schedule [
    | [] ↦ (ok tt, done)
    | works ∷ s ↦ (ok tt, record done { schedule = s })
    | raises ∷ s ↦ (failure, record torn { schedule = s })
    | crashes ∷ s ↦ (crash, record torn { schedule = s })
  ]

  -- `verify`
  unfoldable pub verify : ManagedUnit → FilePath → M (Unit {0})
  verify u at w = elim (w.disk at) [
    | none ↦ (refusal (missing_location at), w)
    | some n ↦ if S.holds u n then (ok tt, w) else (refusal mismatch, w)
  ]

  unfoldable pub verify_all : ManagedUnit → List Location → M (Unit {0})
  unfolding verify
  verify_all u [] = pure tt
  verify_all u (l ∷ ls) = verify u l.path >> verify_all u ls

  -- `copy_verified`: the source is checked while it is copied; a copy that fails is removed again.
  unfoldable pub copy_verified : ManagedUnit → FilePath → FilePath → M (Unit {0})
  copy_verified u source final w = elim (w.disk source) [
    | none ↦ (refusal (missing_location source), w)
    | some n ↦
        if S.holds u n
        then effect w (record w { staged = put w.staged final (some n) }) w
        else (refusal mismatch, w)
  ]

  unfoldable pub copy_all : ManagedUnit → FilePath → List FilePath → M (Unit {0})
  unfolding copy_verified
  copy_all u source [] = pure tt
  copy_all u source (f ∷ fs) = copy_verified u source f >> copy_all u source fs

  -- `LocalTransport.rename`
  unfoldable pub rename : FilePath → M (Unit {0})
  rename final w = elim (w.disk final) [
    | some _ ↦ (refusal (final_exists final), w)
    | none ↦
        effect w
          (record w { disk = put w.disk final (w.staged final); staged = put w.staged final none })
          w
  ]

  unfoldable pub rename_all : List FilePath → M (Unit {0})
  unfolding rename
  rename_all [] = pure tt
  rename_all (f ∷ fs) = rename f >> rename_all fs

  -- `LocalTransport.remove`; an interrupted removal leaves what `remains` says.
  unfoldable pub remove : FilePath → M (Unit {0})
  remove at w = elim (w.disk at) [
    | none ↦ effect w w w
    | some n ↦
        effect w (record w { disk = put w.disk at none })
          (record w { disk = put w.disk at (S.remains n) })
  ]

  unfoldable pub remove_all : List Location → M (Unit {0})
  unfolding remove
  remove_all [] = pure tt
  remove_all (l ∷ ls) = remove l.path >> remove_all ls

  -- The cleanup in `move`'s `finally`: temporary copies that still exist are removed.
  unfoldable pub drop_staged : List FilePath → M (Unit {0})
  drop_staged [] w = (ok tt, w)
  drop_staged (f ∷ fs) w = elim (w.staged f) [
    | none ↦ drop_staged fs w
    | some n ↦
        ((λ (v : World). effect v (record v { staged = put v.staged f none }) v) >> drop_staged fs)
          w
  ]

  -- `_engine_locks`
  unfoldable pub engine_locks : ManagedUnit → List FilePath → M (Unit {0})
  unfolding parent
  engine_locks u paths w =
      if str_eq u.kind "xtrabackup" && any_of (λ p. S.busy (parent p)) paths
      then (deferred, w)
      else (ok tt, w)

  -- A transaction that commits whole or not at all; `none` is a violated constraint.
  unfoldable pub commit : (Tables → Option Tables) → M (Unit {0})
  commit f w = elim (f w.tables) [
    | none ↦ (failure, w)
    | some t ↦ effect w (record w { tables = t }) w
  ]

  -- `ensure_row`: the unit's id, recorded the first time a run acts on it.
  new_row : ManagedUnit → M ℕ
  new_row u w = elim (record_unit w.tables u) [
    | none ↦ (failure, w)
    | some (i, t) ↦ ((λ (v : World). effect v (record v { tables = t }) v) >> pure i) w
  ]

  unfoldable pub ensure_row : ManagedUnit → M ℕ
  unfolding new_row
  ensure_row u = elim u.id [ some i ↦ pure i | none ↦ new_row u ]

  -- The loops at the head of `move`: markers first, then the final names.
  unfoldable pub check_ready : List FilePath → M (Unit {0})
  check_ready [] = pure tt
  check_ready (p ∷ ps) = if S.ready p then check_ready ps else throw (not_ready p)

  unfoldable pub check_free : List FilePath → M (Unit {0})
  check_free [] w = (ok tt, w)
  check_free (f ∷ fs) w = elim (w.disk f) [
    | some _ ↦ (refusal (final_exists f), w)
    | none ↦ check_free fs w
  ]

  -- `try … finally`: the cleanup runs unless the process is gone, and what it raises wins.
  abbrev pub finally : {A : Type 0} → M A → M (Unit {0}) → M A
  finally m clean w =
      let (r, w') = m w in
      elim r [
        | ok a ↦ (clean >> pure a) w'
        | refusal e ↦ (clean >> throw e) w'
        | deferred ↦ (clean >> (λ v. (deferred, v))) w'
        | failure ↦ (clean >> (λ v. (failure, v))) w'
        | crash ↦ (crash, w')
      ]

  abbrev pub paths_of : List Location → List FilePath
  paths_of = map (λ l. l.path)

  abbrev pub finals_of : ManagedUnit → List FilePath → List FilePath
  finals_of u = map (λ p. p ++ u.relative)

  abbrev pub new_locations : ManagedUnit → List FilePath → List Location
  new_locations u = map (λ p. record { stage_path = p; path = p ++ u.relative })

  -- Under the engine locks: publish the copies, record them, and only then remove the old ones.
  -- `_identities` reads the new copies, which can raise.
  unfoldable pub publish : ManagedUnit → List FilePath → M (Unit {0})
  unfolding engine_locks rename_all ensure_row commit remove_all
  publish u paths = do
    engine_locks u (paths_of u.locations ++ finals_of u paths)
    rename_all (finals_of u paths)
    i ← ensure_row u
    λ w. effect w w w
    commit (λ t. record_move t i (new_locations u paths) u.locations)
    remove_all u.locations

  copy_and_publish : ManagedUnit → FilePath → List FilePath → M (Unit {0})
  copy_and_publish u source paths = copy_all u source (finals_of u paths) >> publish u paths

  -- The part of `move` behind its checks; `unit.locations[0]` raises where there is none.
  unfoldable pub move_from : ManagedUnit → List FilePath → List Location → M (Unit {0})
  unfolding copy_and_publish
  move_from u paths [] w = (failure, w)
  move_from u paths (l ∷ ls) w =
      (verify_all u ls
          >> finally (copy_and_publish u l.path paths) (drop_staged (finals_of u paths)))
        w

  -- `move` to a stage's paths.
  unfoldable pub move : Bool → ManagedUnit → List FilePath → M (Unit {0})
  unfolding check_ready check_free
  move apply u paths = do
    check_ready paths
    check_free (finals_of u paths)
    if apply then move_from u paths u.locations else pure tt

  -- `delete`
  unfoldable pub delete : Bool → ManagedUnit → M (Unit {0})
  unfolding verify_all engine_locks remove_all commit ensure_row
  delete apply u =
      if apply
      then (do
        verify_all u u.locations
        engine_locks u (paths_of u.locations)
        i ← ensure_row u
        remove_all u.locations
        commit (λ t. some (record_delete t i)))
      else pure tt

  -- `remove_locations(…, verified=False)`
  unfoldable pub verified_remove : ManagedUnit → List Location → M (Unit {0})
  unfolding verify remove
  verified_remove u [] = pure tt
  verified_remove u (l ∷ ls) = do verify u l.path; remove l.path; verified_remove u ls

  -- `complete_interrupted`: the copies that stay are verified before a leftover is removed.
  unfoldable pub complete_interrupted :
      Bool → ManagedUnit → List Location → List Location → M (Unit {0})
  unfolding verify_all engine_locks remove commit
  complete_interrupted apply u staying leftovers =
      if apply
      then (do
        verify_all u staying
        engine_locks u (paths_of leftovers)
        verified_remove u leftovers
        commit (λ t. elim u.id [ none ↦ some t | some i ↦ record_move t i [] leftovers ]))
      else pure tt
