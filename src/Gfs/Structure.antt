-- ===== src/Gfs/Structure.antt =====
-- bdbackup/gfs/structure.py: the preparation of a chain's stage directories, and the snapshot of
-- the ledger that a run copies to them (bdbackup/gfs/runner.py).
use bdbackup.Base.{
  ℕ, suc, ◌+◌, Bool, true, false, not, ◌||◌, List, [], ◌∷◌, ◌++◌, if◌then◌else◌, ◌≡◌, All,
}
use bdbackup.Base.FilePath.{FilePath}
use bdbackup.Gfs.Stages.{Stage}

-- What stands at a stage path, and what can be done there.
pub record Directory : Type 0 where
  pub is_dir : Bool
  pub exists : Bool
  pub parent_is_dir : Bool
  pub can_create : Bool
  pub is_writable : Bool
  pub can_write_marker : Bool

pub data Prepared : Type 0 where
  kept created : Bool → Prepared
  not_a_directory no_parent cannot_create not_writable no_marker : Prepared

abbrev pub is_failure : Prepared → Bool
is_failure (kept _) = false
is_failure (created _) = false
is_failure _ = true

abbrev marked : Bool → (Bool → Prepared) → Directory → Prepared
marked wants done d =
    if not d.is_writable
    then not_writable
    else if not wants
    then done false
    else if d.can_write_marker
    then done true
    else no_marker

-- `_prepare`; the flag says whether a marker is wanted, and the result whether one was written.
unfoldable pub prepare : Bool → Directory → Prepared
prepare wants d =
    if d.is_dir
    then marked wants kept d
    else if d.exists
    then not_a_directory
    else if not d.parent_is_dir
    then no_parent
    else if not d.can_create
    then cannot_create
    else marked wants created d

-- The inner loop of `initialize`, for the paths of one stage: the report, and the flag `failed`, which
-- an exception sets. The paths of a job lie apart, so none is changed by the preparation of another.
unfoldable pub prepare_all :
    (FilePath → Directory) → Bool → List FilePath → Bool → List (FilePath × Prepared) × Bool
unfolding prepare
prepare_all at wants [] failed = ([], failed)
prepare_all at wants (p ∷ ps) failed =
    let result = prepare wants (at p) in
    let rest = prepare_all at wants ps (if is_failure result then true else failed) in
    ((p, result) ∷ rest.0, rest.1)

unfoldable pub prepare_stages :
    (FilePath → Directory) → Bool → List Stage → Bool → List (FilePath × Prepared) × Bool
unfolding prepare_all
prepare_stages at wants [] failed = ([], failed)
prepare_stages at wants (s ∷ ss) failed =
    let here = prepare_all at wants s.paths failed in
    let rest = prepare_stages at true ss here.1 in (here.0 ++ rest.0, rest.1)

-- `initialize`: the report and the exit code; the first stage gets no marker.
unfoldable pub initialize : (FilePath → Directory) → List Stage → List (FilePath × Prepared) × ℕ
unfolding prepare_stages
initialize at stages =
    let result = prepare_stages at false stages false in (result.0, if result.1 then 1 else 0)

-- `snapshot`'s body for one stage path: whether it is ready, and whether the copy and its
-- publication work. Only a success publishes the snapshot; a failed copy is removed again.
abbrev pub snapshot_fails : (FilePath → Bool) → (FilePath → Bool) → FilePath → Bool
snapshot_fails ready copies p = not (ready p) || not (copies p)

unfoldable pub count_failures : (FilePath → Bool) → (FilePath → Bool) → List FilePath → ℕ
count_failures ready copies [] = 0
count_failures ready copies (p ∷ ps) =
    let rest = count_failures ready copies ps in
    if snapshot_fails ready copies p then suc rest else rest

-- `snapshot`, for a ledger that exists: the failures over the paths of every later stage.
unfoldable pub snapshot : (FilePath → Bool) → (FilePath → Bool) → List Stage → ℕ
unfolding count_failures
snapshot ready copies [] = 0
snapshot ready copies (s ∷ []) = 0
snapshot ready copies (s ∷ t ∷ ss) =
    count_failures ready copies t.paths + snapshot ready copies (t ∷ ss)

-- Every path of every stage is prepared: without a marker in the first stage, with one in the others.
abbrev pub AllReady : (FilePath → Directory) → Bool → List Stage → Type 0
AllReady at wants [] = Unit
AllReady at wants (s ∷ ss) =
    All (λ p. is_failure (prepare wants (at p)) ≡ false) s.paths × AllReady at true ss

abbrev pub stage_paths : List Stage → List FilePath
stage_paths [] = []
stage_paths (s ∷ ss) = s.paths ++ stage_paths ss

abbrev reported : FilePath × Prepared → FilePath
reported x = x.0
