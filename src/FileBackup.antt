-- ===== src/FileBackup.antt =====
-- bdbackup/filebackup.py: which inputs a file backup selects, and under which names. What the disk
-- holds and `fnmatch` are parameters; a walk runs on fuel.
pub mod Walk
pub mod Setup
pub mod Restore
pub mod Archive
pub mod Ends
pub mod Complete
pub mod Selected
use bdbackup.Base.{
  ℕ, zero, suc, Bool, true, false, not, ◌&&◌, ◌||◌, Option, none, some, List, [], ◌∷◌, ◌++◌, map,
  String, str_lt, ◌==◌, if◌then◌else◌, any_of, keep_if,
}
use bdbackup.Base.FilePath.{
  FilePath, path_eq, relative_to, is_relative_to, child_path, path_text, path_name, normalise_onto,
}
use bdbackup.Base.Sorting.{sort_by}
use bdbackup.Templates.{Rule, Globs, matches, parents, posix}

-- The file types that `stat` tells apart here.
pub data Kind : Type 0 where
  directory regular link special : Kind

-- `(st_dev, st_ino)`
pub record Inode : Type 0 where
  pub device : ℕ
  pub number : ℕ

pub record Info : Type 0 where
  pub kind : Kind
  pub inode : Inode
  pub size : ℕ
  pub mtime : ℕ

-- What a run reads: `stat` or `lstat`, as `follow_symlinks` says, `os.scandir`, both with none for an
-- `OSError`, `resolve` and `fnmatch.fnmatch`.
pub record Disk : Type 0 where
  pub info : FilePath → Option Info
  pub entries : FilePath → Option (List String)
  pub resolve : FilePath → FilePath
  pub fnmatch : String → String → Bool

-- A line of a template after `expanduser`.
pub record RawPath : Type 0 where
  pub absolute : Bool
  pub parts : List String

-- The attributes of a `FileBackup` that the selection reads.
pub record Selection : Type 0 where
  pub backup_paths : List RawPath
  pub chdir : Option FilePath
  pub cwd : FilePath
  pub tar_filename : FilePath
  pub lock_filename : FilePath
  pub pending : Option FilePath
  pub exclude : List FilePath
  pub exclude_patterns : List String
  pub template : Option (List Rule)

abbrev is_some : {A : Type 0} → Option A → (A → Bool) → Bool
is_some none p = false
is_some (some a) p = p a

-- `_resolve_path`
unfoldable pub resolve_path : Selection → RawPath → FilePath
unfolding normalise_onto
resolve_path s raw =
    normalise_onto []
      (if raw.absolute then raw.parts else elim s.chdir [ none ↦ s.cwd | some c ↦ c ] ++ raw.parts)

-- `_match_roots`
unfoldable pub match_roots : Selection → List FilePath
unfolding resolve_path
match_roots s = elim s.chdir [ none ↦ map (resolve_path s) s.backup_paths | some c ↦ c ∷ [] ]

-- The base of the names below one entry of the template.
unfoldable pub base_of : Selection → RawPath → Option FilePath
base_of s raw = elim s.chdir [ none ↦ if raw.absolute then none else some s.cwd | some c ↦ some c ]

-- `_make_arcname`; a name is given by its parts.
unfoldable pub make_arcname : FilePath → Option FilePath → List String
unfolding relative_to
make_arcname path none = path
make_arcname path (some base) = elim (relative_to path base) [ none ↦ path | some p ↦ posix p ]

unfoldable pub is_directory : Kind → Bool
is_directory directory = true
is_directory _ = false

unfoldable pub is_special : Kind → Bool
is_special special = true
is_special _ = false

abbrev pub inode_eq : Inode → Inode → Bool
inode_eq i j = (i.device == j.device) && (i.number == j.number)

-- A path that goes into the archive, and its name there.
pub record Member : Type 0 where
  pub path : FilePath
  pub arcname : List String

-- Why a walk stops; `out_of_fuel` is the model's own.
pub data Stop : Type 0 where
  unreadable special_file cycle : FilePath → Stop
  out_of_fuel : Stop

-- What a walk has yielded, at its end or where an error stopped it.
pub data Walked : Type 0 where
  done : List Member → Walked
  stopped : List Member → Stop → Walked

abbrev pub members_of : Walked → List Member
members_of (done ms) = ms
members_of (stopped ms e) = ms

-- A loop over `visit`: the first error ends it.
unfoldable pub each : {A : Type 0} → (A → List Member → Walked) → List A → List Member → Walked
each f [] ms = done ms
each f (a ∷ xs) ms = elim (f a ms) [ done ns ↦ each f xs ns | stopped ns e ↦ stopped ns e ]

module _ (g : Globs) (d : Disk) (s : Selection) where
  -- `_hard_excluded`
  unfoldable pub hard_excluded : FilePath → Bool
  unfolding match_roots parents
  hard_excluded path =
      let resolved = d.resolve path in
      path_eq path s.tar_filename
      || path_eq path s.lock_filename
      || is_some s.pending (path_eq path)
      || path_eq resolved (d.resolve s.tar_filename)
      || path_eq resolved (d.resolve s.lock_filename)
      || is_some s.pending (λ p. path_eq resolved (d.resolve p))
      || any_of (is_relative_to resolved) s.exclude
      || any_of
          (λ c.
            any_of (λ p. d.fnmatch (path_text c) p || d.fnmatch (path_name c) p) s.exclude_patterns)
          (path
            ∷ keep_if (λ p. any_of (λ r. path_eq p r || is_relative_to p r) (match_roots s))
                (parents path))

  -- `_is_excluded`
  unfoldable pub is_excluded : FilePath → Bool → Bool
  unfolding hard_excluded
  is_excluded path is_dir =
      hard_excluded path
      || is_some s.template (λ rules. matches g rules path is_dir (match_roots s))

  -- `has_negations` of the template, if there is one.
  unfoldable pub has_negations : Bool
  has_negations = is_some s.template (any_of (λ r. r.negated))

  -- What a visit does with a path of a kind that is allowed.
  unfoldable pub emit : FilePath → Option FilePath → Bool → List Member → List Member
  unfolding make_arcname
  emit path base excluded ms =
      let arcname = make_arcname path base in
      if not excluded && not (any_of (λ m. path_eq m.arcname arcname) ms)
      then ms ++ (record { path = path; arcname = arcname } ∷ [])
      else ms

  -- The test for going into a directory.
  unfoldable pub is_opened : FilePath → Kind → Bool
  unfolding is_excluded has_negations is_directory
  is_opened path kind =
      is_directory kind && not (is_excluded path (is_directory kind) && not has_negations)

  -- `visit`, on fuel for the depth. `ancestors` holds the inodes of the directories above.
  unfoldable pub visit : ℕ → FilePath → List Inode → Option FilePath → List Member → Walked
  unfolding hard_excluded is_excluded is_opened emit is_directory is_special each sort_by
  visit zero path ancestors base ms = stopped ms out_of_fuel
  visit (suc fuel) path ancestors base ms = elim (hard_excluded path) [
    | true ↦ done ms
    | false ↦ elim (d.info path) [
      | none ↦ stopped ms (unreadable path)
      | some i ↦ elim (is_special i.kind) [
        | true ↦ stopped ms (special_file path)
        | false ↦
            let ns = emit path base (is_excluded path (is_directory i.kind)) ms in
            elim (is_opened path i.kind) [
              | false ↦ done ns
              | true ↦ elim (any_of (inode_eq i.inode) ancestors) [
                | true ↦ stopped ns (cycle path)
                | false ↦ elim (d.entries path) [
                  | none ↦ stopped ns (unreadable path)
                  | some names ↦
                      each (λ n. visit fuel (child_path path n) (i.inode ∷ ancestors) base)
                        (sort_by str_lt names) ns
                ]
              ]
            ]
      ]
    ]
  ]

  -- `_walk`
  unfoldable pub walk : ℕ → Walked
  unfolding visit resolve_path base_of each
  walk fuel = each (λ raw. visit fuel (resolve_path s raw) [] (base_of s raw)) s.backup_paths []
