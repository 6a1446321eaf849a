-- ===== src/FileBackup/Archive.antt =====
-- bdbackup/filebackup.py: the archive of a file backup, from the staging file under the lock to its
-- publication. Each call of the system and of `tarfile` works or raises, as a parameter says.
pub mod Body
pub mod Close
pub mod Filling
pub mod Progress
pub mod Safety
use bdbackup.Base.{
  ℕ, suc, ◌+◌, ◌==◌, Bool, true, false, not, ◌&&◌, Option, none, some, List, [], ◌∷◌, ◌++◌, String,
  if◌then◌else◌,
}
use bdbackup.Base.FilePath.{FilePath, path_eq}
use bdbackup.Templates.{Globs}
use bdbackup.FileBackup.{
  Disk, Info, Kind, regular, Selection, Member, Walked, done, stopped, Stop, members_of, walk,
}

abbrev pub Names : Type 0
Names = List (List String)

unfoldable pub names_eq : Names → Names → Bool
unfolding path_eq
names_eq [] [] = true
names_eq [] (b ∷ bs) = false
names_eq (a ∷ xs) [] = false
names_eq (a ∷ xs) (b ∷ bs) = path_eq a b && names_eq xs bs

-- The errors; `broken` is an exception of a call that did not work, and `unmeasured` that of the
-- `stat` of a published archive.
pub data Failure : Type 0 where
  locked broken unmeasured unverified no_members mismatch already_exists no_paths : Failure
  changed : FilePath → Failure
  walk_error : Stop → Failure

-- The calls, with none or false for an exception. A `File` is what a file on the disk holds.
pub record Calls : Type 1 where
  pub File : Type 0
  pub blank : File
  pub lock_free : Bool
  pub mkstemp : Bool
  pub tar_open : Bool
  pub tar_add : File → Member → Option File
  pub tar_close : File → Option File
  -- How many members a full read finds, and their names.
  pub read : File → Option ℕ
  pub getnames : File → Option Names
  pub fsync : Bool
  pub replace : Bool
  pub unlink : Bool
  -- `stat` of a path after it was added.
  pub info_after : FilePath → Option Info
  -- `stat` of the archive that stands there: its size.
  pub stat : File → Option ℕ
  -- The name that `mkstemp` chooses.
  pub temporary : FilePath

-- What the loop of `backup` counts.
pub record Total : Type 0 where
  pub count : ℕ
  pub size : ℕ

unfoldable pub is_regular : Kind → Bool
is_regular regular = true
is_regular _ = false

-- The comparison of two `stat` results of a regular file.
unfoldable pub is_changed : Info → Info → Bool
unfolding is_regular
is_changed before after =
    is_regular before.kind
    && not (
        (before.size == after.size)
        && (before.mtime == after.mtime)
        && (before.inode.number == after.inode.number))

unfoldable pub counted : Info → Total → Total
unfolding is_regular
counted i t = record {
  count = suc t.count;
  size = t.size + (if is_regular i.kind then i.size else 0);
}

module _ (c : Calls) where
  -- A `FileBackup` and the two files it owns: `tar`, `pending` and `lock` say which attributes are
  -- not None, `staged` is the staging file and `target` the file called `tar_filename`.
  pub record State : Type 0 where
    pub tar : Bool
    pub pending : Bool
    pub lock : Bool
    pub expected : Names
    pub staged : Option c.File
    pub target : Option c.File

  pub data Exit (A : Type 0) : Type 0 where
    returned : A → State → Exit A
    raised : Failure → State → Exit A

  abbrev pub state_of : {A : Type 0} → Exit A → State
  state_of (returned a s) = s
  state_of (raised e s) = s

  abbrev pub and_then : {A B : Type 0} → Exit A → (A → State → Exit B) → Exit B
  and_then (returned a s) k = k a s
  and_then (raised e s) k = raised e s

  -- `verify`
  unfoldable pub verify : Option c.File → Option Failure
  verify none = some unverified
  verify (some f) = elim (c.read f) [
    | none ↦ some unverified
    | some n ↦ if n == 0 then some no_members else none
  ]

  -- `close_archive`, from the test of `publish` to `os.replace`.
  unfoldable pub publish : Bool → State → Exit Unit
  unfolding verify names_eq
  publish timestamp s = elim (verify s.staged) [
    | some e ↦ raised e s
    | none ↦ elim s.staged [
      | none ↦ raised broken s
      | some f ↦ elim (c.getnames f) [
        | none ↦ raised broken s
        | some names ↦
            if not (names_eq s.expected []) && not (names_eq names s.expected)
            then raised mismatch s
            else if not c.fsync
            then raised broken s
            else if timestamp && elim s.target [ none ↦ false | some t ↦ true ]
            then raised already_exists s
            else if not c.replace
            then raised broken s
            else returned tt (record s { staged = none; target = some f })
      ]
    ]
  ]

  -- `close_archive`, its `try` block.
  unfoldable pub close_body : Bool → Bool → State → Exit Unit
  unfolding publish
  close_body timestamp wanted s =
      and_then
        (if s.tar
          then elim s.staged [
            | none ↦ raised broken s
            | some f ↦ elim (c.tar_close f) [
              | none ↦ raised broken s
              | some h ↦ returned tt (record s { tar = false; staged = some h })
            ]
          ]
          else returned tt s)
        (λ _ t. if t.pending && wanted then publish timestamp t else returned tt t)

  abbrev pub ending : Option Failure → State → Exit Unit
  ending none s = returned tt s
  ending (some e) s = raised e s

  -- `close_archive`, its `finally` block, after the `try` block raised or did not.
  unfoldable pub settle : Option Failure → State → Exit Unit
  settle e s =
      let idle = record s { tar = false; pending = false; lock = false } in
      if s.pending
      then elim s.staged [
        | none ↦ ending e idle
        | some f ↦ if c.unlink then ending e (record idle { staged = none }) else raised broken idle
      ]
      else ending e idle

  -- `close_archive`
  unfoldable pub close_archive : Bool → Bool → State → Exit Unit
  unfolding close_body settle
  close_archive timestamp wanted s = elim (close_body timestamp wanted s) [
    | returned a t ↦ settle none t
    | raised e t ↦ settle (some e) t
  ]

  -- An `except BaseException` that discards and raises again.
  unfoldable pub or_discard : {A : Type 0} → Bool → Exit A → Exit A
  unfolding close_archive
  or_discard timestamp (returned a s) = returned a s
  or_discard timestamp (raised e s) = elim (close_archive timestamp false s) [
    | returned a t ↦ raised e t
    | raised r t ↦ raised r t
  ]

  -- `open_archive`
  unfoldable pub open_archive : Bool → State → Exit Unit
  unfolding or_discard
  open_archive timestamp s =
      if s.tar
      then returned tt s
      else if not c.lock_free
      then raised locked s
      else or_discard timestamp (
          if not c.mkstemp
          then raised broken (record s { lock = true })
          else if not c.tar_open
          then raised broken
              (record s { lock = true; pending = true; staged = some c.blank; expected = [] })
          else returned tt (record {
            tar = true;
            pending = true;
            lock = true;
            expected = [];
            staged = some c.blank;
            target = s.target;
          }))

  -- `backup`, a member's part in a run that is no dry run.
  unfoldable pub add_member : Member → State → Exit Unit
  add_member m s = elim s.staged [
    | none ↦ raised broken s
    | some f ↦ elim (c.tar_add f m) [
      | none ↦ raised broken s
      | some h ↦ returned tt (record s { staged = some h })
    ]
  ]

  unfoldable pub check_member : Info → Member → State → Exit Unit
  unfolding is_changed
  check_member before m s = elim (c.info_after m.path) [
    | none ↦ raised broken s
    | some after ↦
        if is_changed before after
        then raised (changed m.path) s
        else returned tt (record s { expected = s.expected ++ (m.arcname ∷ []) })
  ]

  -- The `BackupResult` of `backup`: its size, which is behind the `try` block.
  unfoldable pub result_size : Bool → Total → State → Exit ℕ
  result_size true t s = returned t.size s
  result_size false t s = elim s.target [
    | none ↦ raised unmeasured s
    | some f ↦ elim (c.stat f) [ none ↦ raised unmeasured s | some n ↦ returned n s ]
  ]

  module _ (g : Globs) (d : Disk) (selection : Selection) (timestamp dry_run : Bool) where
    -- `backup`, the body of its loop.
    unfoldable pub back_up_member : Member → Total → State → Exit Total
    unfolding add_member check_member counted
    back_up_member m t s = elim (d.info m.path) [
      | none ↦ raised broken s
      | some before ↦
          and_then
            (if dry_run
              then returned tt s
              else and_then (add_member m s) (λ _ u. check_member before m u))
            (λ _ u. returned (counted before t) u)
    ]

    -- `backup`, its loop.
    unfoldable pub back_up_all : List Member → Total → State → Exit Total
    unfolding back_up_member
    back_up_all [] t s = returned t s
    back_up_all (m ∷ ms) t s = and_then (back_up_member m t s) (λ u r. back_up_all ms u r)

    -- The end of the generator: an error of the walk comes after the members before it.
    unfoldable pub raise_stop : Walked → Total → State → Exit Total
    raise_stop (done ms) t s = returned t s
    raise_stop (stopped ms e) t s = raised (walk_error e) s

    -- The walk of an object in this state.
    unfoldable pub walk_in : ℕ → State → Walked
    unfolding walk
    walk_in fuel s =
        walk g d (record selection { pending = if s.pending then some c.temporary else none }) fuel

    -- `backup`, its `try` block after the archive is open.
    unfoldable pub fill_archive : ℕ → State → Exit Total
    unfolding back_up_all raise_stop walk_in close_archive
    fill_archive fuel s =
        let walked = walk_in fuel s in
        and_then
          (and_then (back_up_all (members_of walked) (record { count = 0; size = 0 }) s)
            (raise_stop walked))
          (λ t u.
            if t.count == 0
            then raised no_members u
            else if dry_run
            then returned t u
            else and_then (close_archive timestamp true u) (λ _ v. returned t v))

    -- `backup`
    unfoldable pub backup : ℕ → State → Exit ℕ
    unfolding close_archive open_archive fill_archive or_discard result_size
    backup fuel s = elim selection.backup_paths [
      | [] ↦ and_then (close_archive timestamp false s) (λ _ t. raised no_paths t)
      | raw ∷ rest ↦
          and_then
            (or_discard timestamp (
              and_then (if dry_run then returned tt s else open_archive timestamp s)
                (λ _ t. fill_archive fuel t)))
            (λ u t. result_size dry_run u t)
    ]
