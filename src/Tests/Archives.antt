-- ===== src/Tests/Archives.antt =====
-- File backups: a small disk with a link that leads in a circle.
use bdbackup.Base.{
  ==_iff, ℕ, ◌≡◌, ◌≢◌, ◌↔◌, refl, ap, Bool-cases, arith, true, false, Option, none, some, List, [],
  ◌∷◌, ◌++◌, String, str_eq, if◌then◌else◌, In, inl, inr, length, ◌*◌,
}
use bdbackup.Base.FilePath.{FilePath, path_eq, is_relative_to, path_text, path_name}
use bdbackup.Base.Unique.{Unique}
use bdbackup.Templates.{Globs}
use bdbackup.FileBackup.{
  Kind, directory, regular, Inode, Info, Disk, RawPath, Selection, Member, done, stopped,
  out_of_fuel, members_of, walk, is_directory,
}
use bdbackup.FileBackup.Selected.{arcnames, walk-Unique, Belongs}
use bdbackup.FileBackup.Complete.{walk-exact}
use bdbackup.FileBackup.Archive.{Calls, Names, State, state_of, backup, returned, is_changed}
use bdbackup.FileBackup.Archive.Close.{IsIdle}
use bdbackup.FileBackup.Archive.Progress.{Undisturbed, backup-returns}
use bdbackup.FileBackup.Archive.Filling.{Saves}
use bdbackup.FileBackup.Archive.Safety.{Outcome, backup-Saves, backup-IsIdle}
use bdbackup.FileBackup.Restore.{
  TarInfo, TarCalls, restore_archive, Admitted, restore_archive-Admitted,
}
use bdbackup.FileBackup.Ends.{walk-ends}

abbrev info_of : Kind → ℕ → Info
info_of k n = record { kind = k; inode = record { device = 1; number = n }; size = 5; mtime = 7 }

-- /d holds the file a and the excluded file x.
abbrev on_disk : FilePath → Option Info
on_disk p =
    if path_eq p ("d" ∷ [])
    then some (info_of directory 1)
    else if path_eq p ("d" ∷ "a" ∷ [])
    then some (info_of regular 2)
    else if path_eq p ("d" ∷ "x" ∷ [])
    then some (info_of regular 3)
    else none

abbrev small_disk : Disk
small_disk = record {
  info = on_disk;
  entries = λ p. some ("x" ∷ "a" ∷ []);
  resolve = λ p. p;
  fnmatch = str_eq;
}

abbrev whole_dir : RawPath
whole_dir = record { absolute = true; parts = "d" ∷ [] }

abbrev selection : Selection
selection = record {
  backup_paths = whole_dir ∷ whole_dir ∷ [];
  chdir = none;
  cwd = "home" ∷ [];
  tar_filename = "out.tar" ∷ [];
  lock_filename = "out.tar.lock" ∷ [];
  pending = some (".out.tmp" ∷ []);
  exclude = ("d" ∷ "x" ∷ []) ∷ [];
  exclude_patterns = "*.pyc" ∷ [];
  template = none;
}

abbrev no_globs : Globs
no_globs = record { regex = λ r p. false; fnmatch = λ r p. false }

abbrev member_d : Member
member_d = record { path = "d" ∷ []; arcname = "d" ∷ [] }

abbrev member_a : Member
member_a = record { path = "d" ∷ "a" ∷ []; arcname = "d" ∷ "a" ∷ [] }

walked : walk no_globs small_disk selection 3 ≡ done (member_d ∷ member_a ∷ [])
unfolding walk path_eq is_relative_to path_text path_name
walked = refl

walk-Unique_example : Unique (arcnames (members_of (walk no_globs small_disk selection 3)))
walk-Unique_example = walk-Unique no_globs small_disk selection 3

walk-exact_example :
    In {A = List String} ("d" ∷ "a" ∷ []) (("d" ∷ []) ∷ ("d" ∷ "a" ∷ []) ∷ [])
    ↔ ((path : FilePath) × Belongs no_globs small_disk selection path ("d" ∷ "a" ∷ []))
walk-exact_example =
    walk-exact no_globs small_disk selection 3 (member_d ∷ member_a ∷ []) ("d" ∷ "a" ∷ []) walked

abbrev inodes : List Inode
inodes = record { device = 1; number = 1 } ∷ []

inodes_known :
    (p : FilePath) (i : Info) → on_disk p ≡ some i → is_directory i.kind ≡ true → In i.inode inodes
unfolding is_directory
inodes_known p i h k = elim (Bool-cases (path_eq p ("d" ∷ []))) [
  | inl e ↦ inl (
      ap
        (λ (o : Option Info). elim o [
          | none ↦ record { device = 1; number = 1 }
          | some x ↦ x.inode
        ])
        (rw e at h))
  | inr e ↦ absurd (ground (arith, h, k))
]

walk-ends_example : walk no_globs small_disk selection 2 ≢ stopped [] out_of_fuel
walk-ends_example = walk-ends no_globs small_disk selection inodes inodes_known []

-- Calls that all work; a file is the list of its members' names.
abbrev good_calls : Calls
good_calls = record {
  File = Names;
  blank = [];
  lock_free = true;
  mkstemp = true;
  tar_open = true;
  tar_add = λ f m. some (f ++ (m.arcname ∷ []));
  tar_close = some;
  read = λ f. some (length f);
  getnames = some;
  fsync = true;
  replace = true;
  unlink = true;
  info_after = on_disk;
  stat = λ f. some (512 * length f);
  temporary = ".out.tmp" ∷ [];
}

abbrev closed_state : State good_calls
closed_state = record {
  tar = false;
  pending = false;
  lock = false;
  expected = [];
  staged = none;
  target = none;
}

backup-Saves_example :
    Outcome good_calls no_globs small_disk selection true none
      (Saves good_calls true (walk no_globs small_disk selection 3) none)
      (backup good_calls no_globs small_disk selection true false 3 closed_state)
backup-Saves_example =
    backup-Saves good_calls no_globs small_disk selection true 3 closed_state whole_dir
      (whole_dir ∷ []) refl (refl, refl, refl)

backup-IsIdle_example : IsIdle good_calls (
    state_of good_calls {A = ℕ}
      (backup good_calls no_globs small_disk selection true false 3 closed_state))
backup-IsIdle_example =
    backup-IsIdle good_calls no_globs small_disk selection true false 3 closed_state
      (refl, refl, refl)

-- A file below a directory with the set-group-ID bit, and a name that leads outside.
abbrev sub_dir : TarInfo
sub_dir = record { absolute = false; parts = "sub" ∷ []; is_dir = true; mode = 1517 }

abbrev outside : TarInfo
outside = record { absolute = false; parts = "sub" ∷ ".." ∷ ".." ∷ []; is_dir = false; mode = 420 }

abbrev tar_calls : TarCalls
tar_calls = record { data_filter = some; extract = λ m. true }

restore_archive-Admitted_example :
    Admitted tar_calls (sub_dir ∷ outside ∷ []) (record sub_dir { mode = 493 })
unfolding restore_archive
restore_archive-Admitted_example =
    restore_archive-Admitted tar_calls (sub_dir ∷ outside ∷ []) (record sub_dir { mode = 493 })
      (inl refl)

unchanged : (i : Info) → is_changed i i ≡ false
unfolding is_changed
unchanged i =
    ground
      (arith, ==_iff i.size i.size, ==_iff i.mtime i.mtime, ==_iff i.inode.number i.inode.number)

abbrev undisturbed : Undisturbed good_calls small_disk
undisturbed = record {
  lock_free = refl;
  mkstemp = refl;
  tar_open = refl;
  fsync = refl;
  replace = refl;
  names = λ f. f;
  starts = refl;
  adds = λ f m. (f ++ (m.arcname ∷ []), refl, refl);
  closes = λ f. (f, refl, refl);
  reads = λ f. refl;
  lists = λ f. refl;
  measures = λ f. (512 * length f, refl);
  quiet = λ p i e. (i, e, unchanged i);
}

backup-returns_example :
    (size : ℕ) × (file : Names) × (◌≡◌ {A = Option ℕ} (some (512 * length file)) (some size))
    × (backup good_calls no_globs small_disk selection true false 3 closed_state
        ≡ returned size (record {
          tar = false;
          pending = false;
          lock = false;
          expected = ("d" ∷ []) ∷ ("d" ∷ "a" ∷ []) ∷ [];
          staged = none;
          target = some file;
        }))
backup-returns_example =
    backup-returns good_calls small_disk undisturbed no_globs selection true 3 [] none none
      whole_dir (whole_dir ∷ []) member_d (member_a ∷ []) refl walked (inr refl)
