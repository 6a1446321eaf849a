-- ===== src/Mysql/XtraBackup.antt =====
-- bdbackup/mysql/xtrabackup.py: physical backups, their dependency chains and their expiry. The
-- directories of a root are given by what the code reads of them; paths are relative to the root.
pub mod Chain
pub mod Dates
pub mod Expiry
pub mod Prepare
use bdbackup.Base.{
  ℕ, zero, suc, ◌+◌, ◌-◌, ◌≡◌, Bool, true, false, not, ◌&&◌, ◌||◌, Option, none, some, List, [],
  ◌∷◌, ◌++◌, String, str_eq, str_lt, starts_with, ltb, leb, ◌==◌, if◌then◌else◌, any_of, keep_if,
  length,
}
use bdbackup.Base.FilePath.{FilePath, path_eq}

-- The errors that the methods raise, `BackupError` with these messages.
pub data Error : Type 0 where
  invalid_checkpoints invalid_metadata unexpected_entry different_full ambiguous_parent : Error
  broken_lsn already_prepared missing_parents no_full latest_invalid legacy key_changed : Error
  tool_failed nothing_encrypted not_continued not_full refuse_prune : Error
  destination_exists inside_root lock_held escapes_root not_committed check_failed : Error
  date_underflow not_published : Error
  copy_failed has_symlinks no_key wrong_key still_encrypted not_recovered : Error

pub data Result (A : Type 0) : Type 0 where
  ok : A → Result A
  err : Error → Result A

infixl 5 ◌>>=◌ ◌>>◌
abbrev pub ◌>>=◌ : {A B : Type 0} → Result A → (A → Result B) → Result B
ok a >>= f = f a
err e >>= f = err e

abbrev pub ◌>>◌ : {B : Type 0} → Result (Unit {0}) → Result B → Result B
m >> k = m >>= λ _. k

abbrev pub raise_if : Bool → Error → Result (Unit {0})
raise_if true e = err e
raise_if false e = ok tt

pub data BackupType : Type 0 where
  full_backuped incremental log_applied full_prepared other : BackupType

pub record Checkpoints : Type 0 where
  pub from_lsn : ℕ
  pub to_lsn : ℕ
  pub backup_type : BackupType

-- `bdbackup.json`
pub record Metadata : Type 0 where
  pub schema : ℕ
  pub kind : BackupType
  pub full : FilePath
  pub parent : Option FilePath
  pub encrypted : Bool
  pub key_id : Option String
  pub from_lsn : ℕ
  pub to_lsn : ℕ

-- A backup directory: its path, and its two files as far as they can be read.
pub record BackupDir : Type 0 where
  pub path : FilePath
  pub name : String
  pub is_hidden : Bool
  pub is_plain_dir : Bool
  pub checkpoints_file : Option Checkpoints
  pub metadata_file : Option Metadata

abbrev pub is_known : BackupType → Bool
is_known other = false
is_known _ = true

abbrev pub is_base : BackupType → Bool
is_base full_backuped = true
is_base incremental = true
is_base _ = false

abbrev pub is_incremental : BackupType → Bool
is_incremental incremental = true
is_incremental _ = false

abbrev pub is_full : BackupType → Bool
is_full full_backuped = true
is_full _ = false

-- `_checkpoints`
unfoldable pub checkpoints : BackupDir → Result Checkpoints
checkpoints d = elim d.checkpoints_file [
  | none ↦ err invalid_checkpoints
  | some c ↦
      if (c.to_lsn == 0) || ltb c.to_lsn c.from_lsn || not (is_known c.backup_type)
      then err invalid_checkpoints
      else ok c
]

-- `_valid_base`
unfoldable pub valid_base : BackupDir → Bool
unfolding checkpoints
valid_base d = elim (checkpoints d) [ ok c ↦ is_base c.backup_type | err _ ↦ false ]

-- `_metadata`; the kind is "full" or "incremental".
unfoldable pub metadata : BackupDir → Result Metadata
unfolding checkpoints
metadata d = elim d.metadata_file [
  | none ↦ err invalid_metadata
  | some m ↦ elim (checkpoints d) [
    | err _ ↦ err invalid_metadata
    | ok c ↦
        if not (m.schema == 1)
          || not (m.from_lsn == c.from_lsn)
          || not (m.to_lsn == c.to_lsn)
          || not (is_base m.kind)
        then err invalid_metadata
        else ok m
  ]
]

-- The dict `children`: each parent's path with its child.
abbrev pub Children : Type 0
Children = List (FilePath × BackupDir)

unfoldable pub child_of : FilePath → Children → Option BackupDir
child_of p [] = none
child_of p ((q, d) ∷ cs) = if path_eq q p then some d else child_of p cs

-- `children.pop`
unfoldable pub drop_child : FilePath → Children → Children
drop_child p [] = []
drop_child p ((q, d) ∷ cs) = if path_eq q p then cs else (q, d) ∷ drop_child p cs

-- The body of `_chain`'s first loop, for an entry that is not skipped.
unfoldable pub adopt : FilePath → BackupDir → Children → Result Children
unfolding metadata child_of
adopt full d cs = do
  raise_if (not d.is_plain_dir) unexpected_entry
  m ← metadata d
  raise_if (not (path_eq m.full full) || not (is_incremental m.kind)) different_full
  elim m.parent [
    | none ↦ err ambiguous_parent
    | some p ↦ elim (child_of p cs) [
      | some _ ↦ err ambiguous_parent
      | none ↦ ok (cs ++ ((p, d) ∷ []))
    ]
  ]

unfoldable pub collect : FilePath → List BackupDir → Children → Result Children
unfolding adopt
collect full [] cs = ok cs
collect full (d ∷ ds) cs =
    if d.is_hidden then collect full ds cs else (adopt full d cs >>= λ more. collect full ds more)

-- `_chain`'s `while` loop. Each round takes a child out, so as many rounds as there are children
-- are enough; the fuel is one more.
unfoldable pub follow : ℕ → BackupDir → Children → Result (List BackupDir)
unfolding child_of drop_child checkpoints valid_base
follow zero parent cs = ok []
follow (suc n) parent cs = elim (child_of parent.path cs) [
  | none ↦ ok []
  | some d ↦ do
    c ← checkpoints d
    p ← checkpoints parent
    raise_if (not (c.from_lsn == p.to_lsn)) broken_lsn
    raise_if (not (valid_base d)) already_prepared
    rest ← follow n d (drop_child parent.path cs)
    ok (d ∷ rest)
]

-- `_chain`: `entries` is the directory of the full's incrementals, empty where it does not exist.
unfoldable pub chain : BackupDir → List BackupDir → Result (List BackupDir)
unfolding collect follow
chain full entries = do
  cs ← collect full.path entries []
  ds ← follow (suc (length cs)) full cs
  raise_if (not (length ds == length cs)) missing_parents
  ok ds

-- `_parent`: the chain's tip, or its full.
abbrev tip : BackupDir → List BackupDir → BackupDir
tip d [] = d
tip d (x ∷ xs) = tip x xs

unfoldable pub incremental_parent : BackupDir → List BackupDir → Result BackupDir
unfolding chain metadata
incremental_parent full entries = elim full.metadata_file [
  | none ↦ err legacy
  | some _ ↦ do _ ← metadata full; ds ← chain full entries; ok (tip full ds)
]

-- What the backup tool leaves in the pending directory, and what the settings say.
pub record Produced : Type 0 where
  pub tool_ok : Bool
  pub has_encrypted_files : Bool
  pub checkpoints_file : Option Checkpoints
  -- Whether the metadata can be written and the directory renamed to the target.
  pub can_publish : Bool

abbrev pub key_eq : Option String → Option String → Bool
key_eq none none = true
key_eq (some a) (some b) = str_eq a b
key_eq _ _ = false

-- The check of a new incremental, or of a new full.
unfoldable pub continues : Option BackupDir → Checkpoints → Result (Unit {0})
unfolding checkpoints
continues (some parent) c = do
  p ← checkpoints parent
  raise_if (not (is_incremental c.backup_type) || not (c.from_lsn == p.to_lsn)) not_continued
continues none c = raise_if (not (is_full c.backup_type) || not (c.from_lsn == 0)) not_full

abbrev pub same_key : Option BackupDir → Bool → Option String → Result (Unit {0})
same_key none encrypt key = ok tt
same_key (some parent) encrypt key = do
  m ← metadata parent
  raise_if (not (if m.encrypted then encrypt else not encrypt) || not (key_eq m.key_id key))
      key_changed

-- What the backup tool leaves, before `_write_metadata`.
abbrev pub pending : FilePath → String → Produced → BackupDir
pending target name made = record {
  path = target;
  name = name;
  is_hidden = false;
  is_plain_dir = true;
  checkpoints_file = made.checkpoints_file;
  metadata_file = none;
}

-- `_write_metadata`
abbrev pub written : Bool → Option String → FilePath → Option BackupDir → Checkpoints → Metadata
written encrypt key full parent c = record {
  schema = 1;
  kind = elim parent [ none ↦ full_backuped | some _ ↦ incremental ];
  full = full;
  parent = elim parent [ none ↦ none | some p ↦ some p.path ];
  encrypted = encrypt;
  key_id = key;
  from_lsn = c.from_lsn;
  to_lsn = c.to_lsn;
}

abbrev pub with_metadata :
    BackupDir → Bool → Option String → FilePath → Option BackupDir → Checkpoints → BackupDir
with_metadata d encrypt key full parent c = record d {
  metadata_file = some (written encrypt key full parent c);
}

-- `_create`: the backup directory that is published at `target`; after an error the pending
-- directory is removed and nothing is published.
unfoldable pub create :
    FilePath
    → String
    → Bool
    → Option String
    → Produced
    → FilePath
    → Option BackupDir
    → Result BackupDir
unfolding checkpoints continues metadata
create target name encrypt key made full parent = do
  same_key parent encrypt key
  raise_if (not made.tool_ok) tool_failed
  raise_if (encrypt && not made.has_encrypted_files) nothing_encrypted
  c ← checkpoints (pending target name made)
  continues parent c
  raise_if (not made.can_publish) not_published
  ok (with_metadata (pending target name made) encrypt key full parent c)
