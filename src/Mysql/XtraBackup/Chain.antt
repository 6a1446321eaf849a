-- ===== src/Mysql/XtraBackup/Chain.antt =====
-- `_chain` and `_create` of bdbackup/mysql/xtrabackup.py: links between incrementals.
pub mod Entries
pub use Entries.{Result-cases, bind-eq-ok, raise_if-eq-ok, committed, IsIncrementalOf}
use Entries.{Named, child, collect-Named, child_of-Named, drop_child-Named, Taken, child_of-Taken}
use bdbackup.Base.{
  ℕ, zero, suc, ◌+◌, ◌≡◌, refl, sym, ap, subst, inl, inr, ◌⊎◌, true, not, List, [], ◌∷◌, ◌++◌,
  arith, length, Bool-cases, Option-cases, ◌==◌, All, All-append, keep_if, Perm, perm_middle, map,
  map-append, if◌then◌else◌, append-nil, append_assoc, ◌∙◌,
}
use mathlib.Core.List.Perm
use bdbackup.Base.FilePath.{FilePath, path_eq, path_eq_sound}
use bdbackup.Mysql.XtraBackup.{
  BackupDir, Checkpoints, Children, Result, ok, err, checkpoints, valid_base, child_of, drop_child,
  adopt, collect, follow, chain, raise_if, ◌>>=◌, full_backuped, log_applied, full_prepared, other,
  BackupType, Error, unexpected_entry, different_full, broken_lsn, already_prepared,
  missing_parents,
}

-- `d` continues `p`: it names `p` as its parent, starts at the LSN where `p` ends, and has not been
-- prepared.
abbrev pub Continues : BackupDir → BackupDir → Type 0
Continues p d =
    Named (p.path, d)
    × ((c : Checkpoints) × (b : Checkpoints) × (checkpoints d ≡ ok c)
        × (checkpoints p ≡ ok b)
        × (c.from_lsn ≡ b.to_lsn))
    × (valid_base d ≡ true)

abbrev pub IsLinked : BackupDir → List BackupDir → Type 0
IsLinked p [] = Unit
IsLinked p (d ∷ ds) = Continues p d × IsLinked d ds

follow-IsLinked :
    (n : ℕ) (parent : BackupDir) (cs : Children) (ds : List BackupDir)
    → All Named cs
    → follow n parent cs ≡ ok ds
    → IsLinked parent ds
unfolding follow
follow-IsLinked zero parent cs ds k h = subst (IsLinked parent) {x = []} (ground arith) tt
follow-IsLinked (suc n) parent cs ds k h = elim (Option-cases (child_of parent.path cs)) [
  | inl e ↦ subst (IsLinked parent) {x = []} (ground arith) tt
  | inr (d, e) ↦ elim (Result-cases (checkpoints d)) [
    | inr (x, q) ↦ absurd (ground arith)
    | inl (c, q) ↦ elim (Result-cases (checkpoints parent)) [
      | inr (x, r) ↦ absurd (ground arith)
      | inl (b, r) ↦ elim (Result-cases (follow n d (drop_child parent.path cs))) [
        | inr (x, s) ↦ absurd (ground arith)
        | inl (rest, s) ↦ subst (IsLinked parent) {x = d ∷ rest} (ground arith) (
          (child_of-Named parent.path cs d k e, (c, b, q, r, ground arith), ground arith),
          follow-IsLinked n d (drop_child parent.path cs) rest (drop_child-Named parent.path cs k)
              s,
        )
      ]
    ]
  ]
]

-- The children that are followed, and those that are left.
abbrev Followed : (BackupDir → Type 0) → Children → List BackupDir → Type 0
Followed P cs ds =
    (left : List BackupDir) × Perm (map child cs) (ds ++ left)
    × (length cs ≡ length ds + length left)
    × (All P (map child cs) → All P ds)

length-child : (cs : Children) → length cs ≡ length (map child cs)
length-child [] = refl
length-child (c ∷ cs) = ap suc (length-child cs)

none-Followed :
    (P : BackupDir → Type 0) (cs : Children) (ds : List BackupDir) → [] ≡ ds → Followed P cs ds
none-Followed P cs ds e =
    subst (Followed P cs) e
      (map child cs, Perm.refl (map child cs), omega (arith, length-child cs), λ a. tt)

follow-Followed :
    (P : BackupDir → Type 0) (n : ℕ) (parent : BackupDir) (cs : Children) (ds : List BackupDir)
    → follow n parent cs ≡ ok ds
    → Followed P cs ds
unfolding follow
follow-Followed P zero parent cs ds h = none-Followed P cs ds (ground arith)
follow-Followed P (suc n) parent cs ds h = elim (Option-cases (child_of parent.path cs)) [
  | inl e ↦ none-Followed P cs ds (ground arith)
  | inr (d, e) ↦
      let (c, q, h1) = bind-eq-ok (checkpoints d) _ ds (rw (follow, e) at h) in
      let (b, r, h2) = bind-eq-ok (checkpoints parent) _ ds h1 in
      let (_, _, h3) = bind-eq-ok (raise_if (not (c.from_lsn == b.to_lsn)) broken_lsn) _ ds h2 in
      let (_, _, h4) = bind-eq-ok (raise_if (not (valid_base d)) already_prepared) _ ds h3 in
      let (rest, s, h5) = bind-eq-ok (follow n d (drop_child parent.path cs)) _ ds h4 in
      let (perm, many, each) = child_of-Taken P parent.path cs d e in
      let (left, more, count, all) = follow-Followed P n d (drop_child parent.path cs) rest s in
      subst (Followed P cs) {x = d ∷ rest} (ground arith) (
        left,
        Perm.trans perm (Perm.cons d more),
        omega (arith, many, count),
        λ a. let (x, y) = each a in (x, all y),
      )
]

nothing_left : {A : Type 0} (xs left : List A) → length left ≡ 0 → xs ++ left ≡ xs
nothing_left xs [] h = append-nil xs
nothing_left xs (x ∷ left) h = absurd (omega (arith, h))

-- A chain is complete and unbroken. If `_chain` returns, its incrementals are the committed entries in
-- another order, each exactly once, and the metadata of each says that it is an incremental of this
-- full. They form one line from the full: each names the one before it as its parent, starts at the
-- LSN where that one ends, and has not been prepared.
pub chain-IsLinked :
    (full : BackupDir) (entries ds : List BackupDir)
    → chain full entries ≡ ok ds
    → IsLinked full ds × Perm (committed entries) ds × All (IsIncrementalOf full.path) ds
unfolding chain
chain-IsLinked full entries ds h =
    let (cs, q, h1) = bind-eq-ok (collect full.path entries []) _ ds h in
    let (got, r, h2) = bind-eq-ok (follow (suc (length cs)) full cs) _ ds h1 in
    let (named, own, same) = collect-Named full.path entries [] cs tt tt q in
    let (left, perm, count, all) =
      follow-Followed (IsIncrementalOf full.path) (suc (length cs)) full cs got r in
    let e : got ≡ ds = ground arith in
    let many : length got ≡ length cs = ground arith in
    subst (λ l. IsLinked full l × Perm (committed entries) l × All (IsIncrementalOf full.path) l) e
      (
        follow-IsLinked (suc (length cs)) full cs got named r,
        subst (λ l. Perm (committed entries) l) (nothing_left got left (omega (arith, count, many)))
            (subst (λ l. Perm l (got ++ left)) same perm),
        all own,
      )
