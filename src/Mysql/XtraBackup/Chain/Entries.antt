-- ===== src/Mysql/XtraBackup/Chain/Entries.antt =====
-- `_chain` of bdbackup/mysql/xtrabackup.py: the entries and the children that it collects from them.
use bdbackup.Base.{
  suc, ◌≡◌, refl, sym, ap, subst, inl, inr, ◌⊎◌, Bool, true, false, not, ◌||◌, some, List, [], ◌∷◌,
  ◌++◌, arith, length, Bool-cases, Option-cases, All, All-append, keep_if, Perm, map, map-append,
  if◌then◌else◌, append-nil, append_assoc, ◌∙◌,
}
use mathlib.Core.List.Perm
use bdbackup.Base.FilePath.{FilePath, path_eq, path_eq_sound}
use bdbackup.Mysql.XtraBackup.{
  BackupDir, Metadata, Children, Result, ok, err, metadata, child_of, drop_child, adopt, collect,
  raise_if, ◌>>=◌, incremental, full_backuped, log_applied, full_prepared, other, BackupType, Error,
  is_incremental, unexpected_entry, different_full,
}

pub Result-cases : {A : Type 0} (r : Result A) → ((a : A) × (r ≡ ok a)) ⊎ ((e : _) × (r ≡ err e))
Result-cases (ok a) = inl (a, refl)
Result-cases (err e) = inr (e, refl)

pub bind-eq-ok :
    {A B : Type 0} (r : Result A) (f : A → Result B) (b : B)
    → (r >>= f) ≡ ok b
    → (a : A) × (r ≡ ok a) × (f a ≡ ok b)
bind-eq-ok (ok a) f b h = (a, refl, h)
bind-eq-ok (err e) f b h = absurd (ground arith)

pub raise_if-eq-ok : (b : Bool) (e : Error) → raise_if b e ≡ ok tt → b ≡ false
raise_if-eq-ok true e h = absurd (ground arith)
raise_if-eq-ok false e h = refl

-- The dict entry of a child: its metadata names the parent.
abbrev pub Named : FilePath × BackupDir → Type 0
Named x = (m : Metadata) × (metadata x.1 ≡ ok m) × (m.parent ≡ some x.0)

pub unless-true : {A : Type 0} (b : Bool) (x y : A) → b ≡ false → (if not b then x else y) ≡ x
unless-true true x y h = absurd (ground arith)
unless-true false x y h = refl

-- The entries that the chain is made of.
abbrev pub committed : List BackupDir → List BackupDir
committed = keep_if (λ d. not d.is_hidden)

-- An incremental of the full at this path, as its metadata says.
abbrev pub IsIncrementalOf : FilePath → BackupDir → Type 0
IsIncrementalOf full d =
    (m : Metadata) × (metadata d ≡ ok m)
    × (m.full ≡ full)
    × (m.kind ≡ incremental)
    × (d.is_plain_dir ≡ true)

pub is_incremental-eq : (t : BackupType) → is_incremental t ≡ true → t ≡ incremental
is_incremental-eq incremental e = refl
is_incremental-eq full_backuped e = absurd (ground arith)
is_incremental-eq log_applied e = absurd (ground arith)
is_incremental-eq full_prepared e = absurd (ground arith)
is_incremental-eq other e = absurd (ground arith)

pub adopt-eq-ok :
    (full : FilePath) (d : BackupDir) (cs out : Children)
    → adopt full d cs ≡ ok out
    → (p : FilePath) × Named (p, d) × IsIncrementalOf full d × (out ≡ cs ++ ((p, d) ∷ []))
unfolding adopt
adopt-eq-ok full d cs out h =
    let (_, plain, h1) = bind-eq-ok (raise_if (not d.is_plain_dir) unexpected_entry) _ out h in
    let (m, q, h2) = bind-eq-ok (metadata d) _ out h1 in
    let (_, same, h3) =
      bind-eq-ok
        (raise_if (not (path_eq m.full full) || not (is_incremental m.kind)) different_full) _ out
        h2 in
    let both =
      raise_if-eq-ok (not (path_eq m.full full) || not (is_incremental m.kind)) different_full
        same in
    let own : IsIncrementalOf full d = (
      m,
      q,
      path_eq_sound m.full full (ground arith),
      is_incremental-eq m.kind (ground arith),
      plain_dir d.is_plain_dir plain,
    ) in
    elim (Option-cases m.parent) [
      | inl n ↦ absurd (ground arith)
      | inr (p, n) ↦ (p, (m, q, n), own, ground arith)
    ]
  where
    plain_dir : (b : Bool) → raise_if (not b) unexpected_entry ≡ ok tt → b ≡ true
    plain_dir true e = refl
    plain_dir false e = absurd (ground arith)

abbrev pub child : FilePath × BackupDir → BackupDir
child x = x.1

pub collect-Named :
    (full : FilePath) (ds : List BackupDir) (cs out : Children)
    → All Named cs
    → All (IsIncrementalOf full) (map child cs)
    → collect full ds cs ≡ ok out
    → All Named out
      × All (IsIncrementalOf full) (map child out)
      × (map child out ≡ map child cs ++ committed ds)
unfolding collect
collect-Named full [] cs out n k h =
    let e : cs ≡ out = ground arith in
    (
      subst (All Named) e n,
      subst (λ x. All (IsIncrementalOf full) (map child x)) e k,
      ap (map child) (sym e) ∙ sym (append-nil (map child cs)),
    )
collect-Named full (d ∷ ds) cs out n k h = elim (Bool-cases d.is_hidden) [
  | inl hid ↦ rw hid (collect-Named full ds cs out n k (ground arith))
  | inr vis ↦ elim (Result-cases (adopt full d cs)) [
    | inr (e, q) ↦ absurd (ground arith)
    | inl (more, q) ↦
        let (p, a, b, e) = adopt-eq-ok full d cs more q in
        let names : map child more ≡ map child cs ++ (d ∷ []) =
          ap (map child) e ∙ map-append child cs ((p, d) ∷ []) in
        let (x, y, z) =
          collect-Named full ds more out
            (subst (All Named) (sym e) (All-append Named cs ((p, d) ∷ []) n (a, tt)))
            (subst (All (IsIncrementalOf full)) (sym names)
              (All-append (IsIncrementalOf full) (map child cs) (d ∷ []) k (b, tt)))
            (ground arith) in
        (
          x,
          y,
          z
              ∙ ap (λ l. l ++ committed ds) names
              ∙ append_assoc (map child cs) (d ∷ []) (committed ds)
              ∙ ap (λ l. map child cs ++ l) (sym (unless-true d.is_hidden _ _ vis)),
        )
  ]
]

pub child_of-Named :
    (p : FilePath) (cs : Children) (d : BackupDir)
    → All Named cs
    → child_of p cs ≡ some d
    → Named (p, d)
unfolding child_of
child_of-Named p [] d n h = absurd (ground arith)
child_of-Named p ((q, e) ∷ cs) d (n, ns) h = elim (Bool-cases (path_eq q p)) [
  | inl t ↦
      let s : e ≡ d = ground arith in
      subst (λ x. Named (p, x)) s (subst (λ x. Named (x, e)) (path_eq_sound q p t) n)
  | inr t ↦ child_of-Named p cs d ns (ground arith)
]

pub drop_child-Named : (p : FilePath) (cs : Children) → All Named cs → All Named (drop_child p cs)
unfolding drop_child
drop_child-Named p [] n = tt
drop_child-Named p ((q, e) ∷ cs) (n, ns) = elim (Bool-cases (path_eq q p)) [
  | inl t ↦ rw t ns
  | inr t ↦ rw t (n, drop_child-Named p cs ns)
]

-- What the lookup of a child takes out, for any property of the children.
abbrev pub Taken : (BackupDir → Type 0) → Children → BackupDir → Children → Type 0
Taken P cs d rest =
    Perm (map child cs) (d ∷ map child rest)
    × (length cs ≡ suc (length rest))
    × (All P (map child cs) → P d × All P (map child rest))

pub child_of-Taken :
    (P : BackupDir → Type 0) (p : FilePath) (cs : Children) (d : BackupDir)
    → child_of p cs ≡ some d
    → Taken P cs d (drop_child p cs)
unfolding child_of drop_child
child_of-Taken P p [] d h = absurd (ground arith)
child_of-Taken P p ((q, e) ∷ cs) d h = elim (Bool-cases (path_eq q p)) [
  | inl t ↦
      let s : e ≡ d = ground arith in
      rw t (subst (λ x. Taken P ((q, e) ∷ cs) x cs) s (Perm.refl (e ∷ map child cs), refl, λ a. a))
  | inr t ↦
      let (perm, many, each) = child_of-Taken P p cs d (ground arith) in
      rw t (
        Perm.trans (Perm.cons e perm) (Perm.swap d e (map child (drop_child p cs))),
        ap suc many,
        λ a. let (x, y) = each a.1 in (x, (a.0, y)),
      )
]
