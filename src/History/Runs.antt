-- ===== src/History/Runs.antt =====
-- What a tracked run and the later checksums leave in the history.
use bdbackup.Base.{
  ℕ, ◌≡◌, refl, sym, subst, inl, inr, ◌⊎◌, Bool, true, false, Option, none, some, List, [], ◌∷◌,
  ◌++◌, String, str_eq_self, arith, All, In, ◌==◌, if◌then◌else◌, Bool-cases, Option-cases,
}
use bdbackup.Base.FilePath.{FilePath}
use bdbackup.Ledger.{RestoreInfo, unit_path}
use bdbackup.History.{
  Row, Database, Facts, Ended, returned, raised, failed, update_row, mark_failed, mark_success,
  started, run, is_available, fill, record_checksum, record_all,
}

-- No row has the id that the next one gets.
abbrev pub IsFresh : Database → Type 0
IsFresh db = All (λ r. (r.id == db.next_id) ≡ false) db.rows

update_row-append :
    (i : ℕ) (f : Row → Row) (rows : List Row) (r : Row)
    → All (λ q. (q.id == i) ≡ false) rows
    → (r.id == i) ≡ true
    → update_row i f (rows ++ (r ∷ [])) ≡ rows ++ (f r ∷ [])
unfolding update_row
update_row-append i f [] r a h = rw h refl
update_row-append i f (q ∷ rows) r (n, a) h = rw n (cc (update_row-append i f rows r a h))

success_is_available :
    (identity_of : FilePath → Option String) (f : Facts) (r : Row)
    → identity_of f.path ≡ some f.identity
    → is_available identity_of (mark_success f r) ≡ true
unfolding is_available
success_is_available identity_of f r e = ground (arith, str_eq_self f.identity)

-- What one finished run leaves: its row, at the end of the others.
abbrev pub Outcome :
    (FilePath → Option String) → Option Facts → String → Database → Ended × Database → Type 0
Outcome identity_of facts exception db (e, d) =
    (r : Row) × (d.rows ≡ db.rows ++ (r ∷ []))
    × (r.id ≡ db.next_id)
    × (((e ≡ returned) × (is_available identity_of r ≡ true))
        ⊎ ((e ≡ raised) × (facts ≡ none) × (r.status ≡ failed) × (r.error ≡ some exception)))

-- A tracked run is recorded truthfully. In a database of version 5 whose next id is fresh, if both
-- connections work, then a run adds exactly one row and keeps the others: either it returns and
-- that row is available as long as the backup keeps the identity that was read, or it raises, the
-- action failed, and the row is failed with the exception's name.
pub run-Outcome :
    (identity_of : FilePath → Option String) (job : String) (info : RestoreInfo)
    (facts : Option Facts) (exception : String) (db : Database)
    → db.version ≡ 5
    → IsFresh db
    → ((f : Facts) → facts ≡ some f → identity_of f.path ≡ some f.identity)
    → Outcome identity_of facts exception db (run true true job info facts exception db)
unfolding run
run-Outcome identity_of job info facts exception db v fresh known =
    subst
      (λ n.
        let d = record db { version = n } in
        Outcome identity_of facts exception d (run true true job info facts exception d))
      (sym v) (of_facts facts known)
  where
    self : (db.next_id == db.next_id) ≡ true
    self = ground arith

    current : Database
    current = record db { version = 5 }

    of_facts :
        (o : Option Facts)
        → ((f : Facts) → o ≡ some f → identity_of f.path ≡ some f.identity)
        → Outcome identity_of o exception current (run true true job info o exception current)
    of_facts none k = (
      mark_failed exception (started db job info),
      update_row-append db.next_id (mark_failed exception) db.rows (started db job info) fresh self,
      refl,
      inr (refl, refl, refl, refl),
    )
    of_facts (some f) k = (
      mark_success f (started db job info),
      update_row-append db.next_id (mark_success f) db.rows (started db job info) fresh self,
      refl,
      inl (refl, success_is_available identity_of f (started db job info) (k f refl)),
    )

fill-full : (u : FilePath) (digest c : String) (r : Row) → r.checksum ≡ some c → fill u digest r ≡ r
fill-full u digest c r e =
    subst
      (λ o. elim o [ none ↦ record r { unit = some u; checksum = some digest } | some _ ↦ r ] ≡ r)
      (sym e) refl

update_row-fill :
    (i : ℕ) (u : FilePath) (digest c : String) (r : Row) (rows : List Row)
    → r.checksum ≡ some c
    → In r rows
    → In r (update_row i (fill u digest) rows)
unfolding update_row
update_row-fill i u digest c r [] e m = elim m [ ]
update_row-fill i u digest c r (q ∷ rows) e (inl p) = inl (filled (q.id == i))
  where
    kept : fill u digest q ≡ r
    kept = subst (λ x. fill u digest x ≡ r) (sym p) (fill-full u digest c r e)

    filled : (b : Bool) → (if b then fill u digest q else q) ≡ r
    filled true = kept
    filled false = p
update_row-fill i u digest c r (q ∷ rows) e (inr m) = inr (update_row-fill i u digest c r rows e m)

module _ (identity_of checksum_of : FilePath → Option String) where
  record_checksum-cases :
      (q : Row) (rows : List Row)
      → ((record_checksum identity_of checksum_of q rows).1 ≡ rows)
        ⊎ ((u : FilePath) × (digest : String) × ((record_checksum identity_of checksum_of q rows).1
              ≡ update_row q.id (fill u digest) rows))
  unfolding record_checksum
  record_checksum-cases q rows = elim (Bool-cases (is_available identity_of q)) [
    | inr n ↦ inl (ground arith)
    | inl y ↦ elim (Option-cases q.path) [
      | inl n ↦ inl (ground arith)
      | inr (p, k) ↦ elim (Option-cases (unit_path p q.restore_info)) [
        | inl n ↦ inl (ground arith)
        | inr (u, h) ↦ elim (Option-cases (checksum_of p)) [
          | inl n ↦ inl (ground arith)
          | inr (digest, g) ↦ inr (u, digest, ground arith)
        ]
      ]
    ]
  ]

  record_checksum-keeps :
      (q r : Row) (c : String) (rows : List Row)
      → r.checksum ≡ some c
      → In r rows
      → In r (record_checksum identity_of checksum_of q rows).1
  record_checksum-keeps q r c rows e m = elim (record_checksum-cases q rows) [
    | inl k ↦ subst (In r) (sym k) m
    | inr (u, digest, k) ↦ subst (In r) (sym k) (update_row-fill q.id u digest c r rows e m)
  ]

  -- A recorded checksum is never changed: a row that has a checksum is still there, as it was, after
  -- `record_checksums`, if what other processes write meanwhile leaves that row alone.
  pub record_all-keeps :
      (meanwhile : ℕ → List Row → List Row) (r : Row) (c : String) (qs rows : List Row)
      → r.checksum ≡ some c
      → ((i : ℕ) (rs : List Row) → In r rs → In r (meanwhile i rs))
      → In r rows
      → In r (record_all identity_of checksum_of meanwhile qs rows).1
  unfolding record_all
  record_all-keeps meanwhile r c [] rows e k m = m
  record_all-keeps meanwhile r c (q ∷ qs) rows e k m =
      record_all-keeps meanwhile r c qs
        (record_checksum identity_of checksum_of q (meanwhile q.id rows)).1 e k
        (record_checksum-keeps q r c (meanwhile q.id rows) e (k q.id rows m))
