-- ===== src/Recovery.antt =====
-- bdbackup/recovery.py: the choice of the copy that a recorded backup is restored from.
pub mod Destination
use bdbackup.Base.{
  ◌≡◌, refl, inl, inr, ◌⊎◌, Bool, true, false, not, ◌&&◌, Option, none, some, List, [], ◌∷◌, String,
  str_eq, if◌then◌else◌, all_of, In, arith, Bool-cases, Option-cases,
}
use bdbackup.Base.FilePath.{FilePath, path_eq, relative_to}

-- The engine that `restore_info` names.
pub data Kind : Type 0 where
  physical archive dump unsupported : Kind

pub data Attempt : Type 0 where
  restored unverified failed : Attempt

-- `Place`, with what `place_available` finds before the restoration and after it.
pub record Place : Type 0 where
  pub unit : FilePath
  pub member : FilePath
  pub is_available : Bool
  pub still_available : Bool

abbrev pub member_sum : FilePath → List (FilePath × String) → Option String
member_sum p [] = none
member_sum p ((q, s) ∷ ms) = if path_eq q p then some s else member_sum p ms

abbrev same_sum : Option String → Option String → Bool
same_sum (some a) (some b) = str_eq a b
same_sum _ _ = false

-- The file system and the engines: `resolve`, `checksum` (none for an error), the sources that
-- `prepare` reads for a backup (none if it fails before), and whether the restoration itself works.
pub record Site : Type 0 where
  pub resolve : FilePath → FilePath
  pub checksum : FilePath → Option String
  pub sources : FilePath → Option (List FilePath)
  pub works : FilePath → Bool

module _ (s : Site) (members : List (FilePath × String)) where
  -- The body of `_verify`'s loop.
  unfoldable pub source_verifies : FilePath → FilePath → Bool
  unfolding relative_to
  source_verifies at source = elim (relative_to (s.resolve source) (s.resolve at)) [
    | none ↦ false
    | some r ↦ same_sum (member_sum r members) (s.checksum (s.resolve source))
  ]

  -- `_verify`
  unfoldable pub verifies : FilePath → List FilePath → Bool
  unfolding source_verifies
  verifies at sources = all_of (source_verifies at) sources

  -- `_restore` of a place that the rotation manages; what it began after an error is removed again.
  unfoldable pub restore_from : Kind → Bool → Place → Attempt
  unfolding verifies
  restore_from unsupported is_new p = failed
  restore_from physical is_new p = if not is_new then failed else elim (s.sources p.member) [
    | none ↦ failed
    | some sources ↦
        if not (verifies p.unit sources)
        then unverified
        else if s.works p.member
        then restored
        else failed
  ]
  restore_from _ is_new p =
      if not is_new
      then failed
      else if not (verifies p.unit (p.member ∷ []))
      then unverified
      else if s.works p.member && p.still_available
      then restored
      else failed

  -- The loop of `restore_record`: the member restored, or none for a `BackupError`.
  unfoldable pub restore_record : Kind → Bool → List Place → Option FilePath
  unfolding restore_from
  restore_record kind is_new [] = none
  restore_record kind is_new (p ∷ ps) =
      let rest = restore_record kind is_new ps in
      if not p.is_available then rest else elim (restore_from kind is_new p) [
        | restored ↦ some p.member
        | unverified ↦ rest
        | failed ↦ none
      ]

  -- The sources that a restoration of this kind reads at a place.
  abbrev pub read_at : Kind → Place → Option (List FilePath)
  read_at physical p = s.sources p.member
  read_at _ p = some (p.member ∷ [])

  Attempt-cases : (a : Attempt) → (a ≡ restored) ⊎ ((a ≡ unverified) ⊎ (a ≡ failed))
  Attempt-cases restored = inl refl
  Attempt-cases unverified = inr (inl refl)
  Attempt-cases failed = inr (inr refl)

  restored_verifies :
      (kind : Kind) (is_new : Bool) (p : Place)
      → restore_from kind is_new p ≡ restored
      → (is_new ≡ true)
        × ((sources : List FilePath) × (read_at kind p ≡ some sources)
            × (verifies p.unit sources ≡ true))
  unfolding restore_from
  restored_verifies unsupported is_new p h = absurd (ground arith)
  restored_verifies archive is_new p h = (ground arith, (p.member ∷ [], refl, ground arith))
  restored_verifies dump is_new p h = (ground arith, (p.member ∷ [], refl, ground arith))
  restored_verifies physical is_new p h = elim (Option-cases (s.sources p.member)) [
    | inl e ↦ absurd (ground arith)
    | inr (sources, e) ↦ (ground arith, (sources, e, ground arith))
  ]

  -- A place whose copy was available, and whose sources all match the ledger's checksums.
  abbrev pub IsVerified : Kind → Bool → List Place → FilePath → Type 0
  IsVerified kind is_new ps m =
      (is_new ≡ true)
      × ((p : Place) × In p ps
          × (p.member ≡ m)
          × (p.is_available ≡ true)
          × ((sources : List FilePath) × (read_at kind p ≡ some sources)
              × (verifies p.unit sources ≡ true)))

  widen :
      (kind : Kind) (is_new : Bool) (p : Place) (ps : List Place) (m : FilePath)
      → IsVerified kind is_new ps m
      → IsVerified kind is_new (p ∷ ps) m
  widen kind is_new p ps m (n, (q, i, e, a, v)) = (n, (q, inr i, e, a, v))

  -- Only verified content is restored. If a managed backup is restored, then the destination is new,
  -- and the copy restored is that of one of its places which was available and whose sources, all
  -- those that the restoration reads, match the ledger's checksums.
  pub restore_record-IsVerified :
      (kind : Kind) (is_new : Bool) (ps : List Place) (m : FilePath)
      → restore_record kind is_new ps ≡ some m
      → IsVerified kind is_new ps m
  unfolding restore_record
  restore_record-IsVerified kind is_new [] m h = absurd (ground arith)
  restore_record-IsVerified kind is_new (p ∷ ps) m h = elim (Bool-cases p.is_available) [
    | inr n ↦ widen kind is_new p ps m (restore_record-IsVerified kind is_new ps m (ground arith))
    | inl y ↦ elim (Attempt-cases (restore_from kind is_new p)) [
      | inl e ↦
          let (n, v) = restored_verifies kind is_new p e in (n, (p, inl refl, ground arith, y, v))
      | inr (inl e) ↦
          widen kind is_new p ps m (restore_record-IsVerified kind is_new ps m (ground arith))
      | inr (inr e) ↦ absurd (ground arith)
    ]
  ]
