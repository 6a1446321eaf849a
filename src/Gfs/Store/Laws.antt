-- ===== src/Gfs/Store/Laws.antt =====
-- What the operations on the tables keep.
use bdbackup.Base.{
  ℕ, ◌≡◌, refl, ◌∙◌, inl, inr, Bool, not, none, some, List, [], ◌∷◌, ◌++◌, append_assoc, append-nil,
  arith, ◌==◌, if◌then◌else◌, any_of, keep_if, Bool-cases, Option-cases,
}
use bdbackup.Base.FilePath.{path_eq}
use bdbackup.Gfs.Store.{
  Location, LocationRow, Tables, lookup, locations_of, insert_locations, delete_locations,
  record_move, record_delete, insert_members, record_members,
}

-- What a lookup finds once one pair has been added behind.
lookup-snoc :
    (k i : ℕ) (a : Bool) (rows : List (ℕ × Bool))
    → lookup k (rows ++ ((i, a) ∷ []))
      ≡ (elim (lookup k rows) [ none ↦ (if k == i then some a else none) | some b ↦ some b ])
lookup-snoc k i a [] = refl
lookup-snoc k i a ((j, b) ∷ rows) = ground (arith, lookup-snoc k i a rows)

-- A judgment that is stored is never changed, and a record without one gets its first: a lookup
-- after `record_members` finds the old judgment, or else the first of the new ones.
pub lookup-record_members :
    (db : Tables) (seen : List (ℕ × Bool)) (k : ℕ)
    → lookup k (record_members db seen).members
      ≡ (elim (lookup k db.members) [ none ↦ lookup k seen | some b ↦ some b ])
unfolding record_members
lookup-record_members db seen k = go seen db.members
  where
    go :
        (seen rows : List (ℕ × Bool))
        → lookup k (insert_members seen rows)
          ≡ (elim (lookup k rows) [ none ↦ lookup k seen | some b ↦ some b ])
    go [] rows = ground arith
    go ((i, a) ∷ seen) rows =
        ground (arith, go seen rows, go seen (rows ++ ((i, a) ∷ [])), lookup-snoc k i a rows)

locations_of-append :
    (i : ℕ) (rows more : List LocationRow)
    → locations_of i (rows ++ more) ≡ locations_of i rows ++ locations_of i more
unfolding locations_of
locations_of-append i [] more = refl
locations_of-append i (r ∷ rows) more = ground (arith, locations_of-append i rows more)

pub insert_locations-of :
    (i k : ℕ) (new : List Location) (rows out : List LocationRow)
    → insert_locations i new rows ≡ some out
    → locations_of k out ≡ locations_of k rows ++ (if i == k then new else [])
unfolding insert_locations locations_of
insert_locations-of i k [] rows out h = ground (arith, append-nil (locations_of k rows))
insert_locations-of i k (l ∷ new) rows out h = elim (Bool-cases (i == k)) [
  | inl e ↦
      insert_locations-of i k new (rows ++ (record { unit_id = i; location = l } ∷ [])) out
        (ground arith)
      ∙ rw (locations_of-append, e) (append_assoc (locations_of k rows) (l ∷ []) new)
  | inr e ↦
      insert_locations-of i k new (rows ++ (record { unit_id = i; location = l } ∷ [])) out
        (ground arith)
      ∙ rw (locations_of-append, e) (append_assoc (locations_of k rows) [] [])
]

-- The locations that stay when some are removed.
abbrev pub without : List Location → List Location → List Location
without removed = keep_if (λ l. not (any_of (λ d. path_eq l.path d.path) removed))

delete_locations-of :
    (i k : ℕ) (removed : List Location) (rows : List LocationRow)
    → locations_of k (delete_locations i removed rows)
      ≡ (if i == k then without removed (locations_of k rows) else locations_of k rows)
unfolding delete_locations locations_of
delete_locations-of i k removed [] = ground arith
delete_locations-of i k removed (r ∷ rows) = ground (arith, delete_locations-of i k removed rows)

-- A move recorded for one unit replaces its removed locations by the new ones behind those that
-- stay, and leaves the locations of every other unit alone.
pub locations_of-record_move :
    (db : Tables) (i k : ℕ) (new removed : List Location) (db' : Tables)
    → record_move db i new removed ≡ some db'
    → locations_of k db'.locations ≡ (
        if i == k
        then without removed (locations_of k db.locations ++ new)
        else locations_of k db.locations)
unfolding record_move
locations_of-record_move db i k new removed db' h =
    elim (Option-cases (insert_locations i new db.locations)) [
      | inl e ↦ absurd (ground arith)
      | inr (rows, e) ↦ ground (
        arith,
        insert_locations-of i k new db.locations rows e,
        delete_locations-of i k removed rows,
        append-nil (locations_of k db.locations),
      )
    ]

-- After a deletion is recorded the unit has no location, and the other units keep theirs.
pub locations_of-record_delete :
    (db : Tables) (i k : ℕ)
    → locations_of k (record_delete db i).locations
      ≡ (if i == k then [] else locations_of k db.locations)
unfolding record_delete locations_of
locations_of-record_delete db i k = go db.locations
  where
    go :
        (rows : List LocationRow)
        → locations_of k (keep_if (λ r. not (r.unit_id == i)) rows)
          ≡ (if i == k then [] else locations_of k rows)
    go [] = ground arith
    go (r ∷ rows) = ground (arith, go rows)
