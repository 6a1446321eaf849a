-- ===== src/Gfs/Store/Load.antt =====
-- `load` and `places` of bdbackup/gfs/store.py: the units that a chain manages, and where the copy
-- of each of their records is. `identity_of` stands for `os.stat`.
use bdbackup.Base.{
  ℕ, ◌+◌, ◌-◌, Bool, true, false, not, ◌&&◌, ◌||◌, Option, none, some, List, [], ◌∷◌, ◌++◌, map,
  String, str_eq, if◌then◌else◌, any_of, keep_if, length, min,
}
use bdbackup.Base.FilePath.{FilePath, path_eq, is_relative_to, relative_to}
use bdbackup.Gfs.Store.{
  Location, BackupRecord, ManagedUnit, UnitRow, Tables, Identities, is_success, record_available,
  lookup, unit_row, locations_of,
}

-- The test of `load`'s first loop: a record with ledger facts, under its unit's path.
abbrev ledgered : FilePath → BackupRecord → Bool
ledgered p r = elim r.unit [
  | none ↦ false
  | some u ↦ elim r.checksum [ none ↦ false | some _ ↦ path_eq u p ]
]

-- The keys of `by_unit`, in the order of their first record.
unfoldable pub unit_paths : List BackupRecord → List FilePath → List FilePath
unit_paths [] seen = seen
unit_paths (r ∷ rs) seen = unit_paths rs (elim r.unit [
  | none ↦ seen
  | some u ↦ elim r.checksum [
    | none ↦ seen
    | some _ ↦ if any_of (path_eq u) seen then seen else seen ++ (u ∷ [])
  ]
])

-- A record without ledger facts in the first stage counts as unmanaged.
abbrev is_unmanaged : FilePath → BackupRecord → Bool
is_unmanaged first r =
    (elim r.unit [ none ↦ true | some _ ↦ elim r.checksum [ none ↦ true | some _ ↦ false ] ])
    && (elim r.path [ none ↦ false | some p ↦ is_relative_to p first ])

abbrev known_as : List (ℕ × Bool) → ℕ → Bool
known_as known i = elim (lookup i known) [ none ↦ false | some b ↦ b ]

abbrev is_unknown : List (ℕ × Bool) → BackupRecord → Bool
is_unknown known r = elim (lookup r.id known) [ none ↦ true | some _ ↦ false ]

-- `seen`: the records not judged yet, each with whether it is available now.
unfoldable pub judge : Identities → List (ℕ × Bool) → List BackupRecord → List (ℕ × Bool)
unfolding record_available
judge identity_of known rs =
    map (λ r. (r.id, record_available identity_of r)) (keep_if (is_unknown known) rs)

unfoldable pub total_size : List BackupRecord → ℕ
total_size [] = 0
total_size (r ∷ rs) = r.size_bytes + total_size rs

unfoldable pub earliest : ℕ → List BackupRecord → ℕ
earliest t [] = t
earliest t (r ∷ rs) = earliest (min t r.completed_at) rs

-- `_unit`, for a nonempty list of members.
unfoldable pub make_unit :
    Option ℕ
    → FilePath
    → String
    → FilePath
    → BackupRecord
    → List BackupRecord
    → List Location
    → ManagedUnit
unfolding total_size earliest
make_unit i path series relative m ms locations = record {
  id = i;
  unit = path;
  series = series;
  relative = relative;
  kind = m.kind;
  time = earliest m.completed_at ms;
  members = m ∷ ms;
  locations = locations;
  size = total_size (m ∷ ms);
}

pub record Loaded : Type 0 where
  pub units : List ManagedUnit
  pub unmanaged : ℕ
  pub judgments : List (ℕ × Bool)

-- The unit built from its managed members, if it has any.
unfoldable pub managed_unit :
    FilePath → FilePath → Option UnitRow → List Location → List BackupRecord → List ManagedUnit
unfolding make_unit relative_to
managed_unit first path row locations [] = []
managed_unit first path row locations (m ∷ ms) = elim row [
  | some r ↦ make_unit (some r.id) path r.series r.relative m ms locations ∷ []
  | none ↦ elim (relative_to path first) [
    | none ↦ []
    | some rel ↦
        make_unit none path m.job_name rel m ms (record { stage_path = first; path = path } ∷ [])
        ∷ []
  ]
]

module _ (identity_of : Identities) (first : FilePath) (stage_paths : List FilePath) where
  -- Whether `load` leaves a unit out: a deleted one, or one of another chain.
  unfoldable pub passed_over : FilePath → Option UnitRow → List Location → Bool
  passed_over path row locations = elim row [
    | none ↦ not (is_relative_to path first)
    | some r ↦
        r.deleted
        || (not (is_relative_to path first)
            && not (any_of (λ l. any_of (path_eq l.stage_path) stage_paths) locations))
  ]

  -- The members of a unit, and what is judged now. `judged` is `none` on a schema-4 database.
  unfoldable pub select_members :
      Option (List (ℕ × Bool))
      → Option UnitRow
      → List BackupRecord
      → List BackupRecord × List (ℕ × Bool)
  unfolding judge
  select_members judged row rs =
      let known : List (ℕ × Bool) = elim judged [ none ↦ [] | some k ↦ k ] in
      let seen = judge identity_of known rs in
      let judging : List BackupRecord × List (ℕ × Bool) =
        (keep_if (λ r. known_as known r.id || known_as seen r.id) rs, seen) in
      elim judged [ some _ ↦ judging | none ↦ elim row [ some _ ↦ (rs, []) | none ↦ judging ] ]

  -- The second loop of `load`.
  unfoldable pub load_units :
      Option (List (ℕ × Bool)) → Tables → List BackupRecord → List FilePath → Loaded
  unfolding passed_over select_members managed_unit unit_row locations_of
  load_units judged db rs [] = record { units = []; unmanaged = 0; judgments = [] }
  load_units judged db rs (path ∷ paths) =
      let rest = load_units judged db rs paths in
      let row = unit_row path db.units in
      let locations : List Location = elim row [
        | none ↦ []
        | some r ↦ locations_of r.id db.locations
      ] in
      let own = keep_if (ledgered path) rs in
      let (ms, seen) = select_members judged row own in
      if passed_over path row locations then rest else record {
        units = managed_unit first path row locations ms ++ rest.units;
        unmanaged = (length own - length ms) + rest.unmanaged;
        judgments = seen ++ rest.judgments;
      }

  -- `load`, but for the order of the units.
  unfoldable pub load : Option (List (ℕ × Bool)) → Tables → Loaded
  unfolding load_units unit_paths
  load judged db =
      let rs = keep_if (λ r. is_success r.status) db.records in
      let l = load_units judged db rs (unit_paths rs []) in
      record l { unmanaged = length (keep_if (is_unmanaged first) rs) + l.unmanaged }

-- `Place`: where a record's copy is at one location of its unit.
pub record Place : Type 0 where
  pub unit : FilePath
  pub member : FilePath
  pub identity : Option String

-- The places of one record of a recorded unit. `identities` is the JSON column of a location.
unfoldable pub record_places :
    (FilePath → ℕ → Option String) → BackupRecord → FilePath → FilePath → List Location → List Place
record_places identities r unit relative [] = []
record_places identities r unit relative (l ∷ ls) =
    record {
      unit = l.path;
      member = l.path ++ relative;
      identity = if path_eq l.path unit then r.identity else identities l.path r.id;
    }
    ∷ record_places identities r unit relative ls

-- `place_available`
unfoldable pub place_available : Identities → Place → Bool
place_available identity_of p = elim (identity_of p.member) [
  | none ↦ false
  | some i ↦ elim p.identity [ none ↦ true | some j ↦ str_eq i j ]
]

-- `available`: `known` gives the places of a record that the rotation manages.
unfoldable pub available : Identities → (ℕ → Option (List Place)) → BackupRecord → Bool
unfolding place_available record_available
available identity_of known r = elim (known r.id) [
  | some ps ↦ any_of (place_available identity_of) ps
  | none ↦ record_available identity_of r
]
