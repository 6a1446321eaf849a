-- ===== src/History/Upgrades.antt =====
-- The ladder of schema versions.
use bdbackup.Base.{ℕ, zero, suc, ◌≡◌, refl, sym, subst, ◌≤◌, true, some, List, [], ◌∷◌, arith}
use bdbackup.History.{
  Database, Piece, backup_runs, gfs_units, gfs_locations, gfs_steps, gfs_members, gfs_runs,
  encrypted, unit_column, checksum_column, identities, run_id, connect,
}

-- The schema that each version of the program wrote.
abbrev pub pieces_at : ℕ → List Piece
pieces_at zero = []
pieces_at (suc zero) = backup_runs ∷ []
pieces_at (suc (suc zero)) = backup_runs ∷ encrypted ∷ []
pieces_at (suc (suc (suc zero))) = backup_runs ∷ encrypted ∷ unit_column ∷ checksum_column ∷ []
pieces_at (suc (suc (suc (suc zero)))) =
    backup_runs ∷ encrypted ∷ unit_column ∷ checksum_column ∷ gfs_units ∷ gfs_locations ∷ gfs_steps
    ∷ []
pieces_at _ =
    backup_runs ∷ encrypted ∷ unit_column ∷ checksum_column ∷ gfs_units ∷ gfs_locations ∷ gfs_steps
    ∷ identities ∷ gfs_members ∷ gfs_runs ∷ run_id ∷ []

-- The database as a version of the program left it.
abbrev pub at : ℕ → Database → Database
at v db = record db { version = v; pieces = pieces_at v }

abbrev pub Upgraded : Database → Database → Type 0
Upgraded db d =
    (connect true db ≡ some d)
    × (d.version ≡ 5)
    × (d.pieces ≡ pieces_at 5)
    × (d.rows ≡ db.rows)
    × (d.next_id ≡ db.next_id)
    × (connect true d ≡ some d)

connect-at : (v : ℕ) (db : Database) → v ≤ 5 → (d : Database) × Upgraded (at v db) d
unfolding connect
connect-at zero db h = (_, (refl, refl, refl, refl, refl, refl))
connect-at (suc zero) db h = (_, (refl, refl, refl, refl, refl, refl))
connect-at (suc (suc zero)) db h = (_, (refl, refl, refl, refl, refl, refl))
connect-at (suc (suc (suc zero))) db h = (_, (refl, refl, refl, refl, refl, refl))
connect-at (suc (suc (suc (suc zero)))) db h = (_, (refl, refl, refl, refl, refl, refl))
connect-at (suc (suc (suc (suc (suc zero))))) db h = (_, (refl, refl, refl, refl, refl, refl))
connect-at (suc (suc (suc (suc (suc (suc v)))))) db h = absurd (omega (arith, h))

-- Opening an older database for writing upgrades it. If the database has the schema of its version,
-- 0 to 5, then the connection succeeds: the database then has version 5 and its whole schema, with
-- the rows of `backup_runs` as they were, and opening it again changes nothing.
pub connect-Upgraded :
    (db : Database)
    → db.version ≤ 5
    → db.pieces ≡ pieces_at db.version
    → (d : Database) × Upgraded db d
connect-Upgraded db h e =
    subst (λ p. (d : Database) × Upgraded (record db { pieces = p }) d) (sym e)
      (connect-at db.version db h)

pub connect-current : (db : Database) → db.version ≡ 5 → connect true db ≡ some db
unfolding connect
connect-current db e =
    subst (λ v. connect true (record db { version = v }) ≡ some (record db { version = v })) (sym e)
      refl
