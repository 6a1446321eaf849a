-- ===== src/Gfs/Policy/Newest.antt =====
-- The order of units by day and id, and `max` by that key.
use bdbackup.Base.{
  ◌≡◌, refl, ◌∙◌, inl, inr, ◌⊎◌, true, false, List, [], ◌∷◌, arith, In, if◌then◌else◌, Bool-cases,
  str_lt_asymm, str_le_trans,
}
use bdbackup.Gfs.Calendar.{Date, before, same_day}
use bdbackup.Gfs.Policy.{BackupUnit, key_lt, newest}

pub before_asymm : (a b : Date) → before a b ≡ true → before b a ≡ false
unfolding before
before_asymm a b h = ground arith

pub key_lt_asymm : (a b : BackupUnit) → key_lt a b ≡ true → key_lt b a ≡ false
unfolding key_lt before same_day
key_lt_asymm a b h = ground (arith, str_lt_asymm a.id b.id)

-- `a ≤ b` and `b ≤ c` give `a ≤ c`, each written as the negation of the converse `<`.
pub key_le_trans :
    (a b c : BackupUnit) → key_lt b a ≡ false → key_lt c b ≡ false → key_lt c a ≡ false
unfolding key_lt before same_day
key_le_trans a b c h k = ground (arith, str_le_trans a.id b.id c.id)

pub key_lt_irrefl : (a : BackupUnit) → key_lt a a ≡ false
key_lt_irrefl a = elim (Bool-cases (key_lt a a)) [ inl h ↦ key_lt_asymm a a h | inr h ↦ h ]

-- The better of two, as the loop of `newest` keeps it.
abbrev pick : BackupUnit → BackupUnit → BackupUnit
pick best u = if key_lt best u then u else best

pick-cases : (best u : BackupUnit) → (best ≡ pick best u) ⊎ (u ≡ pick best u)
pick-cases best u = elim (Bool-cases (key_lt best u)) [
  | inl e ↦ inr (rw e refl)
  | inr e ↦ inl (rw e refl)
]

pick-ge_left : (best u : BackupUnit) → key_lt (pick best u) best ≡ false
pick-ge_left best u = elim (Bool-cases (key_lt best u)) [
  | inl e ↦ rw e (key_lt_asymm best u e)
  | inr e ↦ rw e (key_lt_irrefl best)
]

pick-ge_right : (best u : BackupUnit) → key_lt (pick best u) u ≡ false
pick-ge_right best u = elim (Bool-cases (key_lt best u)) [
  | inl e ↦ rw e (key_lt_irrefl u)
  | inr e ↦ rw e e
]

newest-ge :
    (best : BackupUnit) (us : List BackupUnit) (w : BackupUnit)
    → key_lt best w ≡ false
    → key_lt (newest best us) w ≡ false
unfolding newest
newest-ge best [] w h = h
newest-ge best (u ∷ us) w h =
    newest-ge (pick best u) us w (key_le_trans w best (pick best u) h (pick-ge_left best u))

-- No member of a group has a greater key than its newest.
pub newest-max :
    (best : BackupUnit) (us : List BackupUnit) (w : BackupUnit)
    → In w (best ∷ us)
    → key_lt (newest best us) w ≡ false
unfolding newest
newest-max best us w (inl e) = rw (← e) (newest-ge best us best (key_lt_irrefl best))
newest-max best [] w (inr m) = elim m [ ]
newest-max best (u ∷ us) w (inr (inl e)) =
    rw (← e) (newest-ge (pick best u) us u (pick-ge_right best u))
newest-max best (u ∷ us) w (inr (inr m)) = newest-max (pick best u) us w (inr m)

In-pick :
    (best u r : BackupUnit) (us : List BackupUnit) → In r (pick best u ∷ us) → In r (best ∷ u ∷ us)
In-pick best u r us (inl q) = elim (pick-cases best u) [
  | inl e ↦ inl (e ∙ q)
  | inr e ↦ inr (inl (e ∙ q))
]
In-pick best u r us (inr m) = inr (inr m)

pub newest-In : (best : BackupUnit) (us : List BackupUnit) → In (newest best us) (best ∷ us)
unfolding newest
newest-In best [] = inl refl
newest-In best (u ∷ us) = In-pick best u _ us (newest-In (pick best u) us)
