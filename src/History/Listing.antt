-- ===== src/History/Listing.antt =====
-- bdbackup/history.py: `History.records` and `History.get`.
use bdbackup.Base.{
  ℕ, Bool, not, ◌&&◌, ◌||◌, Option, none, some, List, [], ◌∷◌, String, ltb, ◌==◌, if◌then◌else◌,
  keep_if,
}
use bdbackup.Base.Sorting.{sort_by}
use bdbackup.History.{Row, is_success, of_job}

-- The newest row is the first.
unfoldable pub records : Option String → Bool → List Row → List Row
unfolding sort_by
records job successful rows =
    sort_by (λ r s. ltb s.id r.id)
      (keep_if (λ r. of_job job r && (not successful || is_success r.status)) rows)

-- `get`, with none for its `HistoryError`.
unfoldable pub get : ℕ → List Row → Option Row
get i [] = none
get i (r ∷ rs) = if r.id == i then some r else get i rs
