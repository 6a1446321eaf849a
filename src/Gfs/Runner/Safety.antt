-- ===== src/Gfs/Runner/Safety.antt =====
-- `move` of bdbackup/gfs/runner.py, under failures and crashes.
use bdbackup.Base.{
  ℕ, ◌≡◌, refl, sym, subst, inl, Bool, true, false, ◌&&◌, none, some, List, [], ◌∷◌, ◌++◌, str_eq,
  All, In, any_of, if◌then◌else◌, All-at, All-of_In,
}
use bdbackup.Base.FilePath.{FilePath, parent}
use bdbackup.Gfs.Store.{Location, ManagedUnit, record_move}
use bdbackup.Gfs.Runner.{
  Site, World, ok, throw, not_ready, M, ◌>>=◌, ◌>>◌, pure, effect, verify, verify_all, copy_all,
  rename_all, remove_all, drop_staged, engine_locks, commit, new_row, ensure_row, check_ready,
  check_free, paths_of, finals_of, new_locations, publish, copy_and_publish, move_from, move,
}
use bdbackup.Gfs.Runner.Post.{
  Post, option-Post, if_Post, Post-weaken, Post-both, Post-exits, bind-Post, effect-Post,
  finally-Post, post_exit,
}
use bdbackup.Gfs.Runner.Copies.{
  Good, recorded, IsSafe, Before, Before-IsSafe, Staged, Published, Pending, copy_all-Post,
  rename_all-Post,
}
use bdbackup.Gfs.Runner.Recorded.{
  Moved, Moved-IsSafe, recorded_move, remove_all-Post, drop_staged-Post,
}

module _ (S : Site) (u : ManagedUnit) (i : ℕ) (known : u.id ≡ some i) where
  -- Behind the renames: the row, the identities, the transaction and the removals.
  record_and_remove : FilePath → List FilePath → M S (Unit {0})
  record_and_remove path paths = ◌>>=◌ S (ensure_row S u) λ j.
      ◌>>◌ S (λ w. effect S w w w)
        (◌>>◌ S (commit S (λ t. record_move t j (new_locations S u (path ∷ paths)) u.locations))
          (remove_all S u.locations))

  Copied : FilePath → List FilePath → World S → Type 0
  Copied path paths w = Before S u i w × All (Published S u i w) (finals_of S u (path ∷ paths))

  commit-Post :
      (path : FilePath) (paths : List FilePath) (w : World S)
      → ((l : Location) × In l u.locations)
      → Copied path paths w
      → Post S
          (λ _ v. Moved S u i v)
          (IsSafe S u i)
          (commit S (λ t. record_move t i (new_locations S u (path ∷ paths)) u.locations) w)
  unfolding commit Copied
  commit-Post path paths w ne (b, p) =
      option-Post S (λ _ v. Moved S u i v) (IsSafe S u i)
        (record_move w.tables i (new_locations S u (path ∷ paths)) u.locations) _ _
        (λ e. Before-IsSafe S u i ne w b)
        (λ t e.
          effect-Post S (Moved S u i) (IsSafe S u i) w (record w { tables = t }) w
            (λ s. recorded_move S u i path paths w t b p e)
            (recorded_move S u i path paths w t b p e) (λ s. Before-IsSafe S u i ne w b))

  ensure_row-known : (w : World S) → ensure_row S u w ≡ (ok i, w)
  unfolding ensure_row
  ensure_row-known w =
      subst
        (λ o. let m : M S ℕ = elim o [ some j ↦ pure S j | none ↦ new_row S u ] in m w ≡ (ok i, w))
        (sym known) refl

  record_and_remove-Post :
      (path : FilePath) (paths : List FilePath) (w : World S)
      → ((l : Location) × In l u.locations)
      → Copied path paths w
      → Post S (λ _ v. IsSafe S u i v) (IsSafe S u i) (record_and_remove path paths w)
  unfolding record_and_remove Copied
  record_and_remove-Post path paths w ne c =
      bind-Post S (λ j v. (j ≡ i) × Copied path paths v) (λ _ v. IsSafe S u i v) (IsSafe S u i)
        (ensure_row S u) _ w
        (subst (Post S (λ j v. (j ≡ i) × Copied path paths v) (IsSafe S u i))
          (sym (ensure_row-known w)) (refl, c))
        (λ j v (e, k).
          subst
            (λ h.
              Post S (λ _ x. IsSafe S u i x) (IsSafe S u i)
                (◌>>◌ S (λ w. effect S w w w)
                  (◌>>◌ S
                    (commit S (λ t. record_move t h (new_locations S u (path ∷ paths)) u.locations))
                    (remove_all S u.locations))
                  v))
            (sym e) (touched v k))
    where
      remove_safe :
          (x : World S)
          → Moved S u i x
          → Post S (λ _ v. IsSafe S u i v) (IsSafe S u i) (remove_all S u.locations x)
      remove_safe x m =
          Post-both S (Moved S u i) (IsSafe S u i) (remove_all S u.locations x) (Moved-IsSafe S u i)
            (remove_all-Post S u i u.locations x (λ d k. k) m)

      touched :
          (v : World S)
          → Copied path paths v
          → Post S
              (λ _ x. IsSafe S u i x)
              (IsSafe S u i)
              (◌>>◌ S
                (λ w. effect S w w w)
                (◌>>◌ S
                  (commit S (λ t. record_move t i (new_locations S u (path ∷ paths)) u.locations))
                  (remove_all S u.locations))
                v)
      touched v c =
          bind-Post S (λ _ x. Copied path paths x) (λ _ x. IsSafe S u i x) (IsSafe S u i)
            (λ w. effect S w w w) _ v
            (effect-Post S (Copied path paths) (IsSafe S u i) v v v (λ s. c) c
              (λ s. Before-IsSafe S u i ne v c.0))
            (λ _ y k.
              bind-Post S (λ _ x. Moved S u i x) (λ _ x. IsSafe S u i x) (IsSafe S u i)
                (commit S (λ t. record_move t i (new_locations S u (path ∷ paths)) u.locations))
                (λ _. remove_all S u.locations) y (commit-Post path paths y ne k)
                (λ _ x m. remove_safe x m))

  publish-Post :
      (path : FilePath) (paths : List FilePath) (w : World S)
      → ((l : Location) × In l u.locations)
      → Before S u i w
      → All (Staged S u i w) (finals_of S u (path ∷ paths))
      → Post S (λ _ v. IsSafe S u i v) (IsSafe S u i) (publish S u (path ∷ paths) w)
  unfolding publish record_and_remove Copied
  publish-Post path paths w ne b st =
      bind-Post S Ready (λ _ v. IsSafe S u i v) (IsSafe S u i)
        (engine_locks S u (paths_of S u.locations ++ finals)) _ w
        (if_Post S Ready (IsSafe S u i)
          (str_eq u.kind "xtrabackup"
            && any_of (λ p. S.busy (parent p)) (paths_of S u.locations ++ finals))
          _ _ (λ e. Before-IsSafe S u i ne w b) (λ e. (b, st)))
        (λ _ v (c, t).
          bind-Post S (λ _ x. Copied path paths x) (λ _ x. IsSafe S u i x) (IsSafe S u i)
            (rename_all S finals) (λ _. record_and_remove path paths) v
            (Post-exits S (λ _ x. Copied path paths x) (Before S u i) (IsSafe S u i) _
              (Before-IsSafe S u i ne)
              (Post-weaken S
                (λ _ x.
                  Before S u i x × All (Published S u i x) [] × All (Published S u i x) finals)
                (λ _ x. Copied path paths x) (Before S u i) (rename_all S finals v)
                (rename_all-Post S u i finals [] v c
                  (All-of_In (Pending S u i v) finals
                    (λ f m. inl (All-at (Staged S u i v) f finals t m)))
                  tt)
                (λ _ x (p, _, q). (p, q))))
            (λ _ x k. record_and_remove-Post path paths x ne k))
    where
      finals : List FilePath
      finals = finals_of S u (path ∷ paths)

      Ready : Unit {0} → World S → Type 0
      Ready _ v = Before S u i v × All (Staged S u i v) finals

  -- The copies stay verified over the checks in front of the move.
  verify_all-Post :
      (ls : List Location) (w : World S)
      → Before S u i w
      → Post S (λ _ v. Before S u i v) (Before S u i) (verify_all S u ls w)
  unfolding verify_all
  verify_all-Post [] w b = b
  verify_all-Post (l ∷ ls) w b =
      bind-Post S (λ _ v. Before S u i v) (λ _ v. Before S u i v) (Before S u i) (verify S u l.path)
        (λ _. verify_all S u ls) w
        (option-Post S (λ _ v. Before S u i v) (Before S u i) (w.disk l.path) _ _ (λ _. b)
          λ n _.
            if_Post S (λ _ v. Before S u i v) (Before S u i) (S.holds u n) _ _ (λ _. b) (λ _. b))
        (λ _ v k. verify_all-Post ls v k)

  move_from-Post :
      (path : FilePath) (paths : List FilePath) (ls : List Location) (w : World S)
      → ((l : Location) × In l u.locations)
      → Before S u i w
      → Post S (λ _ v. IsSafe S u i v) (IsSafe S u i) (move_from S u (path ∷ paths) ls w)
  unfolding move_from copy_and_publish
  move_from-Post path paths [] w ne b = Before-IsSafe S u i ne w b
  move_from-Post path paths (l ∷ ls) w ne b =
      bind-Post S (λ _ v. Before S u i v) (λ _ v. IsSafe S u i v) (IsSafe S u i) (verify_all S u ls)
        _ w
        (Post-exits S (λ _ v. Before S u i v) (Before S u i) (IsSafe S u i) (verify_all S u ls w)
          (Before-IsSafe S u i ne) (verify_all-Post ls w b))
        (λ _ v k.
          finally-Post S (IsSafe S u i) (copy_and_publish S u l.path (path ∷ paths))
            (drop_staged S (finals_of S u (path ∷ paths))) v (body v k)
            (λ x h. drop_staged-Post S u i (finals_of S u (path ∷ paths)) x h))
    where
      body :
          (v : World S)
          → Before S u i v
          → Post S
              (λ _ x. IsSafe S u i x)
              (IsSafe S u i)
              (◌>>◌ S
                (copy_all S u l.path (finals_of S u (path ∷ paths)))
                (publish S u (path ∷ paths))
                v)
      body v k =
          bind-Post S
            (λ _ x.
              Before S u i x
              × All (Staged S u i x) []
              × All (Staged S u i x) (finals_of S u (path ∷ paths)))
            (λ _ x. IsSafe S u i x) (IsSafe S u i)
            (copy_all S u l.path (finals_of S u (path ∷ paths))) _ v
            (Post-exits S _ (Before S u i) (IsSafe S u i)
              (copy_all S u l.path (finals_of S u (path ∷ paths)) v) (Before-IsSafe S u i ne)
              (copy_all-Post S u i l.path (finals_of S u (path ∷ paths)) [] v k tt))
            (λ _ x (c, _, t). publish-Post path paths x ne c t)

  check_ready-Post :
      (ps : List FilePath) (w : World S)
      → ((l : Location) × In l u.locations)
      → Before S u i w
      → Post S (λ _ v. Before S u i v) (IsSafe S u i) (check_ready S ps w)
  unfolding check_ready
  check_ready-Post [] w ne b = b
  check_ready-Post (p ∷ ps) w ne b = split (S.ready p) (check_ready-Post ps w ne b)
    where
      split :
          (c : Bool)
          → Post S (λ _ v. Before S u i v) (IsSafe S u i) (check_ready S ps w)
          → Post S
              (λ _ v. Before S u i v)
              (IsSafe S u i)
              ((let m : M S (Unit {0}) = if c then check_ready S ps else throw S (not_ready p) in m)
                w)
      split true h = h
      split false h = Before-IsSafe S u i ne w b

  check_free-Post :
      (fs : List FilePath) (w : World S)
      → ((l : Location) × In l u.locations)
      → Before S u i w
      → Post S (λ _ v. Before S u i v) (IsSafe S u i) (check_free S fs w)
  unfolding check_free
  check_free-Post [] w ne b = b
  check_free-Post (f ∷ fs) w ne b =
      option-Post S (λ _ v. Before S u i v) (IsSafe S u i) (w.disk f) _ _
        (λ _. check_free-Post fs w ne b) (λ _ _. Before-IsSafe S u i ne w b)

  -- A move is safe against every failure. It is given a recorded unit whose locations, at least one,
  -- are those that the ledger records, with a verified copy at each, and a stage with at least one
  -- path. Whatever fails or crashes on the way, and also if nothing does, the ledger then records
  -- at least one location of the unit, and a copy that verifies stands at each location that it
  -- records.
  pub move-IsSafe :
      (apply : Bool) (path : FilePath) (paths : List FilePath) (w : World S)
      → ((l : Location) × In l u.locations)
      → recorded S u i w ≡ u.locations
      → All (λ l. Good S u i w l.path) u.locations
      → IsSafe S u i (move S apply u (path ∷ paths) w).1
  unfolding move
  move-IsSafe apply path paths w ne e g =
      post_exit S (IsSafe S u i) (move S apply u (path ∷ paths) w) (
        bind-Post S (λ _ v. Before S u i v) (λ _ v. IsSafe S u i v) (IsSafe S u i)
          (check_ready S (path ∷ paths)) _ w (ready (path ∷ paths))
          (λ _ v b.
            bind-Post S (λ _ x. Before S u i x) (λ _ x. IsSafe S u i x) (IsSafe S u i)
              (check_free S (finals_of S u (path ∷ paths))) _ v
              (free (finals_of S u (path ∷ paths)) v b) (λ _ x c. if_post_of apply x c)))
    where
      ready :
          (ps : List FilePath) → Post S (λ _ v. Before S u i v) (IsSafe S u i) (check_ready S ps w)
      ready ps = check_ready-Post ps w ne (e, g)

      free :
          (fs : List FilePath) (v : World S)
          → Before S u i v
          → Post S (λ _ x. Before S u i x) (IsSafe S u i) (check_free S fs v)
      free fs v b = check_free-Post fs v ne b

      if_post_of :
          (b : Bool) (x : World S)
          → Before S u i x
          → Post S
              (λ _ v. IsSafe S u i v)
              (IsSafe S u i)
              ((let m : M S (Unit {0}) =
                    if b then move_from S u (path ∷ paths) u.locations else pure S tt in
                  m)
                x)
      if_post_of true x c = move_from-Post path paths u.locations x ne c
      if_post_of false x c = Before-IsSafe S u i ne x c
