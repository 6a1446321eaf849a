-- ===== src/Gfs/Run/Tally.antt =====
-- What the exit code of a run says.
use bdbackup.Base.{
  ℕ, ◌≡◌, refl, sym, ap, subst, Bool, Option, none, some, List, [], ◌∷◌, String, arith,
}
use bdbackup.Base.FilePath.{FilePath}
use bdbackup.Gfs.Calendar.{Date}
use bdbackup.Gfs.Stages.{Stage}
use bdbackup.Gfs.Policy.{Decision, Action}
use bdbackup.Gfs.Store.{ManagedUnit, Counts}
use bdbackup.Gfs.Runner
use bdbackup.Gfs.Runner.{Site, World, Exit, ok, refusal, deferred, failure, crash, M, ◌>>=◌}
use bdbackup.Gfs.Run.{
  settle, some_or_raise, keep_row, move_to, act, act_all, Placed, placed_at, exit_code, add_moved,
  add_deleted, add_held,
}

module _ (S : Site) where
  bind-eq-ok :
      {A B : Type 0} (m : M S A) (k : A → M S B) (w v : World S) (b : B)
      → ◌>>=◌ S m k w ≡ (ok b, v)
      → (a : A) × (x : World S) × (m w ≡ (ok a, x)) × (k a x ≡ (ok b, v))
  bind-eq-ok {A} {B} m k w v b h = of_result (m w) h
    where
      of_result :
          (r : Exit A × World S)
          → ◌>>=◌ S (λ _. r) k w ≡ (ok b, v)
          → (a : A) × (x : World S) × (r ≡ (ok a, x)) × (k a x ≡ (ok b, v))
      of_result (ok a, x) h = (a, x, refl, h)
      of_result (refusal e, x) h = let q = ap (λ p. p.0) h in absurd (ground arith)
      of_result (deferred, x) h = let q = ap (λ p. p.0) h in absurd (ground arith)
      of_result (failure, x) h = let q = ap (λ p. p.0) h in absurd (ground arith)
      of_result (crash, x) h = let q = ap (λ p. p.0) h in absurd (ground arith)

-- Nothing failed, was refused or was deferred.
abbrev pub IsClean : Counts → Type 0
IsClean c = (c.failed ≡ 0) × (c.refused ≡ 0) × (c.deferred ≡ 0)

exit_code-IsClean : (c : Counts) → exit_code c ≡ 0 → IsClean c
unfolding exit_code
exit_code-IsClean c h = (ground arith, ground arith, ground arith)

module _ (S : Site) (path_text : FilePath → String) (day_of : ℕ → Date) where
  -- The action of a decision, by itself.
  abbrev pub action : Bool → List Stage → ManagedUnit → Decision → M S (Unit {0})
  action apply stages u d = elim d.action [
    | Action.move ↦ move_to S path_text day_of apply stages u d.target
    | Action.delete ↦ Runner.delete S apply u
    | Action.hold ↦ λ w. (ok tt, w)
    | Action.stay ↦ keep_row S path_text day_of apply u
  ]

  settle-clean :
      (done : Counts → Counts) (c c' : Counts) (r : Exit (Unit {0}) × World S) (v : World S)
      → settle S path_text day_of done c r ≡ (ok c', v)
      → IsClean c'
      → (r ≡ (ok tt, v)) × (done c ≡ c')
  settle-clean done c c' (ok _, x) v h k = (cc (ap (λ p. p.1) h), ground arith)
  settle-clean done c c' (refusal e, x) v h (_, n, _) = absurd (ground arith)
  settle-clean done c c' (deferred, x) v h (_, _, n) = absurd (ground arith)
  settle-clean done c c' (failure, x) v h (n, _, _) = absurd (ground arith)
  settle-clean done c c' (crash, x) v h n = absurd (ground arith)

  act-IsClean :
      (apply : Bool) (stages : List Stage) (u : ManagedUnit) (d : Decision) (c c' : Counts)
      (w v : World S)
      → act S path_text day_of apply stages u d c w ≡ (ok c', v)
      → IsClean c'
      → (action apply stages u d w ≡ (ok tt, v)) × IsClean c
  unfolding act
  act-IsClean apply stages u d c c' w v h k = of_action d.action h
    where
      of_action :
          (a : Action)
          → act S path_text day_of apply stages u (record d { action = a }) c w ≡ (ok c', v)
          → (action apply stages u (record d { action = a }) w ≡ (ok tt, v)) × IsClean c
      of_action Action.hold h =
          let e : add_held c ≡ c' = ground arith in
          (cc (ap (λ p. p.1) h), subst IsClean {x = c'} {y = add_held c} (sym e) k)
      of_action Action.stay h =
          let (r, e) = settle-clean (λ x. x) c c' (keep_row S path_text day_of apply u w) v h k in
          (r, subst IsClean (sym e) k)
      of_action Action.delete h =
          let (r, e) = settle-clean add_deleted c c' (Runner.delete S apply u w) v h k in
          (r, subst IsClean (sym e) k)
      of_action Action.move h =
          let (r, e) =
            settle-clean add_moved c c' (move_to S path_text day_of apply stages u d.target w) v h
              k in
          (r, subst IsClean (sym e) k)

  -- Every decision's action ended well, one after the other.
  abbrev pub Ran : Bool → List Stage → Placed → List Decision → World S → World S → Type 0
  Ran apply stages placed [] w v = w ≡ v
  Ran apply stages placed (d ∷ ds) w v =
      (u : ManagedUnit) × (i : ℕ) × (x : World S) × (placed_at d.unit.id placed ≡ some (u, i))
      × (action apply stages u d w ≡ (ok tt, x))
      × Ran apply stages placed ds x v

  some_or_raise-eq-ok :
      {A B : Type 0} (o : Option A) (f : A → M S B) (w v : World S) (b : B)
      → some_or_raise S path_text day_of o f w ≡ (ok b, v)
      → (a : A) × (o ≡ some a) × (f a w ≡ (ok b, v))
  some_or_raise-eq-ok none f w v b h = let q = ap (λ p. p.0) h in absurd (ground arith)
  some_or_raise-eq-ok (some a) f w v b h = (a, refl, h)

  act_all-Clean :
      (apply : Bool) (stages : List Stage) (placed : Placed) (ds : List Decision) (c c' : Counts)
      (w v : World S)
      → act_all S path_text day_of apply stages placed ds c w ≡ (ok c', v)
      → IsClean c'
      → Ran apply stages placed ds w v × IsClean c
  unfolding act_all
  act_all-Clean apply stages placed [] c c' w v h k =
      let e : c ≡ c' = ground arith in (ap (λ p. p.1) h, subst IsClean {x = c'} {y = c} (sym e) k)
  act_all-Clean apply stages placed (d ∷ ds) c c' w v h k =
      let rest : ManagedUnit × ℕ → M S Counts = λ x.
        ◌>>=◌ S (act S path_text day_of apply stages x.0 d c)
          λ c1. act_all S path_text day_of apply stages placed ds c1 in
      let ((u, i), e, h1) = some_or_raise-eq-ok (placed_at d.unit.id placed) rest w v c' h in
      let (c1, x, a, h2) =
        bind-eq-ok S (act S path_text day_of apply stages u d c)
          (λ c1. act_all S path_text day_of apply stages placed ds c1) w v c' h1 in
      let (r, k1) = act_all-Clean apply stages placed ds c1 c' x v h2 k in
      let (b, k0) = act-IsClean apply stages u d c c1 w x a k1 in ((u, i, x, e, b, r), k0)

  -- The exit code 0 is earned: if all decisions are acted on and the tally then gives the exit code 0,
  -- the action of every decision ended well, one after the other, from the first world to the last.
  pub act_all-Ran :
      (apply : Bool) (stages : List Stage) (placed : Placed) (ds : List Decision) (c c' : Counts)
      (w v : World S)
      → act_all S path_text day_of apply stages placed ds c w ≡ (ok c', v)
      → exit_code c' ≡ 0
      → Ran apply stages placed ds w v
  act_all-Ran apply stages placed ds c c' w v h z =
      (act_all-Clean apply stages placed ds c c' w v h (exit_code-IsClean c' z)).0
