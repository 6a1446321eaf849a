-- ===== src/Gfs/Runner/Post.antt =====
-- Postconditions of the runner's methods: one for a return, one for every other exit.
use bdbackup.Base.{◌≡◌, refl, Bool, true, false, Option, none, some, List, [], ◌∷◌, if◌then◌else◌}
use bdbackup.Gfs.Runner.{
  Site, World, Exit, ok, refusal, deferred, failure, crash, Outcome, works, raises, crashes, M,
  ◌>>=◌, finally, effect,
}

module _ (S : Site) where
  abbrev pub Post :
      {A : Type 0} → (A → World S → Type 0) → (World S → Type 0) → Exit A × World S → Type 0
  Post P Q (ok a, w) = P a w
  Post P Q (refusal _, w) = Q w
  Post P Q (deferred, w) = Q w
  Post P Q (failure, w) = Q w
  Post P Q (crash, w) = Q w

  pub bind-Post :
      {A B : Type 0} (P : A → World S → Type 0) (R : B → World S → Type 0) (Q : World S → Type 0)
      (m : M S A) (f : A → M S B) (w : World S)
      → Post P Q (m w)
      → ((a : A) (v : World S) → P a v → Post R Q (f a v))
      → Post R Q (◌>>=◌ S m f w)
  bind-Post {A} {B} P R Q m f w h k = step (m w) h
    where
      step :
          (x : Exit A × World S)
          → Post P Q x
          → Post R Q (elim x.0 [
            | ok a ↦ f a x.1
            | refusal e ↦ (refusal e, x.1)
            | deferred ↦ (deferred, x.1)
            | failure ↦ (failure, x.1)
            | crash ↦ (crash, x.1)
          ])
      step (ok a, v) h = k a v h
      step (refusal _, v) h = h
      step (deferred, v) h = h
      step (failure, v) h = h
      step (crash, v) h = h

  -- A predicate that one effect keeps, whatever its outcome.
  pub effect-Post :
      (P : World S → Type 0) (Q : World S → Type 0) (w done torn : World S)
      → ((s : List Outcome) → P (record done { schedule = s }))
      → P done
      → ((s : List Outcome) → Q (record torn { schedule = s }))
      → Post (λ _ v. P v) Q (effect S w done torn)
  effect-Post P Q w done torn p p' q = step w.schedule
    where
      step :
          (s : List Outcome)
          → Post {A = Unit {0}}
              (λ _ v. P v)
              Q
              (elim s [
                | [] ↦ (ok tt, done)
                | works ∷ t ↦ (ok tt, record done { schedule = t })
                | raises ∷ t ↦ (failure, record torn { schedule = t })
                | crashes ∷ t ↦ (crash, record torn { schedule = t })
              ])
      step [] = p'
      step (works ∷ t) = p t
      step (raises ∷ t) = q t
      step (crashes ∷ t) = q t

  -- A predicate that the body and the cleanup both keep holds at every exit.
  pub finally-Post :
      (Q : World S → Type 0) (m clean : M S (Unit {0})) (w : World S)
      → Post (λ _ v. Q v) Q (m w)
      → ((v : World S) → Q v → Post (λ _ x. Q x) Q (clean v))
      → Post (λ _ v. Q v) Q (finally S m clean w)
  finally-Post Q m clean w h c = step (m w) h
    where
      step :
          (x : Exit (Unit {0}) × World S)
          → Post (λ _ v. Q v) Q x
          → Post (λ _ v. Q v) Q (finally S (λ _. x) clean w)
      step (ok a, v) h =
          bind-Post (λ _ x. Q x) (λ _ x. Q x) Q clean (λ _ x. (ok a, x)) v (c v h) (λ _ _ q. q)
      step (refusal e, v) h =
          bind-Post (λ _ x. Q x) (λ _ x. Q x) Q clean (λ _ x. (refusal e, x)) v (c v h) (λ _ _ q. q)
      step (deferred, v) h =
          bind-Post (λ _ x. Q x) (λ _ x. Q x) Q clean (λ _ x. (deferred, x)) v (c v h) (λ _ _ q. q)
      step (failure, v) h =
          bind-Post (λ _ x. Q x) (λ _ x. Q x) Q clean (λ _ x. (failure, x)) v (c v h) (λ _ _ q. q)
      step (crash, v) h = h

  pub post_exit :
      {A : Type 0} (Q : World S → Type 0) (x : Exit A × World S) → Post (λ _ v. Q v) Q x → Q x.1
  post_exit Q (ok _, v) h = h
  post_exit Q (refusal _, v) h = h
  post_exit Q (deferred, v) h = h
  post_exit Q (failure, v) h = h
  post_exit Q (crash, v) h = h

  pub Post-weaken :
      {A : Type 0} (P R : A → World S → Type 0) (Q : World S → Type 0) (x : Exit A × World S)
      → Post P Q x
      → ((a : A) (v : World S) → P a v → R a v)
      → Post R Q x
  Post-weaken P R Q (ok a, v) h k = k a v h
  Post-weaken P R Q (refusal _, v) h k = h
  Post-weaken P R Q (deferred, v) h k = h
  Post-weaken P R Q (failure, v) h k = h
  Post-weaken P R Q (crash, v) h k = h

  -- Splits on what a method branches on.
  pub option-Post :
      {A B : Type 0} (P : A → World S → Type 0) (Q : World S → Type 0) (o : Option B)
      (x : Exit A × World S) (f : B → Exit A × World S)
      → (o ≡ none → Post P Q x)
      → ((b : B) → o ≡ some b → Post P Q (f b))
      → Post P Q (elim o [ none ↦ x | some b ↦ f b ])
  option-Post P Q none x f h k = h refl
  option-Post P Q (some b) x f h k = k b refl

  pub if_Post :
      {A : Type 0} (P : A → World S → Type 0) (Q : World S → Type 0) (b : Bool)
      (x y : Exit A × World S)
      → (b ≡ true → Post P Q x)
      → (b ≡ false → Post P Q y)
      → Post P Q (if b then x else y)
  if_Post P Q true x y h k = h refl
  if_Post P Q false x y h k = k refl

  pub Post-both :
      {A : Type 0} (P Q : World S → Type 0) (x : Exit A × World S)
      → ((v : World S) → P v → Q v)
      → Post (λ _ v. P v) P x
      → Post (λ _ v. Q v) Q x
  Post-both P Q (ok a, v) k h = k v h
  Post-both P Q (refusal _, v) k h = k v h
  Post-both P Q (deferred, v) k h = k v h
  Post-both P Q (failure, v) k h = k v h
  Post-both P Q (crash, v) k h = k v h

  -- Another condition at the exits that return nothing.
  pub Post-exits :
      {A : Type 0} (P : A → World S → Type 0) (Q R : World S → Type 0) (x : Exit A × World S)
      → ((v : World S) → Q v → R v)
      → Post P Q x
      → Post P R x
  Post-exits P Q R (ok a, v) k h = h
  Post-exits P Q R (refusal _, v) k h = k v h
  Post-exits P Q R (deferred, v) k h = k v h
  Post-exits P Q R (failure, v) k h = k v h
  Post-exits P Q R (crash, v) k h = k v h
