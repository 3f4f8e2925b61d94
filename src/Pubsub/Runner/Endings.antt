-- ===== src/Pubsub/Runner/Endings.antt =====
-- Actions that end without a raise, one after another, and what they settle.
use chattice.Base.{
  ◌≡◌, refl, ap, ◌∙◌, Bool, true, false, Option, none, some, [], ◌∷◌, ◌++◌, if◌then◌else◌,
}
use chattice.Exceptions.{Raised, exception, cancelled, skip_handler, stop_propagation}
use chattice.Effects.{Try, returned, raised, Action, pure, try_except, unless_none, ◌>>=◌, ◌>>◌}
use chattice.Pubsub.Effects.{Settlement, Run, settle, IsSilent, IsCalm, Ordinary}

module _ {W A B : Type 0} where
  pub bind-returned :
      (m : Action (Run W) A) (f : A → Action (Run W) B) (s : Run W) (a : A)
      → (m s).0 ≡ returned a
      → (m >>= f) s ≡ f a (m s).1
  unfolding ◌>>=◌
  bind-returned m f s a e = rw (◌>>=◌, e) refl

  pub bind-raised :
      (m : Action (Run W) A) (f : A → Action (Run W) B) (s : Run W) (r : Raised)
      → (m s).0 ≡ raised r
      → (m >>= f) s ≡ (raised r, (m s).1)
  unfolding ◌>>=◌
  bind-raised m f s r e = rw (◌>>=◌, e) refl

module _ {W A : Type 0} where
  pub settle-silent :
      (x : Settlement) (m : Action (Run W) A) (s : Run W)
      → IsSilent m
      → ((settle x >> m) s).1.settled ≡ s.settled ++ x ∷ []
  unfolding ◌>>=◌ settle
  settle-silent x m s h = h.at (record s { settled = s.settled ++ x ∷ [] })

module _ {W : Type 0} where
  -- What is caught and passed over returns.
  pub swallow :
      (m : Action (Run W) Unit) (s : Run W)
      → IsCalm m
      → (try_except m (λ _. pure tt) s).0 ≡ returned tt
  unfolding try_except pure
  swallow m s h = by_end (m s).0 (m s).1 (h.at s)
    where
      by_end :
          (r : Try Unit) (t : Run W)
          → Ordinary r
          → (try_except (λ _. (r, t)) (λ _. pure tt) s).0 ≡ returned tt
      by_end (returned a) t c = refl
      by_end (raised (exception f)) t c = refl
      by_end (raised skip_handler) t c = absurd c
      by_end (raised stop_propagation) t c = absurd c
      by_end (raised cancelled) t c = absurd c

-- `m` ends in no raise.
pub record Ends {W : Type 0} (m : Action (Run W) Unit) : Type 0 where
  at : (s : Run W) → (m s).0 ≡ returned tt

module _ {W : Type 0} where
  pub pure-Ends : Ends {W = W} (pure tt)
  unfolding pure
  pure-Ends = record { at = λ s. refl }

  pub swallow-Ends : (m : Action (Run W) Unit) → IsCalm m → Ends (try_except m (λ _. pure tt))
  swallow-Ends m h = record { at = λ s. swallow m s h }

  pub if-Ends : (b : Bool) (m n : Action (Run W) Unit) → Ends m → Ends n → Ends (if b then m else n)
  if-Ends true m n h k = h
  if-Ends false m n h k = k

  pub unless_none-Ends :
      {A : Type 0} (o : Option A) (m : Action (Run W) Unit) (f : A → Action (Run W) Unit)
      → Ends m
      → ((a : A) → Ends (f a))
      → Ends (unless_none o m f)
  unless_none-Ends none m f h k = h
  unless_none-Ends (some a) m f h k = k a

  pub ruleset ends_rules = (pure-Ends, swallow-Ends, if-Ends, unless_none-Ends)

  -- One settlement after actions that settle nothing.
  pub then_settle :
      (m : Action (Run W) Unit) (x : Settlement) (s : Run W)
      → IsSilent m
      → Ends m
      → (m >> settle x) s ≡ (returned tt, record (m s).1 { settled = s.settled ++ x ∷ [] })
  unfolding settle
  then_settle m x s h k =
      bind-returned m (λ _. settle x) s tt (k.at s)
      ∙ ap (λ l. (returned tt, record (m s).1 { settled = l ++ x ∷ [] })) (h.at s)
