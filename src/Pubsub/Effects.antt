-- ===== src/Pubsub/Effects.antt =====
-- The actions of the Pub/Sub runner: on the world outside the runner, and on the settlements of the
-- delivery (`message.ack()` and `message.nack()`).
use chattice.Base.{
  ◌≡◌, refl, ◌∙◌, Bool, true, false, Option, none, some, List, [], ◌∷◌, ◌++◌, if◌then◌else◌,
}
use chattice.Exceptions.{Raised, Failure, exception, cancelled, skip_handler, stop_propagation}
use chattice.Effects.{
  Try, returned, raised, Action, pure, raise, handle_exception, try_except, again, continue, ◌>>=◌,
  attempt, unless_none,
}

pub data Settlement : Type 0 where
  acked nacked : Settlement

-- What one delivery has done so far: oldest settlement first.
pub record Run (W : Type 0) : Type 0 where
  pub world : W
  pub settled : List Settlement

module _ {W A : Type 0} where
  -- A call of something outside the runner.
  unfoldable pub outside : (W → Try A × W) → Action (Run W) A
  outside f s = let (r, w) = f s.world in (r, record s { world = w })

unfoldable pub settle : {W : Type 0} → Settlement → Action (Run W) Unit
settle x s = (returned tt, record s { settled = s.settled ++ x ∷ [] })

-- `m` settles nothing.
pub record IsSilent {W A : Type 0} (m : Action (Run W) A) : Type 0 where
  pub at : (s : Run W) → (m s).1.settled ≡ s.settled

module _ {W A : Type 0} where
  pub pure-IsSilent : (a : A) → IsSilent {W = W} (pure a)
  unfolding pure
  pure-IsSilent a = record { at = λ s. refl }

  pub raise-IsSilent : (r : Raised) → IsSilent {W = W} {A = A} (raise r)
  unfolding raise
  raise-IsSilent r = record { at = λ s. refl }

  pub outside-IsSilent : (f : W → Try A × W) → IsSilent (outside f)
  unfolding outside
  outside-IsSilent f = record { at = λ s. refl }

  handle_exception-settled :
      (h : Failure → Action (Run W) A) (r : Try A) (s : Run W)
      → ((e : Failure) → IsSilent (h e))
      → (handle_exception h r s).1.settled ≡ s.settled
  handle_exception-settled h (returned a) s k = refl
  handle_exception-settled h (raised (exception e)) s k = (k e).at s
  handle_exception-settled h (raised skip_handler) s k = refl
  handle_exception-settled h (raised stop_propagation) s k = refl
  handle_exception-settled h (raised cancelled) s k = refl

  pub try_except-IsSilent :
      (m : Action (Run W) A) (h : Failure → Action (Run W) A)
      → IsSilent m
      → ((e : Failure) → IsSilent (h e))
      → IsSilent (try_except m h)
  unfolding try_except
  try_except-IsSilent m h k l = record {
    at = λ s. handle_exception-settled h (m s).0 (m s).1 l ∙ k.at s;
  }

  pub if-IsSilent :
      (b : Bool) (m n : Action (Run W) A) → IsSilent m → IsSilent n → IsSilent (if b then m else n)
  if-IsSilent true m n k l = k
  if-IsSilent false m n k l = l

module _ {W A B : Type 0} where
  continue-settled :
      (r : Try A) (f : A → Action (Run W) B) (s : Run W)
      → ((a : A) → IsSilent (f a))
      → (continue r f s).1.settled ≡ s.settled
  continue-settled (returned a) f s k = (k a).at s
  continue-settled (raised r) f s k = refl

  pub bind-IsSilent :
      (m : Action (Run W) A) (f : A → Action (Run W) B)
      → IsSilent m
      → ((a : A) → IsSilent (f a))
      → IsSilent (m >>= f)
  unfolding ◌>>=◌
  bind-IsSilent m f k l = record { at = λ s. continue-settled (m s).0 f (m s).1 l ∙ k.at s }

  pub attempt-IsSilent :
      (m : Action (Run W) A) (k : Try A → Action (Run W) B)
      → IsSilent m
      → ((r : Try A) → IsSilent (k r))
      → IsSilent (attempt m k)
  unfolding attempt
  attempt-IsSilent m k h l = record { at = λ s. (l (m s).0).at (m s).1 ∙ h.at s }

  pub unless_none-IsSilent :
      (o : Option A) (m : Action (Run W) B) (f : A → Action (Run W) B)
      → IsSilent m
      → ((a : A) → IsSilent (f a))
      → IsSilent (unless_none o m f)
  unless_none-IsSilent none m f h l = h
  unless_none-IsSilent (some a) m f h l = l a

module _ {W A : Type 0} where
  pub again-IsSilent : (r : Try A) → IsSilent {W = W} (again r)
  unfolding again
  again-IsSilent r = record { at = λ s. refl }

pub ruleset silent_rules = (
  pure-IsSilent, raise-IsSilent, outside-IsSilent, try_except-IsSilent, if-IsSilent, bind-IsSilent,
  attempt-IsSilent, again-IsSilent, unless_none-IsSilent,
)

-- A call ended in a value or in an `Exception`: the task was not cancelled.
abbrev pub Ordinary : {A : Type 0} → Try A → Type 0
Ordinary (returned a) = Unit
Ordinary (raised (exception f)) = Unit
Ordinary (raised skip_handler) = ⊥
Ordinary (raised stop_propagation) = ⊥
Ordinary (raised cancelled) = ⊥

pub record IsCalm {W A : Type 0} (m : Action (Run W) A) : Type 0 where
  pub at : (s : Run W) → Ordinary (m s).0

module _ {W A : Type 0} where
  pub pure-IsCalm : (a : A) → IsCalm {W = W} (pure a)
  unfolding pure
  pure-IsCalm a = record { at = λ s. tt }

  pub raise-IsCalm : (f : Failure) → IsCalm {W = W} {A = A} (raise (exception f))
  unfolding raise
  raise-IsCalm f = record { at = λ s. tt }

  pub outside-IsCalm : (f : W → Try A × W) → ((w : W) → Ordinary (f w).0) → IsCalm (outside f)
  unfolding outside
  outside-IsCalm f h = record { at = λ s. h s.world }

  handle_exception-Ordinary :
      (h : Failure → Action (Run W) A) (r : Try A) (s : Run W)
      → Ordinary r
      → ((e : Failure) → IsCalm (h e))
      → Ordinary (handle_exception h r s).0
  handle_exception-Ordinary h (returned a) s c k = tt
  handle_exception-Ordinary h (raised (exception e)) s c k = (k e).at s
  handle_exception-Ordinary h (raised skip_handler) s c k = absurd c
  handle_exception-Ordinary h (raised stop_propagation) s c k = absurd c
  handle_exception-Ordinary h (raised cancelled) s c k = absurd c

  pub try_except-IsCalm :
      (m : Action (Run W) A) (h : Failure → Action (Run W) A)
      → IsCalm m
      → ((e : Failure) → IsCalm (h e))
      → IsCalm (try_except m h)
  unfolding try_except
  try_except-IsCalm m h k l = record {
    at = λ s. handle_exception-Ordinary h (m s).0 (m s).1 (k.at s) l;
  }

  pub if-IsCalm :
      (b : Bool) (m n : Action (Run W) A) → IsCalm m → IsCalm n → IsCalm (if b then m else n)
  if-IsCalm true m n k l = k
  if-IsCalm false m n k l = l

module _ {W A B : Type 0} where
  continue-Ordinary :
      (r : Try A) (f : A → Action (Run W) B) (s : Run W)
      → Ordinary r
      → ((a : A) → IsCalm (f a))
      → Ordinary (continue r f s).0
  continue-Ordinary (returned a) f s c k = (k a).at s
  continue-Ordinary (raised (exception e)) f s c k = tt
  continue-Ordinary (raised skip_handler) f s c k = absurd c
  continue-Ordinary (raised stop_propagation) f s c k = absurd c
  continue-Ordinary (raised cancelled) f s c k = absurd c

  pub bind-IsCalm :
      (m : Action (Run W) A) (f : A → Action (Run W) B)
      → IsCalm m
      → ((a : A) → IsCalm (f a))
      → IsCalm (m >>= f)
  unfolding ◌>>=◌
  bind-IsCalm m f k l = record { at = λ s. continue-Ordinary (m s).0 f (m s).1 (k.at s) l }

  pub unless_none-IsCalm :
      (o : Option A) (m : Action (Run W) B) (f : A → Action (Run W) B)
      → IsCalm m
      → ((a : A) → IsCalm (f a))
      → IsCalm (unless_none o m f)
  unless_none-IsCalm none m f h l = h
  unless_none-IsCalm (some a) m f h l = l a

  pub attempt-IsCalm :
      (m : Action (Run W) A) (k : Try A → Action (Run W) B)
      → IsCalm m
      → ((r : Try A) → Ordinary r → IsCalm (k r))
      → IsCalm (attempt m k)
  unfolding attempt
  attempt-IsCalm m k h l = record { at = λ s. (l (m s).0 (h.at s)).at (m s).1 }

module _ {W A : Type 0} where
  pub again-IsCalm : (r : Try A) → Ordinary r → IsCalm {W = W} (again r)
  unfolding again
  again-IsCalm r c = record { at = λ s. c }

pub note-IsCalm : {W : Type 0} (f : W → W) → IsCalm (outside (λ (w : W). (returned tt, f w)))
unfolding outside
note-IsCalm f = record { at = λ s. tt }

pub ruleset calm_rules = (
  pure-IsCalm, raise-IsCalm, note-IsCalm, try_except-IsCalm, if-IsCalm, bind-IsCalm,
  unless_none-IsCalm, attempt-IsCalm, again-IsCalm,
)
