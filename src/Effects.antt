-- ===== src/Effects.antt =====
-- Coroutines as actions: they read and change a state, and what they raise is a value.
use chattice.Base.{Option, none, some}
use chattice.Exceptions.{Raised, Failure, exception, cancelled, skip_handler, stop_propagation}

pub data Try (A : Type 0) : Type 0 where
  returned : A → Try A
  raised : Raised → Try A

abbrev pub Action : Type 0 → Type 0 → Type 0
Action S A = S → Try A × S

module _ {S A : Type 0} where
  unfoldable pub pure : A → Action S A
  pure a s = (returned a, s)

  unfoldable pub raise : Raised → Action S A
  raise r s = (raised r, s)

  abbrev pub handle_exception : (Failure → Action S A) → Try A → Action S A
  handle_exception handler (returned a) = λ s. (returned a, s)
  handle_exception handler (raised (exception e)) = handler e
  handle_exception handler (raised skip_handler) = λ s. (raised skip_handler, s)
  handle_exception handler (raised stop_propagation) = λ s. (raised stop_propagation, s)
  handle_exception handler (raised cancelled) = λ s. (raised cancelled, s)

  -- `try: m` / `except Exception as e: handler`
  unfoldable pub try_except : Action S A → (Failure → Action S A) → Action S A
  try_except m handler s = let (r, t) = m s in handle_exception handler r t

  -- `finally`: goes on with what was returned or raised.
  unfoldable pub again : Try A → Action S A
  again r s = (r, s)

module _ {S A B : Type 0} where
  abbrev pub continue : Try A → (A → Action S B) → Action S B
  continue (returned a) f s = f a s
  continue (raised r) f s = (raised r, s)

  infixl 10 ◌>>=◌ ◌>>◌
  unfoldable pub ◌>>=◌ : Action S A → (A → Action S B) → Action S B
  ◌>>=◌ m f s = let (r, t) = m s in continue r f t

  abbrev pub ◌>>◌ : Action S A → Action S B → Action S B
  m >> n = m >>= λ _. n

  -- A `try` whose handlers and whose rest are one function of how the body ended.
  unfoldable pub attempt : Action S A → (Try A → Action S B) → Action S B
  attempt m k s = let (r, t) = m s in k r t

  -- `if x is None: m` / `else: f x`
  abbrev pub unless_none : Option A → Action S B → (A → Action S B) → Action S B
  unless_none none m f = m
  unless_none (some a) m f = f a
