-- ===== src/Dispatcher/Middleware.antt =====
-- `invoke_with_middleware` of src/chattice/dispatcher/middleware.py.
use chattice.Base.{◌≡◌, refl, sym, ap, ◌∙◌, Option, List, [], ◌∷◌, ◌++◌}
use chattice.Events.{Event}
use chattice.Effects.{Action}
use chattice.Dispatcher.Scope.{Scope}

-- `NextHandler`; the data is the context at hand.
abbrev pub Next : Type 0 → Type 0 → Type 0 → Type 0
Next W V R = Event → Action (Scope W V) (Option R)

abbrev pub Middleware : Type 0 → Type 0 → Type 0 → Type 0
Middleware W V R = Next W V R → Next W V R

module _ {ℓ} {A : Type ℓ} where
  -- `reversed(items)`
  unfoldable pub reversed : List A → List A
  reversed [] = []
  reversed (x ∷ xs) = reversed xs ++ x ∷ []

module _ {W V R : Type 0} where
  -- The loop: each item becomes the new outermost call around `current`.
  unfoldable pub wrap : Next W V R → List (Middleware W V R) → Next W V R
  wrap current [] = current
  wrap current (item ∷ items) = wrap (item current) items

  unfoldable pub invoke_with_middleware : Next W V R → List (Middleware W V R) → Next W V R
  invoke_with_middleware handler middleware = wrap handler (reversed middleware)

  wrap-append :
      (current : Next W V R) (xs ys : List (Middleware W V R))
      → wrap current (xs ++ ys) ≡ wrap (wrap current xs) ys
  unfolding wrap
  wrap-append current [] ys = refl
  wrap-append current (x ∷ xs) ys = wrap-append (x current) xs ys

  -- The first middleware of the registration order is the outermost call, and what it calls as the
  -- next handler is the handler in the rest of them.
  pub invoke_with_middleware-first :
      (handler : Next W V R) (first : Middleware W V R) (rest : List (Middleware W V R))
      → invoke_with_middleware handler (first ∷ rest) ≡ first (invoke_with_middleware handler rest)
  unfolding invoke_with_middleware wrap reversed
  invoke_with_middleware-first handler first rest = wrap-append handler (reversed rest) (first ∷ [])

  -- The middleware of a router runs inside the middleware that it inherits.
  invoke_with_middleware-append :
      (handler : Next W V R) (outer inner : List (Middleware W V R))
      → invoke_with_middleware handler (outer ++ inner)
        ≡ invoke_with_middleware (invoke_with_middleware handler inner) outer
  unfolding invoke_with_middleware wrap reversed
  invoke_with_middleware-append handler [] inner = refl
  invoke_with_middleware-append handler (m ∷ outer) inner =
      invoke_with_middleware-first handler m (outer ++ inner)
      ∙ ap m (invoke_with_middleware-append handler outer inner)
      ∙ sym (invoke_with_middleware-first (invoke_with_middleware handler inner) m outer)
