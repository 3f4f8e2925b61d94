-- ===== src/Filters/Missing.antt =====
-- Paths that do not resolve.
use chattice.Base.{
  ◌≡◌, refl, ap, sym, ◌∙◌, Bool, false, Option, none, some, and_then, [], ◌∷◌, ◌++◌, ◌&&◌, not,
  is_some, or_else, arith,
}
use chattice.Filters.{
  eq, ne, Objects, Field, Expression, field, comparison, method, is_, exists, regexp, and_, or_,
  not_, step, resolve, when_present, evaluate,
}

module _ {O : Type 0} (objects : Objects O) where
  chained :
      (o : Option O) (f g h : O → Option O)
      → ((a : O) → f a ≡ and_then (g a) h)
      → and_then o f ≡ and_then (and_then o g) h
  chained none f g h k = refl
  chained (some a) f g h k = k a

  -- A longer path resolves by resolving the rest of it from what its beginning resolves to.
  resolve-append :
      (path more : Field O) (e : O)
      → resolve objects (path ++ more) e ≡ and_then (resolve objects path e) (resolve objects more)
  unfolding resolve
  resolve-append [] more e = refl
  resolve-append (s ∷ path) more e =
      chained (step objects e s) (resolve objects (path ++ more)) (resolve objects path)
        (resolve objects more) (λ a. resolve-append path more a)

  -- An expression that tests one field.
  abbrev pub tested : Expression O → Option (Field O)
  tested (field path) = some path
  tested (comparison operation path expected) = some path
  tested (method operation path expected) = some path
  tested (is_ path expected) = some path
  tested (exists path) = some path
  tested (regexp path pattern) = some path
  tested _ = none

  moved :
      (p path : Field O) (e : O)
      → some p ≡ some path
      → resolve objects path e ≡ none
      → resolve objects p e ≡ none
  moved p path e h k = ap (λ q. resolve objects (or_else q path) e) h ∙ k

  absent : (o : Option O) (test : O → Bool) → o ≡ none → when_present o test ≡ false
  absent none test h = refl
  absent (some a) test h = ground (arith, h)

  -- An expression that tests a field is false wherever the field's path does not resolve, an
  -- inequality like an equality.
  pub evaluate-missing :
      (x : Expression O) (path : Field O) (e : O)
      → tested x ≡ some path
      → resolve objects path e ≡ none
      → evaluate objects x e ≡ false
  unfolding evaluate
  evaluate-missing (field p) path e h k = absent (resolve objects p e) _ (moved p path e h k)
  evaluate-missing (comparison o p v) path e h k =
      absent (resolve objects p e) _ (moved p path e h k)
  evaluate-missing (method o p v) path e h k = absent (resolve objects p e) _ (moved p path e h k)
  evaluate-missing (is_ p v) path e h k = absent (resolve objects p e) _ (moved p path e h k)
  evaluate-missing (exists p) path e h k = rw (moved p path e h k) refl
  evaluate-missing (regexp p v) path e h k = absent (resolve objects p e) _ (moved p path e h k)
  evaluate-missing (and_ l r) path e h k = ground (arith, h)
  evaluate-missing (or_ l r) path e h k = ground (arith, h)
  evaluate-missing (not_ x) path e h k = ground (arith, h)

  ne-at :
      (o : Option O) (v : O)
      → ((a b : O)
          → (t : Bool) × (objects.compare eq a b ≡ some t)
            × (objects.compare ne a b ≡ some (not t)))
      → when_present o (λ a. or_else (objects.compare ne a v) false)
        ≡ (is_some o && not (when_present o (λ a. or_else (objects.compare eq a v) false)))
  ne-at none v h = refl
  ne-at (some a) v h =
      let (t, i, j) = h a v in ap (λ x. or_else x false) j ∙ ap (λ x. not (or_else x false)) (sym i)

  -- Where objects compare by `==` without raising and `!=` is its negation, an inequality matches exactly
  -- when the field resolves and the equality does not match. So it is not the negation of the
  -- equality.
  evaluate-ne :
      (path : Field O) (v e : O)
      → ((a b : O)
          → (t : Bool) × (objects.compare eq a b ≡ some t)
            × (objects.compare ne a b ≡ some (not t)))
      → evaluate objects (comparison ne path v) e
        ≡ evaluate objects (and_ (exists path) (not_ (comparison eq path v))) e
  unfolding evaluate
  evaluate-ne path v e h = ne-at (resolve objects path e) v h
