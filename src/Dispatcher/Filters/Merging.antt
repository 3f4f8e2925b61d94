-- ===== src/Dispatcher/Filters/Merging.antt =====
-- What the filters leave in the context.
use chattice.Base.{
  String, ◌≡◌, Bool, true, false, Option, none, some, List, [], ◌∷◌, arith, Bool-cases, All, inl,
  inr,
}
use chattice.Base.Eq.{string_eq}
use chattice.Dict.{Dict, put, get, has, get-put}
use chattice.Events.{Event}
use chattice.Effects.{Try, returned, raised, Action, pure, raise, ◌>>=◌, continue}
use chattice.Dispatcher.Scope.{Scope}
use chattice.Dispatcher.Filters.{
  FilterValue, verdict, mapping, other_value, Filter, merge, after_filter, evaluate_filters,
}

module _ {V : Type 0} where
  -- Every key of `d` has the same value in `d'`.
  abbrev pub Extends : Dict String V → Dict String V → Type 0
  Extends d d' = (k : String) (v : V) → get d k ≡ some v → get d' k ≡ some v

  put-Extends :
      (d : Dict String V) (key : String) (value : V)
      → has d key ≡ false
      → Extends d (put d key value)
  unfolding has
  put-Extends d key value fresh k v h =
      ground (arith, get-put d key k value, string_eq.beq_iff key k)

module _ {W V : Type 0} where
  -- `m` redefines and removes no key of the context.
  pub record IsExtending {A : Type 0} (m : Action (Scope W V) A) : Type 0 where
    pub at : (s : Scope W V) → Extends s.context (m s).1.context

  merge-at :
      (items : List (Option String × V)) (s : Scope W V)
      → Extends s.context (merge items s).1.context
  unfolding merge
  merge-at [] s k v h = h
  merge-at ((none, value) ∷ items) s k v h = h
  merge-at ((some key, value) ∷ items) s k v h = elim (Bool-cases (has s.context key)) [
    | inl e ↦ rw (merge, e) h
    | inr e ↦
        rw (merge, e)
          (merge-at items (record s { context = put s.context key value }) k v
            (put-Extends s.context key value e k v h))
  ]

  continue-at :
      {A B : Type 0} (r : Try A) (f : A → Action (Scope W V) B) (s : Scope W V)
      → ((a : A) → IsExtending (f a))
      → Extends s.context (continue r f s).1.context
  continue-at (returned a) f s l = (l a).at s
  continue-at (raised e) f s l = λ k v h. h

  bind-IsExtending :
      {A B : Type 0} (m : Action (Scope W V) A) (f : A → Action (Scope W V) B)
      → IsExtending m
      → ((a : A) → IsExtending (f a))
      → IsExtending (m >>= f)
  unfolding ◌>>=◌
  bind-IsExtending m f h l = record {
    at = λ s k v g. continue-at (m s).0 f (m s).1 l k v (h.at s k v g);
  }

  pure-IsExtending : {A : Type 0} (a : A) → IsExtending {A = A} (pure a)
  unfolding pure
  pure-IsExtending a = record { at = λ s k v h. h }

  after_filter-IsExtending :
      (rest : Action (Scope W V) Bool) (value : FilterValue V)
      → IsExtending rest
      → IsExtending (after_filter rest value)
  unfolding after_filter raise
  after_filter-IsExtending rest (verdict true) h = h
  after_filter-IsExtending rest (verdict false) h = pure-IsExtending false
  after_filter-IsExtending rest (mapping items) h =
      bind-IsExtending (merge items) (λ _. rest) (record { at = merge-at items }) (λ _. h)
  after_filter-IsExtending rest other_value h = record { at = λ s k v g. g }

  -- If none of the filters itself redefines or removes a key of the context, neither does their evaluation,
  -- whatever they answer and whether it returns or raises: a key that the context has keeps its value.
  pub evaluate_filters-IsExtending :
      (filters : List (Filter W V)) (e : Event)
      → All (λ f. IsExtending (f e)) filters
      → IsExtending (evaluate_filters filters e)
  unfolding evaluate_filters
  evaluate_filters-IsExtending [] e h = pure-IsExtending true
  evaluate_filters-IsExtending (filter_ ∷ filters) e (h, hs) =
      bind-IsExtending (filter_ e) (after_filter (evaluate_filters filters e)) h (λ value.
        after_filter-IsExtending (evaluate_filters filters e) value
          (evaluate_filters-IsExtending filters e hs))
