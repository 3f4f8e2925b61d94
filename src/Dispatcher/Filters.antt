-- ===== src/Dispatcher/Filters.antt =====
-- src/chattice/filters/base.py: the filters of an observer and of a handler.
pub mod Merging
use chattice.Base.{String, Bool, true, false, Option, none, some, List, [], ◌∷◌, if◌then◌else◌}
use chattice.Base.Eq.{string_eq}
use chattice.Dict.{Dict, put, has}
use chattice.Exceptions.{Raised, exception, ExceptionClass, filter_error, context_conflict_error}
use chattice.Events.{Event}
use chattice.Effects.{Try, returned, raised, Action, pure, raise, ◌>>=◌, ◌>>◌}
use chattice.Dispatcher.Scope.{Scope}

-- What a filter answers: a Boolean, a mapping to merge, in which a key may be something else than a
-- text, or anything else.
pub data FilterValue (V : Type 0) : Type 0 where
  verdict : Bool → FilterValue V
  mapping : List (Option String × V) → FilterValue V
  other_value : FilterValue V

abbrev pub Filter : Type 0 → Type 0 → Type 0
Filter W V = Event → Action (Scope W V) (FilterValue V)

abbrev pub untagged : ExceptionClass → Raised
untagged c =
    exception
      (record { class = c; takes_stage = true; takes_handler = true; stage = none; handler = none })

module _ {W V : Type 0} where
  -- The loop over `result.items()`: a key of the context is never redefined.
  unfoldable pub merge : List (Option String × V) → Action (Scope W V) Unit
  merge [] s = (returned tt, s)
  merge ((none, value) ∷ items) s = (raised (untagged filter_error), s)
  merge ((some key, value) ∷ items) s =
      let rest = merge items (record s { context = put s.context key value }) in
      if has s.context key then (raised (untagged context_conflict_error), s) else rest

  -- One filter's answer, before the `rest` of the filters.
  unfoldable pub after_filter : Action (Scope W V) Bool → FilterValue V → Action (Scope W V) Bool
  after_filter rest (verdict false) = pure false
  after_filter rest (verdict true) = rest
  after_filter rest (mapping items) = merge items >> rest
  after_filter rest other_value = raise (untagged filter_error)

  -- `evaluate_filters`
  unfoldable pub evaluate_filters : List (Filter W V) → Event → Action (Scope W V) Bool
  evaluate_filters [] e = pure true
  evaluate_filters (filter_ ∷ filters) e = filter_ e >>= after_filter (evaluate_filters filters e)
