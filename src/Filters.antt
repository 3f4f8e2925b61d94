-- ===== src/Filters.antt =====
-- src/chattice/filters/magic.py: the expressions of the filtering DSL. What Python's objects do with an
-- attribute, an item, a comparison or a method is an `Objects`.
use chattice.Base.{
  String, Bool, true, false, Option, none, some, and_then, List, [], ◌∷◌, ◌++◌, ◌&&◌, ◌||◌, not,
  is_some, or_else,
}
pub mod Missing

-- `PathStep`
pub data PathStep (O : Type 0) : Type 0 where
  attr : String → PathStep O
  item : O → PathStep O

pub data Comparison : Type 0 where
  eq ne lt le gt ge : Comparison

-- The operations that may raise a `TypeError` or an `AttributeError`.
pub data Method : Type 0 where
  contains starts_with ends_with in_ : Method

-- No value is an exception that the code catches.
pub record Objects (O : Type 0) : Type 0 where
  pub get_attribute : O → String → Option O
  pub get_item : O → O → Option O
  pub truth : O → Bool
  pub compare : Comparison → O → O → Option Bool
  pub call : Method → O → O → Option Bool
  pub identical : O → O → Bool
  pub matches : (pattern value : O) → Bool

-- A field's path, and the expressions over fields.
abbrev pub Field : Type 0 → Type 0
Field O = List (PathStep O)

pub data Expression (O : Type 0) : Type 0 where
  field : Field O → Expression O
  comparison : Comparison → Field O → O → Expression O
  method : Method → Field O → O → Expression O
  is_ : Field O → O → Expression O
  exists : Field O → Expression O
  regexp : Field O → O → Expression O
  and_ or_ : Expression O → Expression O → Expression O
  not_ : Expression O → Expression O

-- A test of a value that resolved; a caught exception is no match.
abbrev pub when_present : {O : Type 0} → Option O → (O → Bool) → Bool
when_present none test = false
when_present (some actual) test = test actual

module _ {O : Type 0} (objects : Objects O) where
  unfoldable pub step : O → PathStep O → Option O
  step current (attr name) = objects.get_attribute current name
  step current (item key) = objects.get_item current key

  -- `resolve`; no value is `MISSING`.
  unfoldable pub resolve : Field O → O → Option O
  resolve [] current = some current
  resolve (s ∷ path) current = and_then (step current s) (resolve path)

  -- `evaluate`
  unfoldable pub evaluate : Expression O → O → Bool
  evaluate (field path) e = when_present (resolve path e) objects.truth
  evaluate (comparison operation path expected) e =
      when_present (resolve path e)
        (λ actual. or_else (objects.compare operation actual expected) false)
  evaluate (method operation path expected) e =
      when_present (resolve path e)
        (λ actual. or_else (objects.call operation actual expected) false)
  evaluate (is_ path expected) e =
      when_present (resolve path e) (λ actual. objects.identical actual expected)
  evaluate (exists path) e = is_some (resolve path e)
  evaluate (regexp path pattern) e =
      when_present (resolve path e) (λ actual. objects.matches pattern actual)
  evaluate (and_ left right) e = evaluate left e && evaluate right e
  evaluate (or_ left right) e = evaluate left e || evaluate right e
  evaluate (not_ expression) e = not (evaluate expression e)
