-- ===== src/Lifespan.antt =====
-- src/chattice/dispatcher/lifespan.py: resources that start in order and close in reverse.
use chattice.Base.{
  ◌≡◌, refl, ap, ◌∙◌, Bool, true, false, Option, none, some, List, [], ◌∷◌, ◌++◌, or_else,
}
use chattice.Exceptions.{Raised, exception, other_exception}
use chattice.Effects.{Try, returned, raised, Action}
use chattice.Dispatcher.Filters.{untagged}
use chattice.Dispatcher.Middleware.{reversed}
pub mod Cleanup

pub record Resource (W : Type 0) : Type 0 where
  pub start : Action W Unit
  pub close : Action W Unit

-- A `Lifespan`, and the world that its resources act on.
pub record Lifespan (W : Type 0) : Type 0 where
  pub started : List (Resource W)
  pub closed : Bool
  pub world : W

-- `close_errors.append(...)` of an `except` clause.
unfoldable pub append_error : Try Unit → List Raised → List Raised
append_error (returned u) errors = errors
append_error (raised r) errors = errors ++ r ∷ []

-- A clean exit surfaces the first error.
unfoldable pub surfaced : List Raised → (clean : Bool) → Try Unit
surfaced [] clean = returned tt
surfaced (r ∷ errors) true = raised r
surfaced (r ∷ errors) false = returned tt

module _ {W : Type 0} where
  -- The loop of the rollback: what a `close` raises is passed over.
  unfoldable pub roll_back : List (Resource W) → W → W
  roll_back [] w = w
  roll_back (resource ∷ resources) w = roll_back resources (resource.close w).1

  -- The loop of the shutdown, which collects what the closers raise.
  unfoldable pub close_all : List (Resource W) → List Raised → W → List Raised × W
  close_all [] errors w = (errors, w)
  close_all (resource ∷ resources) errors w =
      let (r, v) = resource.close w in close_all resources (append_error r errors) v

  -- The `except` clause of `__aenter__`.
  unfoldable pub abandon : Raised → Action (Lifespan W) Unit
  abandon r l = (
    raised r,
    record { started = []; closed = l.closed; world = roll_back (reversed l.started) l.world },
  )

  -- The loop of `__aenter__`: after one resource's start, the `rest`.
  unfoldable pub after_start :
      Resource W → Action (Lifespan W) Unit → Try Unit → Action (Lifespan W) Unit
  after_start resource rest (returned u) l =
      rest (record l { started = l.started ++ resource ∷ [] })
  after_start resource rest (raised r) l = abandon r l

  unfoldable pub start_all : List (Resource W) → Action (Lifespan W) Unit
  start_all [] l = (returned tt, l)
  start_all (resource ∷ resources) l =
      let (r, w) = resource.start l.world in
      after_start resource (start_all resources) r (record l { world = w })

  unfoldable pub enter_unless : List (Resource W) → Bool → Action (Lifespan W) Unit
  enter_unless resources true l = (raised (untagged (other_exception "RuntimeError")), l)
  enter_unless resources false l = start_all resources l

  -- `__aenter__`
  unfoldable pub enter : List (Resource W) → Action (Lifespan W) Unit
  enter resources l = enter_unless resources l.closed l

  -- `__aexit__`; the exit is clean when no exception is on its way.
  unfoldable pub exit : (clean : Bool) → Action (Lifespan W) Unit
  exit clean l =
      let (errors, w) = close_all (reversed l.started) [] l.world in
      (surfaced errors clean, record { started = []; closed = true; world = w })
