-- ===== src/Exceptions.antt =====
-- src/chattice/exceptions/__init__.py, and the tags that the dispatcher puts on an exception in flight.
use chattice.Base.{String, Bool, Option}

-- The framework's own failures, and any other subclass of `Exception` by its name.
pub data ExceptionClass : Type 0 where
  dependency_resolution_error invalid_handler_error unhandled_interaction_error : ExceptionClass
  filter_error context_conflict_error capability_not_supported fsm_error : ExceptionClass
  other_exception : String → ExceptionClass

-- The stages of `_attach_failure_context`.
pub data Stage : Type 0 where
  filter_stage dependency_resolution handler_stage middleware_stage : Stage

pub record Failure : Type 0 where
  pub class : ExceptionClass
  -- Whether the object takes the two attributes that tag it; an exotic one does not.
  pub takes_stage : Bool
  pub takes_handler : Bool
  pub stage : Option Stage
  pub handler : Option String

-- What can be raised: an `Exception`, one of the two routing controls, or another `BaseException`
-- such as `CancelledError`.
pub data Raised : Type 0 where
  exception : Failure → Raised
  skip_handler stop_propagation cancelled : Raised
