-- ===== src/Dispatcher/Scope.antt =====
-- The state that the parts of a dispatch share: the context dictionary at hand, and the world outside.
use chattice.Base.{String, Option, none, some, if◌then◌else◌}
use chattice.Dict.{Dict}
use chattice.Exceptions.{Failure, Stage}
use chattice.Effects.{Try, returned, raised, Action}

pub record Scope (W V : Type 0) : Type 0 where
  pub context : Dict String V
  pub world : W

module _ {W V A : Type 0} where
  -- A part that runs on a copy of `context`; what the copy has become is answered with its value.
  abbrev pub paired : Try A × Scope W V → Try (A × Dict String V) × W
  paired (returned a, s) = (returned (a, s.context), s.world)
  paired (raised r, s) = (raised r, s.world)

  unfoldable pub on_copy : Dict String V → Action (Scope W V) A → Action W (A × Dict String V)
  on_copy context m w = paired (m (record { context = context; world = w }))

  -- A part that reads the context at hand and leaves it.
  unfoldable pub reading : (Dict String V → Action W A) → Action (Scope W V) A
  reading f s = let (r, w) = f s.context s.world in (r, record s { world = w })

-- `_attach_failure_context`: an exception that refuses an attribute stays without it.
abbrev pub set_stage : Stage → Failure → Failure
set_stage stage f = if f.takes_stage then record f { stage = some stage } else f

abbrev pub set_handler : String → Failure → Failure
set_handler handler f = if f.takes_handler then record f { handler = some handler } else f

unfoldable pub attach_failure_context : Stage → Option String → Failure → Failure
attach_failure_context stage none f = set_stage stage f
attach_failure_context stage (some handler) f = set_handler handler (set_stage stage f)
