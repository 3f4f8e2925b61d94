-- ===== src/Tests/Gateways.antt =====
-- Capabilities, lifespans and filter expressions on concrete inputs.
use chattice.Base.{
  ℕ, zero, suc, map, ◌≡◌, refl, String, Bool, true, false, Option, none, some, and_then, List, [],
  ◌∷◌, ◌++◌, not, nat_beq,
}
use chattice.Base.Eq.{string_eq}
use chattice.Base.Int.{pos}
use chattice.Dict
use chattice.Exceptions.{Raised, other_exception}
use chattice.Events.{Event, event, command, slash_command, no_context}
use chattice.Effects.{returned, raised}
use chattice.Dispatcher.Filters.{untagged}
use chattice.Dispatcher.Middleware.{reversed}
use chattice.Capabilities.Operations.{app, normal, messages_create, value}
use chattice.Capabilities.Specs.{specs}
use chattice.Capabilities.Registry.{Registry, ok, register, require}
use chattice.Capabilities.Registry.Verdicts.{Answers, require-Answers}
use chattice.Capabilities.Response.{ResponseCapability, dialogs, resolve, contains}
use chattice.Capabilities.Response.Grants.{granted, resolve-contains}
use chattice.Lifespan.{Resource, Lifespan, roll_back, enter, exit}
use chattice.Lifespan.Cleanup.{
  Starts, Closes, no_more, then_next, enter-failing, exit-closes, unless_dirty, first_error,
}
use chattice.Filters.{
  attr, Comparison, eq, ne, Objects, step, comparison, resolve as resolve_path, evaluate,
}
use chattice.Filters.Missing.{evaluate-missing}

abbrev slash : Event
slash = event no_context (
    command (record {
      command_id = pos 1;
      command_type = none;
      kind = some slash_command;
      source_kind = some "SLASH_COMMAND";
      message_text = none;
      target_message = none;
    }))

resolve-contains_example :
    ((capabilities : List ResponseCapability) × (resolve "http" (some slash) ≡ some capabilities)
      × (contains capabilities dialogs ≡ granted dialogs (some slash)))
    × (resolve "pubsub" (some slash) ≡ some [])
resolve-contains_example = resolve-contains (some slash) dialogs

abbrev table : Registry
table = map (λ s. (value s.operation, s)) specs

-- The table of the source registers, and gives this registry.
registered : register [] specs ≡ ok table
unfolding register Dict.has Dict.get Dict.put
registered = refl

abbrev bot_scope : List String
bot_scope = "https://www.googleapis.com/auth/chat.bot" ∷ []

require-Answers_example :
    Answers table messages_create
      (some app)
      (some bot_scope)
      normal
      (require table messages_create (some app) (some bot_scope) normal)
require-Answers_example = require-Answers table messages_create (some app) (some bot_scope) normal

-- A resource that logs, one whose start fails, and one whose close fails.
abbrev logging : String → Resource (List String)
logging name = record {
  start = λ log. (returned tt, log ++ name ∷ []);
  close = λ log. (returned tt, log ++ name ∷ []);
}

abbrev boom : Raised
boom = untagged (other_exception "OSError")

abbrev unstartable : Resource (List String)
unstartable = record (logging "x") { start = λ log. (raised boom, log) }

abbrev unclosable : Resource (List String)
unclosable = record (logging "y") { close = λ log. (raised boom, log) }

enter-failing_example :
    (u : List String) × Closes (reversed (logging "a" ∷ unclosable ∷ [])) ("a" ∷ "y" ∷ []) u
    × (enter
          ((logging "a" ∷ unclosable ∷ []) ++ unstartable ∷ logging "b" ∷ [])
          (record { started = []; closed = false; world = [] })
        ≡ (raised boom, record { started = []; closed = false; world = u }))
enter-failing_example = enter-failing unstartable (logging "b" ∷ []) boom started refl
  where
    started : Starts (logging "a" ∷ unclosable ∷ []) [] ("a" ∷ "y" ∷ [])
    started = then_next refl (then_next refl no_more)

abbrev running : Lifespan (List String)
running = record { started = logging "a" ∷ unclosable ∷ []; closed = false; world = [] }

exit-closes_example : exit true running ≡ (
  unless_dirty true (first_error (reversed running.started) running.world),
  record {
    started = [];
    closed = true;
    world = roll_back (reversed running.started) running.world;
  },
)
exit-closes_example = exit-closes true running

-- Objects that are numbers; `half` is there on even numbers only, and there are no items.
abbrev half : ℕ → Option ℕ
half zero = some 0
half (suc zero) = none
half (suc (suc n)) = and_then (half n) (λ h. some (suc h))

abbrev numbers : Objects ℕ
numbers = record {
  get_attribute = λ n name. half n;
  get_item = λ n k. none;
  truth = λ n. not (nat_beq n 0);
  compare = compare_numbers;
  call = λ m a b. none;
  identical = nat_beq;
  matches = λ a b. false;
}
  where
    compare_numbers : Comparison → ℕ → ℕ → Option Bool
    compare_numbers eq a b = some (nat_beq a b)
    compare_numbers ne a b = some (not (nat_beq a b))
    compare_numbers _ a b = none

evaluate-missing_example : evaluate numbers (comparison ne (attr "half" ∷ []) 5) 7 ≡ false
unfolding resolve_path step
evaluate-missing_example =
    evaluate-missing numbers (comparison ne (attr "half" ∷ []) 5) (attr "half" ∷ []) 7 refl refl
