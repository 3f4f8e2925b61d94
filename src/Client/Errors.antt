-- ===== src/Client/Errors.antt =====
-- src/chattice/client/errors.py: the SDK's errors as errors of the framework.
use chattice.Base.{String, Bool, List, [], ◌∷◌, any, ◌||◌, if◌then◌else◌}
use chattice.Base.Eq.{string_eq, ◌==◌}

-- An error of `google.api_core.exceptions`: its class, and its class with all that it derives from.
pub record ApiError : Type 0 where
  pub class : String
  pub bases : List String
  pub message : String

pub data ChatErrorClass : Type 0 where
  chat_api_error not_found already_exists permission_denied invalid_argument : ChatErrorClass
  rate_limit service_unavailable unauthenticated : ChatErrorClass

abbrev pub is_instance : ApiError → List String → Bool
is_instance e classes = any (λ c. any (λ b. b == c) e.bases) classes

-- `_WRAPPERS`
abbrev pub wrappers : List (List String × ChatErrorClass)
wrappers =
    ("NotFound" ∷ [], not_found)
    ∷ ("PermissionDenied" ∷ "Forbidden" ∷ [], permission_denied)
    ∷ ("InvalidArgument" ∷ [], invalid_argument)
    ∷ ("ResourceExhausted" ∷ "TooManyRequests" ∷ [], rate_limit)
    ∷ (
      "ServiceUnavailable" ∷ "InternalServerError" ∷ "BadGateway" ∷ "GatewayTimeout" ∷ [],
      service_unavailable,
    )
    ∷ ("Unauthenticated" ∷ "Unauthorized" ∷ [], unauthenticated)
    ∷ []

unfoldable pub first_wrapper : ApiError → List (List String × ChatErrorClass) → ChatErrorClass
first_wrapper e [] = chat_api_error
first_wrapper e ((classes, wrapper) ∷ rest) =
    if is_instance e classes then wrapper else first_wrapper e rest

unfoldable pub wrap_api_error : ApiError → ChatErrorClass
unfolding first_wrapper
wrap_api_error e =
    if e.class == "AlreadyExists" || e.class == "Conflict"
    then already_exists
    else first_wrapper e wrappers
