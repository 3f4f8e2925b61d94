-- ===== src/Capabilities/Registry.antt =====
-- `OperationRegistry` of src/chattice/capabilities/registry.py.
use chattice.Base.{
  String, ◌≡◌, refl, ap, sym, ◌∙◌, Bool, true, false, Option, none, some, List, [], ◌∷◌, str_eq,
  any, ◌&&◌, if◌then◌else◌, is_some, keep,
}
use chattice.Base.Eq.{string_eq}
use chattice.Dict.{Dict, get, put, has}
use chattice.Capabilities.Operations.{
  AuthMode, app, user, no_auth, ExecutionVariant, normal, admin, import_variant, Operation, value,
  AuthPath, OperationSpec,
}
pub mod Preflight
pub mod Verdicts

-- What the registry raises.
pub data RegistryError : Type 0 where
  duplicate_spec unknown_operation capability_not_supported : Operation → RegistryError

pub data Checked (A : Type 0) : Type 0 where
  ok : A → Checked A
  failed : RegistryError → Checked A

-- `_specs`, by the value of the operation.
abbrev pub Registry : Type 0
Registry = Dict String OperationSpec

abbrev pub same_mode : AuthMode → AuthMode → Bool
same_mode app app = true
same_mode user user = true
same_mode no_auth no_auth = true
same_mode _ _ = false

abbrev pub same_variant : ExecutionVariant → ExecutionVariant → Bool
same_variant normal normal = true
same_variant admin admin = true
same_variant import_variant import_variant = true
same_variant _ _ = false

-- `path.identity is identity`
abbrev pub is_identity : AuthMode → Option AuthMode → Bool
is_identity mode none = false
is_identity mode (some identity) = same_mode mode identity

-- The loop of `__init__`.
unfoldable pub register : Registry → List OperationSpec → Checked Registry
register registry [] = ok registry
register registry (spec ∷ specs) =
    let rest = register (put registry (value spec.operation) spec) specs in
    if has registry (value spec.operation) then failed (duplicate_spec spec.operation) else rest

-- `spec`
unfoldable pub found : Operation → Option OperationSpec → Checked OperationSpec
found operation none = failed (unknown_operation operation)
found operation (some spec) = ok spec

unfoldable pub spec : Registry → Operation → Checked OperationSpec
spec registry operation = found operation (get registry (value operation))

abbrev pub admits : Option AuthMode → ExecutionVariant → AuthPath → Bool
admits identity variant path =
    is_identity path.identity identity && same_variant path.variant variant

-- `path.any_scope & known`
abbrev pub meets : List String → AuthPath → Bool
meets known path = any (λ scope. any (str_eq scope) known) path.any_scope

-- `preflight` on the paths that the identity and the variant select.
abbrev pub scoped : List AuthPath → Option (List String) → Bool
scoped [] scopes = false
scoped (path ∷ paths) none = true
scoped (path ∷ paths) (some known) = any (meets known) (path ∷ paths)

abbrev pub allowed :
    Option AuthMode → Option (List String) → ExecutionVariant → OperationSpec → Bool
allowed identity scopes variant spec =
    scoped (keep (admits identity variant) spec.auth_paths) scopes

abbrev pub checked_map : {A B : Type 0} → (A → B) → Checked A → Checked B
checked_map f (ok a) = ok (f a)
checked_map f (failed error) = failed error

unfoldable pub preflight :
    Registry → Operation → Option AuthMode → Option (List String) → ExecutionVariant → Checked Bool
preflight registry operation identity scopes variant =
    checked_map (allowed identity scopes variant) (spec registry operation)

-- `require`
unfoldable pub required : Operation → Checked Bool → Checked Unit
required operation (ok true) = ok tt
required operation (ok false) = failed (capability_not_supported operation)
required operation (failed error) = failed error

unfoldable pub require :
    Registry → Operation → Option AuthMode → Option (List String) → ExecutionVariant → Checked Unit
require registry operation identity scopes variant =
    required operation (preflight registry operation identity scopes variant)
