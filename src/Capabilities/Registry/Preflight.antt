-- ===== src/Capabilities/Registry/Preflight.antt =====
-- What the preflight of an outbound call promises.
use chattice.Base.{
  String, ◌≡◌, refl, ap, sym, ◌∙◌, Bool, true, false, Option, none, some, List, [], ◌∷◌, any, ◌&&◌,
  if◌then◌else◌, keep, arith, Bool-cases, inl, inr, All,
}
use mathlib.Core.Path.{subst}
use chattice.Base.Eq.{string_eq}
use chattice.Dict.{get, put, has, get-put, get-put_self}
use chattice.Capabilities.Operations.{
  AuthMode, ExecutionVariant, Operation, value, AuthPath, OperationSpec,
}
use chattice.Capabilities.Registry.{
  Checked, ok, failed, duplicate_spec, capability_not_supported, unknown_operation, Registry,
  register, found, spec, admits, meets, scoped, allowed, checked_map, preflight, required, require,
}

-- A path that the identity, the variant and the granted scopes can take.
abbrev pub usable : Option AuthMode → Option (List String) → ExecutionVariant → AuthPath → Bool
usable identity none variant path = admits identity variant path
usable identity (some known) variant path = admits identity variant path && meets known path

any-keep :
    (p q : AuthPath → Bool) (paths : List AuthPath)
    → any q (keep p paths) ≡ any (λ x. p x && q x) paths
any-keep p q [] = refl
any-keep p q (path ∷ paths) = ground (arith, any-keep p q paths)

any-true : (paths : List AuthPath) → scoped paths none ≡ any (λ _. true) paths
any-true [] = refl
any-true (path ∷ paths) = refl

scoped-some :
    (paths : List AuthPath) (known : List String)
    → scoped paths (some known) ≡ any (meets known) paths
scoped-some [] known = refl
scoped-some (path ∷ paths) known = refl

any-and_true :
    (p : AuthPath → Bool) (paths : List AuthPath) → any (λ x. p x && true) paths ≡ any p paths
any-and_true p [] = refl
any-and_true p (path ∷ paths) = ground (arith, any-and_true p paths)

allowed-usable :
    (identity : Option AuthMode) (scopes : Option (List String)) (variant : ExecutionVariant)
    (s : OperationSpec)
    → allowed identity scopes variant s ≡ any (usable identity scopes variant) s.auth_paths
allowed-usable identity none variant s =
    any-true (keep (admits identity variant) s.auth_paths)
    ∙ any-keep (admits identity variant) (λ _. true) s.auth_paths
    ∙ any-and_true (admits identity variant) s.auth_paths
allowed-usable identity (some known) variant s =
    scoped-some (keep (admits identity variant) s.auth_paths) known
    ∙ any-keep (admits identity variant) (meets known) s.auth_paths

-- `require` lets a call through exactly when its operation is registered and one of the operation's
-- paths has the identity and the variant of the call, and one of the scopes where the scopes are known.
pub require-usable :
    (registry : Registry) (operation : Operation) (identity : Option AuthMode)
    (scopes : Option (List String)) (variant : ExecutionVariant)
    → require registry operation identity scopes variant
      ≡ elim (get registry (value operation)) as (λ _. Checked Unit) [
        | none ↦ failed (unknown_operation operation)
        | some s ↦
            if any (usable identity scopes variant) s.auth_paths
            then ok tt
            else failed (capability_not_supported operation)
      ]
unfolding require preflight spec found required
require-usable registry operation identity scopes variant = by_spec (get registry (value operation))
  where
    by_allowed :
        (a b : Bool)
        → a ≡ b
        → required operation (ok a)
          ≡ (if b then ok tt else failed (capability_not_supported operation))
    by_allowed true b h = ground (arith, h)
    by_allowed false b h = ground (arith, h)

    by_spec :
        (o : Option OperationSpec)
        → required operation (checked_map (allowed identity scopes variant) (found operation o))
          ≡ elim o as (λ _. Checked Unit) [
            | none ↦ failed (unknown_operation operation)
            | some s ↦
                if any (usable identity scopes variant) s.auth_paths
                then ok tt
                else failed (capability_not_supported operation)
          ]
    by_spec none = refl
    by_spec (some s) =
        by_allowed (allowed identity scopes variant s)
          (any (usable identity scopes variant) s.auth_paths)
          (allowed-usable identity scopes variant s)

abbrev or_registry : Registry → Checked Registry → Registry
or_registry registry (ok after) = after
or_registry registry (failed error) = registry

ok-injective : {registry after : Registry} → ok registry ≡ ok after → registry ≡ after
ok-injective {registry} h = ap (or_registry registry) h

put-fresh :
    (registry : Registry) (key k : String) (s t : OperationSpec)
    → has registry key ≡ false
    → get registry k ≡ some s
    → get (put registry key t) k ≡ some s
unfolding has
put-fresh registry key k s t fresh h =
    ground (arith, get-put registry key k t, string_eq.beq_iff key k)

register-keeps :
    (registry after : Registry) (specs : List OperationSpec) (k : String) (s : OperationSpec)
    → register registry specs ≡ ok after
    → get registry k ≡ some s
    → get after k ≡ some s
unfolding register
register-keeps registry after [] k s h g = subst (λ r. get r k ≡ some s) (ok-injective h) g
register-keeps registry after (spec_ ∷ specs) k s h g =
    elim (Bool-cases (has registry (value spec_.operation))) [
      | inl a ↦ ground (arith, refused a)
      | inr a ↦
          register-keeps (put registry (value spec_.operation) spec_) after specs k s (kept a)
            (fresh a)
    ]
  where
    rest : Checked Registry
    rest = register (put registry (value spec_.operation) spec_) specs

    refused :
        has registry (value spec_.operation) ≡ true
        → failed (duplicate_spec spec_.operation) ≡ ok after
    refused a = sym (ap (λ b. if b then failed (duplicate_spec spec_.operation) else rest) a) ∙ h

    kept : has registry (value spec_.operation) ≡ false → rest ≡ ok after
    kept a = sym (ap (λ b. if b then failed (duplicate_spec spec_.operation) else rest) a) ∙ h

    fresh :
        has registry (value spec_.operation) ≡ false
        → get (put registry (value spec_.operation) spec_) k ≡ some s
    fresh a = put-fresh registry (value spec_.operation) k s spec_ a g

-- A table that registers leaves each of its operations with the one spec that the table has for it.
register-finds :
    (registry after : Registry) (specs : List OperationSpec)
    → register registry specs ≡ ok after
    → All (λ s. get after (value s.operation) ≡ some s) specs
unfolding register
register-finds registry after [] h = tt
register-finds registry after (s ∷ specs) h = elim (Bool-cases (has registry (value s.operation))) [
  | inl a ↦ ground (arith, sym (ap test a) ∙ h)
  | inr a ↦ (
    register-keeps next after specs (value s.operation) s (sym (ap test a) ∙ h)
        (get-put_self registry (value s.operation) s),
    register-finds next after specs (sym (ap test a) ∙ h),
  )
]
  where
    next : Registry
    next = put registry (value s.operation) s

    test : Bool → Checked Registry
    test b = if b then failed (duplicate_spec s.operation) else register next specs
