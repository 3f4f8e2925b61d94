-- ===== src/Capabilities/Registry/Verdicts.antt =====
-- Which outbound calls the registry lets through, by what a path of an operation needs.
use chattice.Base.{
  ◌↔◌, ◌⊎◌, str_eq, eq_iff, String, ◌≡◌, refl, sym, Bool, true, Option, none, some, List, [], ◌∷◌,
  any, if◌then◌else◌, arith, Bool-cases, inl, inr,
}
use mathlib.Core.Path.{subst}
use chattice.Base.Eq.{string_eq}
use chattice.Dict.{get}
use chattice.Capabilities.Operations.{
  AuthMode, ExecutionVariant, Operation, value, AuthPath, OperationSpec,
}
use chattice.Capabilities.Registry.{
  Checked, ok, failed, duplicate_spec, capability_not_supported, unknown_operation, Registry,
  same_mode, same_variant, admits, meets, require,
}
use chattice.Capabilities.Registry.Preflight.{usable, require-usable}

-- Some element of a list has a property.
abbrev pub SomeOf : {A : Type 0} → (A → Type 0) → List A → Type 0
SomeOf P [] = ⊥
SomeOf P (x ∷ xs) = P x ⊎ SomeOf P xs

any-SomeOf :
    {A : Type 0} (P : A → Type 0) (f : A → Bool) (xs : List A)
    → ((x : A) → (f x ≡ true) ↔ P x)
    → (any f xs ≡ true) ↔ SomeOf P xs
any-SomeOf P f [] r = ((λ h. absurd (ground (arith, h))), (λ h. absurd h))
any-SomeOf P f (x ∷ xs) r = (
  (λ h. elim (Bool-cases (f x)) [
    | inl e ↦ inl ((r x).0 e)
    | inr e ↦ inr ((any-SomeOf P f xs r).0 (ground (arith, h, e)))
  ]),
  (λ h. elim h [ inl p ↦ rw ((r x).1 p) refl | inr q ↦ ground (arith, (any-SomeOf P f xs r).1 q) ]),
)

-- A path has one of the scopes that are known, where any are known.
abbrev pub HasScope : Option (List String) → AuthPath → Type 0
HasScope none path = Unit
HasScope (some known) path = SomeOf (λ scope. SomeOf (λ k. scope ≡ k) known) path.any_scope

-- A path that is for the identity and the variant, and whose scopes allow it.
abbrev pub Usable : Option AuthMode → Option (List String) → ExecutionVariant → AuthPath → Type 0
Usable identity scopes variant path =
    (identity ≡ some path.identity) × (variant ≡ path.variant) × HasScope scopes path

-- What the answer of `require` says of the table.
abbrev pub Answers :
    Registry
    → Operation
    → Option AuthMode
    → Option (List String)
    → ExecutionVariant
    → Checked Unit
    → Type 0
Answers registry operation identity scopes variant (ok _) =
    (s : OperationSpec) × (get registry (value operation) ≡ some s)
    × SomeOf (Usable identity scopes variant) s.auth_paths
Answers registry operation identity scopes variant (failed (unknown_operation o)) =
    (o ≡ operation) × (get registry (value operation) ≡ none)
Answers registry operation identity scopes variant (failed (capability_not_supported o)) =
    (o ≡ operation)
    × ((s : OperationSpec) × (get registry (value operation) ≡ some s)
        × (¬ SomeOf (Usable identity scopes variant) s.auth_paths))
Answers registry operation identity scopes variant (failed (duplicate_spec o)) = ⊥

same_mode_iff : (a b : AuthMode) → (same_mode a b ≡ true) ↔ (a ≡ b)
same_mode_iff a b = ground arith

same_variant_iff : (a b : ExecutionVariant) → (same_variant a b ≡ true) ↔ (a ≡ b)
same_variant_iff a b = ground arith

admits_iff :
    (identity : Option AuthMode) (variant : ExecutionVariant) (path : AuthPath)
    → (admits identity variant path ≡ true)
      ↔ ((identity ≡ some path.identity) × (variant ≡ path.variant))
admits_iff none variant path = ground arith
admits_iff (some mode) variant path =
    ground (arith, same_mode_iff path.identity mode, same_variant_iff path.variant variant)

meets_iff :
    (known : List String) (path : AuthPath) → (meets known path ≡ true) ↔ HasScope (some known) path
meets_iff known path =
    any-SomeOf (λ scope. SomeOf (λ k. scope ≡ k) known) (λ scope. any (str_eq scope) known)
      path.any_scope
      (λ scope. any-SomeOf (λ k. scope ≡ k) (str_eq scope) known (λ k. eq_iff scope k))

usable_iff :
    (identity : Option AuthMode) (scopes : Option (List String)) (variant : ExecutionVariant)
    (path : AuthPath)
    → (usable identity scopes variant path ≡ true) ↔ Usable identity scopes variant path
usable_iff identity none variant path =
    let (there, back) = admits_iff identity variant path in
    ((λ h. let (a, b) = there h in (a, b, tt)), (λ (a, b, _). back (a, b)))
usable_iff identity (some known) variant path =
    let (there, back) = admits_iff identity variant path in
    let (scope, met) = meets_iff known path in
    (
      (λ h. let (a, b) = there (ground (arith, h)) in (a, b, scope (ground (arith, h)))),
      (λ (a, b, c). rw (back (a, b), met c) refl),
    )

-- `require` lets a call through exactly when its operation is registered and one of the operation's paths is
-- for the identity and the variant of the call, and has one of the scopes where the scopes are known; an
-- operation that is not registered is unknown, and every other call is not supported.
pub require-Answers :
    (registry : Registry) (operation : Operation) (identity : Option AuthMode)
    (scopes : Option (List String)) (variant : ExecutionVariant)
    → Answers registry operation identity scopes variant
        (require registry operation identity scopes variant)
require-Answers registry operation identity scopes variant =
    subst (Answers registry operation identity scopes variant)
      (sym (require-usable registry operation identity scopes variant))
      (by_spec (get registry (value operation)) refl)
  where
    by_paths :
        (s : OperationSpec)
        → get registry (value operation) ≡ some s
        → Answers registry operation identity scopes variant (
            if any (usable identity scopes variant) s.auth_paths
            then ok tt
            else failed (capability_not_supported operation))
    by_paths s e =
        let (there, back) =
          any-SomeOf (Usable identity scopes variant) (usable identity scopes variant) s.auth_paths
            (usable_iff identity scopes variant) in
        elim (Bool-cases (any (usable identity scopes variant) s.auth_paths)) [
          | inl yes_ ↦ rw yes_ (s, e, there yes_)
          | inr no_ ↦ rw no_ (refl, (s, e, (λ found_. absurd (ground (arith, no_, back found_)))))
        ]

    by_spec :
        (o : Option OperationSpec)
        → get registry (value operation) ≡ o
        → Answers registry operation identity scopes variant (elim o as (λ _. Checked Unit) [
          | none ↦ failed (unknown_operation operation)
          | some s ↦
              if any (usable identity scopes variant) s.auth_paths
              then ok tt
              else failed (capability_not_supported operation)
        ])
    by_spec none e = (refl, e)
    by_spec (some s) e = by_paths s e
