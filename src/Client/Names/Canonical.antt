-- ===== src/Client/Names/Canonical.antt =====
-- What a canonical name looks like.
use mathlib.Core.Path.{subst}
use Prim.Native.Char.{code}
use Prim.Native.String.{◌++◌}
use text.Mathlib.Text.{starts_with}
use text.Mathlib.TextPositions.{starts_with-append}
use text.Mathlib.TextLemmas.{nil-append, cons-append}
use chattice.Base.{
  ◌+◌, ◌≡◌, refl, ◌∙◌, String, true, false, Option, none, some, ◌&&◌, nat_beq, ltb, arith,
  Bool-cases, inl, inr,
}
use chattice.Base.Text.{strip, is_empty, is_space}
use chattice.Base.Text.Laws.{strip_idem, strip-append}
use chattice.Client.Names.{slashes, under, canonical, canonical_space, canonical_user}

slashes-append : (s t : String) → slashes (s ++ t) ≡ slashes s + slashes t
unfolding slashes
slashes-append String.[] t = rw (nil-append t) (omega arith)
slashes-append (String.◌∷◌ c s) t = rw (cons-append c s t) (ground (arith, slashes-append s t))

-- The prefix of a collection: it begins with no white space and has one slash.
abbrev IsCollection : String → Type 0
IsCollection String.[] = ⊥
IsCollection (String.◌∷◌ c s) = (is_space (code c) ≡ false) × (slashes (String.◌∷◌ c s) ≡ 1)

-- A name that is canonical for a collection.
abbrev pub IsCanonical : String → String → Type 0
IsCanonical prefix name =
    (starts_with name prefix ≡ true) × (slashes name ≡ 1) × (strip name ≡ name)

bare-IsCanonical :
    (prefix parent : String)
    → IsCollection prefix
    → strip parent ≡ parent
    → is_empty parent ≡ false
    → slashes parent ≡ 0
    → IsCanonical prefix (prefix ++ parent)
bare-IsCanonical String.[] parent collection e n z = absurd collection
bare-IsCanonical (String.◌∷◌ c s) parent (solid, one) e n z = (
  starts_with-append (String.◌∷◌ c s) parent,
  slashes-append (String.◌∷◌ c s) parent ∙ omega (arith, one, z),
  strip-append c s parent solid e n,
)

module _ (prefix : String) (collection : IsCollection prefix) where
  under-IsCanonical :
      (parent name : String)
      → strip parent ≡ parent
      → under prefix parent ≡ some name
      → IsCanonical prefix name
  unfolding under
  under-IsCanonical parent name e h = elim (Bool-cases (is_empty parent)) [
    | inl n ↦ absurd (ground (arith, h, n))
    | inr n ↦ elim (Bool-cases (ltb 0 (slashes parent))) [
      | inr bare ↦
          let same : prefix ++ parent ≡ name = ground (arith, h, n, bare) in
          subst (IsCanonical prefix) same
            (bare-IsCanonical prefix parent collection e n (ground (arith, bare)))
      | inl deep ↦ elim (Bool-cases (starts_with parent prefix && nat_beq (slashes parent) 1)) [
        | inr other ↦ absurd (ground (arith, h, n, deep, other))
        | inl right ↦
            let same : parent ≡ name = ground (arith, h, n, deep, right) in
            subst (IsCanonical prefix) same (ground (arith, right), ground (arith, right), e)
      ]
    ]
  ]

  not_empty : (name : String) → slashes name ≡ 1 → is_empty name ≡ false
  unfolding slashes
  not_empty String.[] h = ground (arith, h)
  not_empty (String.◌∷◌ c s) h = refl

  canonical_self :
      (name : String) → IsCanonical prefix name → canonical prefix (some name) ≡ some name
  unfolding canonical under
  canonical_self name (starts, one, stripped) = rw (stripped, not_empty name one, one, starts) refl

  canonical-IsCanonical :
      (target : Option String) (name : String)
      → canonical prefix target ≡ some name
      → IsCanonical prefix name × (canonical prefix (some name) ≡ some name)
  unfolding canonical
  canonical-IsCanonical none name h = absurd (ground (arith, h))
  canonical-IsCanonical (some given) name h =
      let c = under-IsCanonical (strip given) name (strip_idem given) h in
      (c, canonical_self name c)

-- The name of a space, and that of a user, that is accepted begins with its collection, has one slash and
-- no white space at its ends, and is accepted once more as it is.
pub resource_names-IsCanonical :
    (place person : Option String) (space user : String)
    → canonical_space place ≡ some space
    → canonical_user person ≡ some user
    → (IsCanonical "spaces/" space × (canonical_space (some space) ≡ some space))
      × (IsCanonical "users/" user × (canonical_user (some user) ≡ some user))
unfolding canonical_space canonical_user slashes
resource_names-IsCanonical place person space user h g = (
  canonical-IsCanonical "spaces/" (refl, refl) place space h,
  canonical-IsCanonical "users/" (refl, refl) person user g,
)
