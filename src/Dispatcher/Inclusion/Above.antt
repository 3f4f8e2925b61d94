-- ===== src/Dispatcher/Inclusion/Above.antt =====
-- Routers as a forest: what `_contains` finds in it, and why `include_router` refuses.
use mathlib.Core.Path.{subst}
use chattice.Base.{
  ℕ, zero, suc, ◌<◌, ◌≡◌, refl, sym, ap, ◌∙◌, Bool, true, some, is_some, List, [], ◌∷◌, ◌++◌, ◌||◌,
  any, nat_beq, All, nat_beq_iff, arith, Bool-cases, inl, inr,
}
use chattice.Dispatcher.Inclusion.{
  includes_itself, dispatcher_as_child, already_attached, creates_cycle, Routers, InclusionError,
  contains, refusal,
}

-- Children have a smaller height than their router, and know it as their parent.
abbrev pub IsForest : Routers → (ℕ → ℕ) → Type 0
IsForest routers height =
    (p : ℕ) → All (λ c. (height c < height p) × ((routers c).parent ≡ some p)) (routers p).children

any_cong :
    {A : Type 0} (f g : A → Bool) (xs : List A) → All (λ x. f x ≡ g x) xs → any f xs ≡ any g xs
any_cong f g [] h = refl
any_cong f g (x ∷ xs) (e, h) = rw (e, any_cong f g xs h) refl

pub each_map :
    {A : Type 0} {P Q : A → Type 0} (xs : List A) → ((x : A) → P x → Q x) → All P xs → All Q xs
each_map [] f h = tt
each_map (x ∷ xs) f (p, h) = (f x p, each_map xs f h)

pub each_zip :
    {A : Type 0} {P Q R : A → Type 0} (xs : List A)
    → ((x : A) → P x → Q x → R x)
    → All P xs
    → All Q xs
    → All R xs
each_zip [] f h g = tt
each_zip (x ∷ xs) f (p, h) (q, g) = (f x p q, each_zip xs f h g)

pub each_snoc :
    {A : Type 0} (P : A → Type 0) (xs : List A) (a : A) → All P xs → P a → All P (xs ++ a ∷ [])
each_snoc P [] a h p = (p, tt)
each_snoc P (x ∷ xs) a (q, h) p = (q, each_snoc P xs a h p)

-- What holds of an element holds of some element.
any_each : {A : Type 0} (f : A → Bool) (xs : List A) → All (λ x. f x ≡ true → any f xs ≡ true) xs
any_each f [] = tt
any_each f (x ∷ xs) =
    (λ e. ground (arith, e), each_map xs (λ y h e. ground (arith, h e)) (any_each f xs))

module _ (routers : Routers) (height : ℕ → ℕ) (forest : IsForest routers height)
    (candidate : ℕ) where
  -- Fuel above the height of a router is enough.
  pub contains_enough :
      (n k r : ℕ)
      → height r < n
      → height r < k
      → contains n routers r candidate ≡ contains k routers r candidate
  unfolding contains
  contains_enough zero k r p q = absurd (omega (arith, p))
  contains_enough (suc n) zero r p q = absurd (omega (arith, q))
  contains_enough (suc n) (suc k) r p q =
      ap (λ b. nat_beq r candidate || b)
        (any_cong (λ c. contains n routers c candidate) (λ c. contains k routers c candidate)
          (routers r).children
          (each_map (routers r).children
            (λ c (below, _).
              contains_enough n k c (omega (arith, below, p)) (omega (arith, below, q)))
            (forest r)))

  -- Whether a router has the candidate under it.
  unfoldable pub over : ℕ → Bool
  over r = contains (suc (height r)) routers r candidate

  pub over_child : (p : ℕ) → All (λ c. over c ≡ true → over p ≡ true) (routers p).children
  unfolding over contains
  over_child p =
      each_zip (routers p).children
        (λ c (below, _) some_ e.
          let found : any (λ x. contains (height p) routers x candidate) (routers p).children
              ≡ true =
            some_ (sym (contains_enough (suc (height c)) (height p) c (omega arith) below) ∙ e) in
          ground (arith, found))
        (forest p) (any_each (λ x. contains (height p) routers x candidate) (routers p).children)

-- A router is another one, or is above its parent.
pub data Above (routers : Routers) (router : ℕ) : ℕ → Type 0 where
  itself : Above routers router router
  through_parent :
      {r p : ℕ} → (routers r).parent ≡ some p → Above routers router p → Above routers router r

Above-parent :
    (routers : Routers) (router c r : ℕ)
    → (routers c).parent ≡ some router
    → Above routers c r
    → Above routers router r
Above-parent routers router c r e itself = through_parent e itself
Above-parent routers router c r e (through_parent {p = p} k a) =
    through_parent k (Above-parent routers router c p e a)

any_found :
    {A : Type 0} (P : A → Type 0) (f : A → Bool) (xs : List A)
    → any f xs ≡ true
    → All P xs
    → (x : A) × (f x ≡ true) × P x
any_found P f [] h ps = absurd (ground (arith, h))
any_found P f (x ∷ xs) h (p, ps) = elim (Bool-cases (f x)) [
  | inl e ↦ (x, e, p)
  | inr e ↦ any_found P f xs (ground (arith, h, e)) ps
]

contains-Above :
    (routers : Routers) (height : ℕ → ℕ) (n router self : ℕ)
    → IsForest routers height
    → contains n routers router self ≡ true
    → Above routers router self
unfolding contains
contains-Above routers height zero router self forest h = absurd (ground (arith, h))
contains-Above routers height (suc n) router self forest h =
    elim (Bool-cases (nat_beq router self)) [
      | inl e ↦ subst (Above routers router) ((nat_beq_iff router self).0 e) itself
      | inr e ↦
          let (c, under, (_, known)) =
            any_found (λ c. (height c < height router) × ((routers c).parent ≡ some router))
              (λ c. contains n routers c self) (routers router).children (ground (arith, h, e))
              (forest router) in
          Above-parent routers router c self known
            (contains-Above routers height n c self forest under)
    ]

-- Why an inclusion is refused.
abbrev pub Refused : Routers → (self router : ℕ) → InclusionError → Type 0
Refused routers self router includes_itself = router ≡ self
Refused routers self router dispatcher_as_child = (routers router).is_dispatcher ≡ true
Refused routers self router already_attached = is_some (routers router).parent ≡ true
Refused routers self router creates_cycle = Above routers router self

pub refusal-Refused :
    (routers : Routers) (height : ℕ → ℕ) (fuel self router : ℕ) (e : InclusionError)
    → IsForest routers height
    → refusal fuel routers self router ≡ some e
    → Refused routers self router e
unfolding refusal
refusal-Refused routers height fuel self router includes_itself forest h =
    (nat_beq_iff router self).0 (ground (arith, h))
refusal-Refused routers height fuel self router dispatcher_as_child forest h = ground (arith, h)
refusal-Refused routers height fuel self router already_attached forest h = ground (arith, h)
refusal-Refused routers height fuel self router creates_cycle forest h =
    contains-Above routers height fuel router self forest (ground (arith, h))
