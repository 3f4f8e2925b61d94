-- ===== src/Dispatcher/Inclusion/Forest.antt =====
-- What an inclusion does to the routers.
use mathlib.Core.Path.{subst}
use chattice.Base.{
  ℕ, suc, ◌+◌, ◌<◌, ◌≡◌, refl, sym, ◌∙◌, Bool, true, false, Option, none, some, [], ◌∷◌, ◌++◌,
  if◌then◌else◌, nat_beq, All, nat_beq_iff, arith, Bool-cases, inl, inr,
}
use chattice.Dispatcher.Inclusion.{
  Routers, InclusionError, contains, attach, refusal, unless_refused, include_router,
}
use chattice.Dispatcher.Inclusion.Above.{
  IsForest, each_zip, each_snoc, contains_enough, over, over_child, Refused, refusal-Refused,
}

-- What an inclusion comes to: the routers stay a forest, of at most twice the height; the router has its new
-- parent and comes after the parent's other children, and no other parent and no other children change. A
-- refusal has its reason and leaves the routers as they are.
abbrev pub Kept :
    (fuel : ℕ) → Routers → (self router : ℕ) → Routers × Option InclusionError → Type 0
Kept fuel routers self router (after, none) =
    (height : ℕ → ℕ) × IsForest after height
    × ((r : ℕ) → height r < fuel + fuel)
    × ((r : ℕ) → (after r).parent ≡ (if nat_beq r router then some self else (routers r).parent))
    × ((r : ℕ)
        → (after r).children
          ≡ (if nat_beq r self then (routers r).children ++ router ∷ [] else (routers r).children))
Kept fuel routers self router (after, some e) = (after ≡ routers) × Refused routers self router e

module _ (routers : Routers) (height : ℕ → ℕ) (forest : IsForest routers height) (fuel : ℕ)
    (bounded : (r : ℕ) → height r < fuel) (self router : ℕ) (other : nat_beq router self ≡ false)
    (detached : (routers router).parent ≡ none) where
  abbrev above : ℕ → Bool
  unfolding over
  above r = over routers height forest self r

  -- The routers that have the new parent under them grow by the height of the child.
  raised : ℕ → ℕ
  unfolding above
  raised r = height r + (if above r then suc (height router) else 0)

  raised_lt : (r : ℕ) → raised r < fuel + fuel
  unfolding raised above
  raised_lt r = elim (Bool-cases (above r)) [
    | inl e ↦ rw e (omega (arith, bounded r, bounded router))
    | inr e ↦ rw e (omega (arith, bounded r))
  ]

  above_self : above self ≡ true
  unfolding above over contains
  above_self = ground arith

  -- An old child keeps its parent.
  kept_parent :
      (p c : ℕ) → (routers c).parent ≡ some p → (attach routers self router c).parent ≡ some p
  unfolding attach
  kept_parent p c known = elim (Bool-cases (nat_beq c router)) [
    | inl e ↦ absurd (ground (arith, known, detached, e, nat_beq_iff c router))
    | inr e ↦ elim (Bool-cases (nat_beq c self)) [
      | inl f ↦ rw f (
          ground (
            arith,
            known,
            e,
            f,
            other,
            nat_beq_iff c self,
            nat_beq_iff self router,
            nat_beq_iff router self,
            nat_beq_iff c router,
          ))
      | inr f ↦ rw (f, e) known
    ]
  ]

  raised_below :
      (p c : ℕ) → height c < height p → (above c ≡ true → above p ≡ true) → raised c < raised p
  unfolding raised above
  raised_below p c below carries = elim (Bool-cases (above c)) [
    | inl e ↦ rw (e, carries e) (omega (arith, below))
    | inr e ↦ rw e (omega (arith, below))
  ]

  new_parent : (attach routers self router router).parent ≡ some self
  unfolding attach
  new_parent = ground (arith, other, nat_beq_iff router router)

  children_self :
      (attach routers self router self).children ≡ (routers self).children ++ router ∷ []
  unfolding attach
  children_self =
      ground (arith, other, nat_beq_iff self self, nat_beq_iff self router, nat_beq_iff router self)

  children_other :
      (p : ℕ)
      → nat_beq p self ≡ false
      → (attach routers self router p).children ≡ (routers p).children
  unfolding attach
  children_other p e = elim (Bool-cases (nat_beq p router)) [
    | inl f ↦ rw (e, f) (ground (arith, f, nat_beq_iff p router))
    | inr f ↦ rw (e, f) refl
  ]

  parent_other :
      (r : ℕ)
      → nat_beq r router ≡ false
      → (attach routers self router r).parent ≡ (routers r).parent
  unfolding attach
  parent_other r e = elim (Bool-cases (nat_beq r self)) [
    | inl f ↦ rw f (
        ground (
          arith,
          e,
          f,
          other,
          nat_beq_iff r self,
          nat_beq_iff self router,
          nat_beq_iff router self,
        ))
    | inr f ↦ rw (f, e) refl
  ]

  parents :
      (r : ℕ)
      → (attach routers self router r).parent
        ≡ (if nat_beq r router then some self else (routers r).parent)
  parents r = elim (Bool-cases (nat_beq r router)) [
    | inl e ↦ rw e (
        subst (λ x. (attach routers self router x).parent ≡ some self)
          (sym ((nat_beq_iff r router).0 e)) new_parent)
    | inr e ↦ rw e (parent_other r e)
  ]

  children :
      (r : ℕ)
      → (attach routers self router r).children
        ≡ (if nat_beq r self then (routers r).children ++ router ∷ [] else (routers r).children)
  children r = elim (Bool-cases (nat_beq r self)) [
    | inl e ↦ rw e (
        subst (λ x. (attach routers self router x).children ≡ (routers x).children ++ router ∷ [])
          (sym ((nat_beq_iff r self).0 e)) children_self)
    | inr e ↦ rw e (children_other r e)
  ]

  module _ (free_ : above router ≡ false) where
    abbrev Placed : ℕ → ℕ → Type 0
    unfolding raised attach
    Placed p c = (raised c < raised p) × ((attach routers self router c).parent ≡ some p)

    old_children : (p : ℕ) → All (Placed p) (routers p).children
    unfolding above over Placed
    old_children p =
        each_zip (routers p).children
          (λ c (below, known) carries. (raised_below p c below carries, kept_parent p c known))
          (forest p) (over_child routers height forest self p)

    new_child : Placed self router
    unfolding raised Placed
    new_child = (rw (free_, above_self) (omega arith), new_parent)

    attach-IsForest : IsForest (attach routers self router) raised
    unfolding Placed
    attach-IsForest p = elim (Bool-cases (nat_beq p self)) [
      | inr e ↦ subst (All (Placed p)) (sym (children_other p e)) (old_children p)
      | inl e ↦
          subst (λ q. All (Placed q) (attach routers self router q).children)
            (sym ((nat_beq_iff p self).0 e))
            (subst (All (Placed self)) (sym children_self) (
              each_snoc (Placed self) (routers self).children router (old_children self) new_child))
    ]

    attach-Kept : Kept fuel routers self router (attach routers self router, none)
    attach-Kept = (raised, attach-IsForest, raised_lt, parents, children)

refused-Kept :
    (routers : Routers) (height : ℕ → ℕ) (fuel self router : ℕ) (o : Option InclusionError)
    → IsForest routers height
    → ((r : ℕ) → height r < fuel)
    → refusal fuel routers self router ≡ o
    → Kept fuel routers self router (unless_refused o routers self router)
unfolding unless_refused refusal above over
refused-Kept routers height fuel self router (some e) forest bounded h =
    (refl, refusal-Refused routers height fuel self router e forest h)
refused-Kept routers height fuel self router none forest bounded h =
    attach-Kept routers height forest fuel bounded self router (ground (arith, h))
      (ground (arith, h))
      (contains_enough routers height forest self (suc (height router)) fuel router (omega arith)
          (bounded router)
        ∙ ground (arith, h))

-- On a forest, with fuel above its height, including a router keeps the forest, puts the router under its new
-- parent, after the parent's other children, and changes no other parent and no other children; or it is
-- refused, because the router is the parent itself, a dispatcher, attached already or above the parent, and
-- changes nothing.
pub include_router-Kept :
    (routers : Routers) (height : ℕ → ℕ) (fuel self router : ℕ)
    → IsForest routers height
    → ((r : ℕ) → height r < fuel)
    → Kept fuel routers self router (include_router fuel routers self router)
unfolding include_router
include_router-Kept routers height fuel self router forest bounded =
    refused-Kept routers height fuel self router (refusal fuel routers self router) forest bounded
      refl
