-- ===== src/Dispatcher/Inclusion.antt =====
-- `include_router` and `_contains` of src/chattice/dispatcher/router.py on the routers that a program has
-- made. A router is a number, since `is` compares identities.
pub mod Above
pub mod Forest
use chattice.Base.{
  ℕ, zero, suc, String, Bool, true, false, Option, none, some, is_some, List, [], ◌∷◌, ◌++◌,
  if◌then◌else◌, ◌||◌, any, nat_beq,
}

pub record RouterState : Type 0 where
  pub name : String
  pub is_dispatcher : Bool
  pub parent : Option ℕ
  pub children : List ℕ

abbrev pub Routers : Type 0
Routers = ℕ → RouterState

-- The `RouterConfigurationError`s, by their messages.
pub data InclusionError : Type 0 where
  includes_itself dispatcher_as_child already_attached creates_cycle : InclusionError

-- router._contains(candidate); the fuel bounds the depth.
unfoldable pub contains : (fuel : ℕ) → Routers → (router candidate : ℕ) → Bool
contains zero routers router candidate = false
contains (suc fuel) routers router candidate =
    nat_beq router candidate
    || any (λ child. contains fuel routers child candidate) (routers router).children

abbrev pub put_node : Routers → ℕ → RouterState → Routers
put_node routers r node x = if nat_beq x r then node else routers x

-- router._parent = self; self._children.append(router)
unfoldable pub attach : Routers → (self router : ℕ) → Routers
attach routers self router =
    let owned = put_node routers router (record (routers router) { parent = some self }) in
    put_node owned self (record (owned self) { children = (owned self).children ++ router ∷ [] })

-- The guards of `include_router`.
unfoldable pub refusal : (fuel : ℕ) → Routers → (self router : ℕ) → Option InclusionError
unfolding contains
refusal fuel routers self router =
    if nat_beq router self
    then some includes_itself
    else if (routers router).is_dispatcher
    then some dispatcher_as_child
    else if is_some (routers router).parent
    then some already_attached
    else if contains fuel routers router self
    then some creates_cycle
    else none

unfoldable pub unless_refused :
    Option InclusionError → Routers → (self router : ℕ) → Routers × Option InclusionError
unfolding attach
unless_refused (some e) routers self router = (routers, some e)
unless_refused none routers self router = (attach routers self router, none)

unfoldable pub include_router :
    (fuel : ℕ) → Routers → (self router : ℕ) → Routers × Option InclusionError
unfolding refusal unless_refused
include_router fuel routers self router =
    unless_refused (refusal fuel routers self router) routers self router
