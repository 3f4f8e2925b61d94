-- ===== src/Tests/Including.antt =====
-- Routers that include one another.
use chattice.Base.{ℕ, suc, zero, ◌<◌, ◌≡◌, refl, true, false, none, some, [], ◌∷◌, arith}
use chattice.Dispatcher.Inclusion.{
  Routers, creates_cycle, include_router, contains, refusal, unless_refused,
}
use chattice.Dispatcher.Inclusion.Above.{IsForest}
use chattice.Dispatcher.Inclusion.Forest.{Kept, include_router-Kept}

-- Router 1 is a child of router 2, and all others are detached.
abbrev routers : Routers
routers zero = record { name = "main"; is_dispatcher = true; parent = none; children = [] }
routers (suc zero) = record {
  name = "forms";
  is_dispatcher = false;
  parent = some 2;
  children = [];
}
routers (suc (suc zero)) = record {
  name = "admin";
  is_dispatcher = false;
  parent = none;
  children = 1 ∷ [];
}
routers (suc (suc (suc n))) = record {
  name = "router";
  is_dispatcher = false;
  parent = none;
  children = [];
}

abbrev height : ℕ → ℕ
height zero = 0
height (suc zero) = 0
height (suc (suc zero)) = 1
height (suc (suc (suc n))) = 0

routers-IsForest : IsForest routers height
routers-IsForest zero = tt
routers-IsForest (suc zero) = tt
routers-IsForest (suc (suc zero)) = ((omega arith, refl), tt)
routers-IsForest (suc (suc (suc n))) = tt

height_lt : (r : ℕ) → height r < 2
height_lt zero = omega arith
height_lt (suc zero) = omega arith
height_lt (suc (suc zero)) = omega arith
height_lt (suc (suc (suc n))) = omega arith

include_router-Kept_example : Kept 2 routers 0 2 (include_router 2 routers 0 2)
include_router-Kept_example = include_router-Kept routers height 2 0 2 routers-IsForest height_lt

cycle : include_router 2 routers 1 2 ≡ (routers, some creates_cycle)
unfolding include_router refusal unless_refused contains
cycle = refl
