-- ===== src/Client/Paging.antt =====
-- src/chattice/client/paging.py: `Pager.collect`.
pub mod Limits
use chattice.Base.{
  ℕ, ◌≡◌, Bool, true, false, Option, none, some, List, [], ◌∷◌, ◌++◌, length, leb, if◌then◌else◌,
}

-- What iterating the pager of the SDK meets: items, and then the end or an error.
pub data Pages (E A : Type 0) : Type 0 where
  finished : Pages E A
  broken : E → Pages E A
  next : A → Pages E A → Pages E A

-- The items, and what has not been fetched; or the error.
pub data Collected (E A : Type 0) : Type 0 where
  items : List A → Pages E A → Collected E A
  error : E → Collected E A

-- `limit is not None and len(items) >= limit`
abbrev pub reached : {A : Type 0} → Option ℕ → List A → Bool
reached none found = false
reached (some limit) found = leb limit (length found)

module _ {E A : Type 0} where
  unfoldable pub collect_from : Option ℕ → List A → Pages E A → Collected E A
  collect_from limit found finished = items found finished
  collect_from limit found (broken e) = error e
  collect_from limit found (next a rest) =
      let more = collect_from limit (found ++ a ∷ []) rest in
      if reached limit (found ++ a ∷ []) then items (found ++ a ∷ []) rest else more

  unfoldable pub collect : Option ℕ → Pages E A → Collected E A
  collect limit pages = collect_from limit [] pages
