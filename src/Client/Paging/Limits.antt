-- ===== src/Client/Paging/Limits.antt =====
-- How much a bounded `collect` fetches.
use mathlib.Core.List.{append-nil, append_assoc}
use chattice.Base.{
  ℕ, zero, suc, ◌+◌, ◌≡◌, refl, ap, ◌∙◌, true, false, none, some, List, [], ◌∷◌, ◌++◌, length,
  length-append, leb, arith,
}
use chattice.Client.Paging.{
  Pages, finished, broken, next, Collected, items, error, collect_from, collect,
}

module _ {E A : Type 0} where
  abbrev pub before : List A → Collected E A → Collected E A
  before found (items more rest) = items (found ++ more) rest
  before found (error e) = error e

  -- The first n items, or as many as there are.
  unfoldable pub first : ℕ → Pages E A → Collected E A
  first zero pages = items [] pages
  first (suc n) finished = items [] finished
  first (suc n) (broken e) = error e
  first (suc n) (next a rest) = before (a ∷ []) (first n rest)

  -- All items.
  unfoldable pub everything : Pages E A → Collected E A
  everything finished = items [] finished
  everything (broken e) = error e
  everything (next a rest) = before (a ∷ []) (everything rest)

  before_twice :
      (found : List A) (a : A) (c : Collected E A)
      → before (found ++ a ∷ []) c ≡ before found (before (a ∷ []) c)
  before_twice found a (items more rest) = ap (λ l. items l rest) (append_assoc found (a ∷ []) more)
  before_twice found a (error e) = refl

  collect_from-first :
      (limit n : ℕ) (found : List A) (pages : Pages E A)
      → limit ≡ length found + suc n
      → collect_from (some limit) found pages ≡ before found (first (suc n) pages)
  unfolding collect_from first
  collect_from-first limit n found finished h = rw (append-nil found)
  collect_from-first limit n found (broken e) h = refl
  collect_from-first limit zero found (next a rest) h =
      let full : leb limit (length (found ++ a ∷ [])) ≡ true =
        ground (arith, length-append {0} found (a ∷ [])) in
      rw full
  collect_from-first limit (suc n) found (next a rest) h =
      let short : leb limit (length (found ++ a ∷ [])) ≡ false =
        ground (arith, length-append {0} found (a ∷ [])) in
      rw short (
        collect_from-first limit n (found ++ a ∷ []) rest
          (omega (arith, length-append {0} found (a ∷ [])))
        ∙ before_twice found a (first (suc n) rest))

  collect_from-everything :
      (found : List A) (pages : Pages E A)
      → collect_from none found pages ≡ before found (everything pages)
  unfolding collect_from everything
  collect_from-everything found finished = rw (append-nil found)
  collect_from-everything found (broken e) = refl
  collect_from-everything found (next a rest) =
      collect_from-everything (found ++ a ∷ []) rest ∙ before_twice found a (everything rest)

  before-nil : (c : Collected E A) → before [] c ≡ c
  before-nil (items more rest) = refl
  before-nil (error e) = refl

  collect_zero : (pages : Pages E A) → collect (some 0) pages ≡ first 1 pages
  unfolding collect collect_from first
  collect_zero finished = refl
  collect_zero (broken e) = refl
  collect_zero (next a rest) = refl

  -- Without a limit `collect` gives all items; with a positive limit it gives so many, or as many as
  -- there are, and fetches none after them; and a limit of zero is taken for one.
  pub collect-first :
      (pages : Pages E A) (n : ℕ)
      → (collect none pages ≡ everything pages)
        × (collect (some (suc n)) pages ≡ first (suc n) pages)
        × (collect (some 0) pages ≡ first 1 pages)
  unfolding collect
  collect-first pages n = (
    collect_from-everything [] pages ∙ before-nil (everything pages),
    collect_from-first (suc n) n [] pages (omega arith) ∙ before-nil (first (suc n) pages),
    collect_zero pages,
  )
