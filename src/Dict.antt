-- ===== src/Dict.antt =====
-- Python's `dict`: an assignment to an old key keeps the key's place, a new key goes to the end.
-- It also stands for the mappings that the program copies and reads.
use chattice.Base.{
  ◌≡◌, refl, Bool, Option, none, some, List, [], ◌∷◌, arith, if◌then◌else◌, is_some,
}
use chattice.Base.Eq.{Eq, ◌==◌, eq_refl}

-- The pairs in insertion order.
abbrev pub Dict {ℓ κ} : Type ℓ → Type κ → Type (ℓ ⊔ κ)
Dict K V = List (K × V)

module _ {ℓ κ} {K : Type ℓ} {V : Type κ} ⦃e : Eq K⦄ where
  -- d.get(k)
  unfoldable pub get : Dict K V → K → Option V
  get [] k = none
  get ((j, v) ∷ d) k = if j == k then some v else get d k

  -- d[k] = v
  unfoldable pub put : Dict K V → K → V → Dict K V
  put [] k v = (k, v) ∷ []
  put ((j, w) ∷ d) k v = if j == k then (j, v) ∷ d else (j, w) ∷ put d k v

  -- d.pop(k, None), del d[k]
  unfoldable pub remove : Dict K V → K → Dict K V
  remove [] k = []
  remove ((j, w) ∷ d) k = let rest = remove d k in if j == k then rest else (j, w) ∷ rest

  -- k in d
  unfoldable pub has : Dict K V → K → Bool
  unfolding get
  has d k = is_some (get d k)

  -- d.update(other)
  unfoldable pub update : Dict K V → Dict K V → Dict K V
  unfolding put
  update d [] = d
  update d ((k, v) ∷ other) = update (put d k v) other

  pub get-put :
      (d : Dict K V) (k j : K) (v : V) → get (put d k v) j ≡ (if k == j then some v else get d j)
  unfolding get put
  get-put [] k j v = refl
  get-put ((i, w) ∷ d) k j v =
      ground (arith, get-put d k j v, e.beq_iff k j, e.beq_iff i k, e.beq_iff i j)

  pub get-remove :
      (d : Dict K V) (k j : K) → get (remove d k) j ≡ (if k == j then none else get d j)
  unfolding get remove
  get-remove [] k j = ground arith
  get-remove ((i, w) ∷ d) k j =
      ground (arith, get-remove d k j, e.beq_iff k j, e.beq_iff i k, e.beq_iff i j)

  pub get-put_self : (d : Dict K V) (k : K) (v : V) → get (put d k v) k ≡ some v
  get-put_self d k v = rw (get-put, eq_refl k)

  pub get-remove_self : (d : Dict K V) (k : K) → get (remove d k) k ≡ none
  get-remove_self d k = rw (get-remove, eq_refl k)

  pub ruleset dict_laws = (get-put, get-remove, get-put_self, get-remove_self)
