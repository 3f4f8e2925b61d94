-- ===== src/GoogleChat/Values.antt =====
-- The JSON values that Google sends, and src/chattice/adapters/google_chat/exceptions.py.
use chattice.Base.{◌≡◌, refl, String, Bool, true, false, Option, none, some, [], ◌∷◌, if◌then◌else◌}
use chattice.Base.Int.{ℤ}
use chattice.Dict.{Dict}

-- A float is its `repr`.
mutual
  pub data Value : Type 0 where
    null : Value
    boolean : Bool → Value
    integer : ℤ → Value
    real : String → Value
    text : String → Value
    array : Items → Value
    mapping : Fields → Value

  pub data Items : Type 0 where
    no_item : Items
    item : Value → Items → Items

  pub data Fields : Type 0 where
    no_field : Fields
    field : String → Value → Fields → Fields

-- dict(value) of a mapping, and the mapping of a dict
abbrev pub dict : Fields → Dict String Value
dict no_field = []
dict (field k v rest) = (k, v) ∷ dict rest

abbrev pub fields : Dict String Value → Fields
fields [] = no_field
fields ((k, v) ∷ rest) = field k v (fields rest)

-- d.get(key) where a missing key and a None are alike
abbrev pub not_none : Option Value → Option Value
not_none (some null) = none
not_none o = o

-- The failures of the adapter, and a `ValueError` that is none of them.
pub data ParseError : Type 0 where
  invalid_interaction_payload conflicting_envelope_error unsupported_envelope_error value_error :
      ParseError

pub data Result {ℓ} (V : Type ℓ) : Type ℓ where
  failed : ParseError → Result V
  ok : V → Result V

-- `if not met: raise reason`
abbrev pub guard : (met : Bool) (reason : ParseError) → Result (Unit {0})
guard false reason = failed reason
guard true _ = ok tt

-- What follows a failure does not run.
infixl 5 ◌>>=◌ ◌>>◌
abbrev pub ◌>>=◌ {κ ℓ} : {W : Type κ} {V : Type ℓ} → Result V → (V → Result W) → Result W
failed reason >>= next = failed reason
ok v >>= next = next v

abbrev pub ◌>>◌ {κ} : {W : Type κ} → Result (Unit {0}) → Result W → Result W
first >> second = first >>= (λ _. second)

-- What an `ok` of a chain comes from.
pub >>=-eq-ok {κ ℓ} :
    {W : Type κ} {V : Type ℓ} (first : Result V) (next : V → Result W) {w : W}
    → (first >>= next) ≡ ok w
    → (v : V) × (first ≡ ok v) × (next v ≡ ok w)
>>=-eq-ok (failed reason) next e = cc
>>=-eq-ok (ok v) next e = (v, refl, e)

-- What holds of the value, if there is one.
abbrev pub Allows {ℓ} : {A : Type ℓ} → (A → Type 0) → Result A → Type 0
Allows P (ok a) = P a
Allows P (failed e) = Unit

pub if_Allows {ℓ} :
    {A : Type ℓ} (P : A → Type 0) (b : Bool) (r q : Result A)
    → Allows P r
    → Allows P q
    → Allows P (if b then r else q)
if_Allows P true r q hr hq = hr
if_Allows P false r q hr hq = hq

pub bind-Allows {ℓ κ} :
    {A : Type ℓ} {B : Type κ} (P : B → Type 0) (m : Result A) (f : A → Result B)
    → ((a : A) → Allows P (f a))
    → Allows P (m >>= f)
bind-Allows P (ok a) f h = h a
bind-Allows P (failed e) f h = tt

pub bind-Allows_eq {ℓ κ} :
    {A : Type ℓ} {B : Type κ} (P : B → Type 0) (m : Result A) (f : A → Result B)
    → ((a : A) → m ≡ ok a → Allows P (f a))
    → Allows P (m >>= f)
bind-Allows_eq P (ok a) f h = h a refl
bind-Allows_eq P (failed e) f h = tt

pub guard-Allows {ℓ} :
    {B : Type ℓ} (P : B → Type 0) (b : Bool) (e : ParseError) (m : Result B)
    → (b ≡ true → Allows P m)
    → Allows P (guard b e >> m)
guard-Allows P true e m h = h refl
guard-Allows P false e m h = tt
