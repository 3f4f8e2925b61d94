-- ===== src/Fsm/Json/Revalidate.antt =====
-- `_require_json_value` on a value that it has made, as on every `dataclasses.replace` of a record.
use chattice.Base.{
  String, Bool, true, false, Option, none, some, ◌≡◌, refl, ap, arith, if◌then◌else◌, eq_iff,
  Bool-cases, inl, inr,
}
use mathlib.Core.Path.{subst}
use chattice.Base.Eq.{◌==◌, string_eq}
use chattice.Fsm.Json.{
  Object, Items, Entries, Json, Elements, Fields, text_key, str, py_none, py_str, py_bool, py_int,
  py_float, py_enum, py_mapping, py_list, py_tuple, py_other, nil, cons, no_entry, entry, null,
  text, boolean, integer, real, object, array, no_element, element, no_field, field, put_field,
  require_json_value, require_items, require_entries, ◌>>=◌,
}

-- A JSON value, as the Python object that it is.
unfoldable mutual
  pub embed : Json → Object
  embed null = py_none
  embed (text s) = py_str s
  embed (boolean b) = py_bool b
  embed (integer n) = py_int n
  embed (real s) = py_float s
  embed (object fs) = py_mapping (embed_fields fs)
  embed (array js) = py_list (embed_elements js)

  pub embed_elements : Elements → Items
  embed_elements no_element = nil
  embed_elements (element j js) = cons (embed j) (embed_elements js)

  pub embed_fields : Fields → Entries
  embed_fields no_field = no_entry
  embed_fields (field k j fs) = entry (text_key k) (embed j) (embed_fields fs)

abbrev member : String → Fields → Bool
member k no_field = false
member k (field j v fs) = if j == k then true else member k fs

-- No dict in the value has a key twice.
unfoldable mutual
  pub IsDict : Json → Type 0
  IsDict null = Unit
  IsDict (text s) = Unit
  IsDict (boolean b) = Unit
  IsDict (integer n) = Unit
  IsDict (real s) = Unit
  IsDict (object fs) = IsDictFields fs
  IsDict (array js) = IsDictElements js

  pub IsDictElements : Elements → Type 0
  IsDictElements no_element = Unit
  IsDictElements (element j js) = IsDict j × IsDictElements js

  pub IsDictFields : Fields → Type 0
  IsDictFields no_field = Unit
  IsDictFields (field k j fs) = (member k fs ≡ false) × IsDict j × IsDictFields fs

member-put_field :
    (fs : Fields) (k i : String) (v : Json)
    → member i (put_field fs k v) ≡ (if k == i then true else member i fs)
unfolding put_field
member-put_field no_field k i v = refl
member-put_field (field j w fs) k i v =
    ground (arith, member-put_field fs k i v, eq_iff j k, eq_iff k i, eq_iff j i)

put_field-IsDict :
    (fs : Fields) (k : String) (v : Json)
    → IsDict v
    → IsDictFields fs
    → IsDictFields (put_field fs k v)
unfolding put_field IsDictFields
put_field-IsDict no_field k v hv h = (refl, hv, tt)
put_field-IsDict (field j w fs) k v hv h = elim (Bool-cases (j == k)) [
  | inl hit ↦ rw hit (h.0, hv, h.2)
  | inr miss ↦ rw miss (
    rw (member-put_field fs k j v) (ground (arith, h.0, eq_iff j k, eq_iff k j)),
    h.1,
    put_field-IsDict fs k v hv h.2,
  )
]

append : Fields → Fields → Fields
append no_field gs = gs
append (field k v fs) gs = field k v (append fs gs)

append-no_field : (made : Fields) → append made no_field ≡ made
unfolding append
append-no_field no_field = refl
append-no_field (field k v made) = ap (field k v) (append-no_field made)

some-inj {ℓ} : {A : Type ℓ} {a b : A} → some a ≡ some b → a ≡ b
some-inj h = cc

append_assoc : (made fs gs : Fields) → append (append made fs) gs ≡ append made (append fs gs)
unfolding append
append_assoc no_field fs gs = refl
append_assoc (field k v made) fs gs = ap (field k v) (append_assoc made fs gs)

put_field-append :
    (made : Fields) (k : String) (v : Json)
    → member k made ≡ false
    → put_field made k v ≡ append made (field k v no_field)
unfolding put_field append
put_field-append no_field k v h = refl
put_field-append (field j w made) k v h = ground (arith, put_field-append made k v)

bind-eq-some {ℓ κ} :
    {A : Type ℓ} {B : Type κ} (m : Option A) (f : A → Option B) {b : B}
    → (m >>= f) ≡ some b
    → (a : A) × (m ≡ some a) × (f a ≡ some b)
bind-eq-some none f h = cc
bind-eq-some (some a) f h = (a, refl, h)

-- What is accepted holds no key twice.
mutual
  unfolding require_json_value require_items require_entries IsDict IsDictElements IsDictFields

  pub require-IsDict : (v : Object) (j : Json) → require_json_value v ≡ some j → IsDict j
  require-IsDict py_none j h = subst IsDict (some-inj h) tt
  require-IsDict (py_str s) j h = subst IsDict (some-inj h) tt
  require-IsDict (py_bool b) j h = subst IsDict (some-inj h) tt
  require-IsDict (py_int n) j h = subst IsDict (some-inj h) tt
  require-IsDict (py_float s) j h = subst IsDict (some-inj h) tt
  require-IsDict (py_enum v) j h = require-IsDict v j h
  require-IsDict (py_mapping es) j h =
      let (fs, p, q) = bind-eq-some (require_entries es no_field) (λ fs. some (object fs)) h in
      subst IsDict (some-inj q) (require_entries-IsDict es no_field fs tt p)
  require-IsDict (py_list xs) j h =
      let (js, p, q) = bind-eq-some (require_items xs) (λ js. some (array js)) h in
      subst IsDict (some-inj q) (require_items-IsDict xs js p)
  require-IsDict (py_tuple xs) j h =
      let (js, p, q) = bind-eq-some (require_items xs) (λ js. some (array js)) h in
      subst IsDict (some-inj q) (require_items-IsDict xs js p)
  require-IsDict (py_other t) j h = cc

  require_items-IsDict :
      (xs : Items) (js : Elements) → require_items xs ≡ some js → IsDictElements js
  require_items-IsDict nil js h = subst IsDictElements (some-inj h) tt
  require_items-IsDict (cons x xs) js h =
      let (j, p, q) =
        bind-eq-some (require_json_value x) (λ j. require_items xs >>= λ js. some (element j js))
          h in
      let (js', p', q') = bind-eq-some (require_items xs) (λ js. some (element j js)) q in
      subst IsDictElements (some-inj q') (require-IsDict x j p, require_items-IsDict xs js' p')

  require_entries-IsDict :
      (es : Entries) (made fs : Fields)
      → IsDictFields made
      → require_entries es made ≡ some fs
      → IsDictFields fs
  require_entries-IsDict no_entry made fs d h = subst IsDictFields (some-inj h) d
  require_entries-IsDict (entry k v es) made fs d h =
      let (j, p, q) =
        bind-eq-some (require_json_value v) (λ j. require_entries es (put_field made (str k) j))
          h in
      require_entries-IsDict es (put_field made (str k) j) fs
        (put_field-IsDict made (str k) j (require-IsDict v j p) d) q

abbrev Disjoint : Fields → Fields → Type 0
Disjoint made no_field = Unit
Disjoint made (field k v fs) = (member k made ≡ false) × Disjoint made fs

Disjoint-put_field :
    (made fs : Fields) (k : String) (v : Json)
    → member k fs ≡ false
    → Disjoint made fs
    → Disjoint (put_field made k v) fs
Disjoint-put_field made no_field k v h d = tt
Disjoint-put_field made (field i w fs) k v h d = (
  rw (member-put_field made k i v) (ground (arith, eq_iff i k, eq_iff k i)),
  Disjoint-put_field made fs k v (ground arith) d.1,
)

Disjoint-no_field : (fs : Fields) → Disjoint no_field fs
Disjoint-no_field no_field = tt
Disjoint-no_field (field k v fs) = (refl, Disjoint-no_field fs)

mutual
  unfolding require_json_value require_items require_entries embed embed_elements embed_fields
      IsDict IsDictElements IsDictFields append

  pub require-embed : (j : Json) → IsDict j → require_json_value (embed j) ≡ some j
  require-embed null d = refl
  require-embed (text s) d = refl
  require-embed (boolean b) d = refl
  require-embed (integer n) d = refl
  require-embed (real s) d = refl
  require-embed (object fs) d = rw (require-embed_fields fs no_field d (Disjoint-no_field fs))
  require-embed (array js) d = rw (require-embed_elements js d)

  require-embed_elements :
      (js : Elements) → IsDictElements js → require_items (embed_elements js) ≡ some js
  require-embed_elements no_element d = refl
  require-embed_elements (element j js) d = rw (require-embed j d.0, require-embed_elements js d.1)

  require-embed_fields :
      (fs made : Fields)
      → IsDictFields fs
      → Disjoint made fs
      → require_entries (embed_fields fs) made ≡ some (append made fs)
  require-embed_fields no_field made d f = rw (append-no_field made)
  require-embed_fields (field k j fs) made d f = rw (
    require-embed j d.1,
    require-embed_fields fs (put_field made k j) d.2 (Disjoint-put_field made fs k j d.0 f.1),
    put_field-append made k j f.0,
    append_assoc made (field k j no_field) fs,
  )

-- What `_require_json_value` has accepted, it accepts again, and returns unchanged.
pub require_json_value_idem :
    (v : Object) (j : Json) → require_json_value v ≡ some j → require_json_value (embed j) ≡ some j
require_json_value_idem v j h = require-embed j (require-IsDict v j h)
