-- ===== src/Actions/RoundTrip.antt =====
-- Typed action data and the parameters of the action that carries it.
use mathlib.Core.Path.{subst, ap₂}
use chattice.Base.{
  ◌≡◌, refl, sym, ap, ◌∙◌, String, Bool, true, false, Option, none, some, List, [], ◌∷◌, map,
  if◌then◌else◌, arith, Option-cases, inl, inr, All, ◌||◌,
}
use chattice.Base.Eq.{string_eq, ◌==◌}
use chattice.Base.Text.{Unicode, HasAscii}
use chattice.Dict.{Dict, get, put, get-put}
use chattice.Events.{event, action, Common, text_parameter, ActionFields}
use chattice.Actions.{
  Floats, ReadsRepr, decoded, ◌>>=◌, Value, Field, matched, answer, text_parameters, attribute,
  encode_value, encode_fields, to_parameters, decode_fields, from_parameters, data_filter,
}
use chattice.Actions.Codec.{Fits, decode_value-encode_value}

-- A field's value that the codec keeps: one that fits the type, or None where that is the default.
abbrev pub Keeps : (floats : Floats) → Field floats.Float → Option (Value floats.Float) → Type 0
Keeps floats field (some v) = Fits floats field.target v
Keeps floats field none = field.default ≡ some none

module _ (u : Unicode) (ascii : HasAscii u) (floats : Floats) (laws : ReadsRepr floats)
    (x : String → Option (Value floats.Float)) where
  abbrev named : List (Field floats.Float) → String → Bool
  named [] n = false
  named (field ∷ fields) n = field.name == n || named fields n

  -- What a loop leaves at a name: the new value for a field that has one, or the old one.
  abbrev later {ℓ} : {A : Type ℓ} → Bool → Option A → Option A → Option A
  later true (some a) old = some a
  later _ _ old = old

  -- The text of a value.
  abbrev text_of : Option (Value floats.Float) → Option String
  text_of none = none
  text_of (some v) = encode_value u floats v

  same_name : (n k : String) → (n == k) ≡ true → x n ≡ x k
  same_name n k b = ap x ((string_eq.beq_iff n k).0 b)

  later_step {ℓ} :
      {A : Type ℓ} (b m : Bool) (new old before out : Option A) (a : A)
      → (b ≡ true → new ≡ some a)
      → before ≡ (if b then some a else old)
      → out ≡ later m new before
      → out ≡ later (b || m) new old
  later_step false m new old before out a s p o = o ∙ ap (later m new) p
  later_step true m none old before out a s p o = absurd (ground (arith, s refl))
  later_step true true (some c) old before out a s p o = o
  later_step true false (some c) old before out a s p o = o ∙ p ∙ sym (s refl)

  -- A field without a value leaves everything.
  later_none {ℓ} :
      {A : Type ℓ} (b m : Bool) (new old out : Option A)
      → (b ≡ true → new ≡ none)
      → out ≡ later m new old
      → out ≡ later (b || m) new old
  later_none false m new old out s o = o
  later_none true true new old out s o = o
  later_none true false none old out s o = o
  later_none true false (some c) old out s o = absurd (ground (arith, s refl))

  encode_fields_lem :
      (fields : List (Field floats.Float)) (old : Dict String String)
      → All (λ field. Keeps floats field (x field.name)) fields
      → (parameters : Dict String String) × (encode_fields u floats fields x old ≡ some parameters)
        × ((n : String) → get parameters n ≡ later (named fields n) (text_of (x n)) (get old n))
  unfolding encode_fields
  encode_fields_lem [] old keep = (old, refl, λ n. refl)
  encode_fields_lem (field ∷ fields) old (k, keep) = elim (Option-cases (x field.name)) [
    | inl e ↦
        let (parameters, done, at) = encode_fields_lem fields old keep in
        (
          parameters,
          rw (e, encode_fields) done,
          λ n.
              later_none (field.name == n) (named fields n) (text_of (x n)) (get old n)
                (get parameters n) (λ b. ap text_of (sym (same_name field.name n b) ∙ e)) (at n),
        )
    | inr (v, e) ↦
        let (s, written, _) =
          decode_value-encode_value u ascii floats laws field.target v
            (subst (Keeps floats field) e k) in
        let (parameters, done, at) = encode_fields_lem fields (put old field.name s) keep in
        (
          parameters,
          rw (e, written, encode_fields) done,
          λ n.
              later_step (field.name == n) (named fields n) (text_of (x n)) (get old n)
                (get (put old field.name s) n) (get parameters n) s
                (λ b. ap text_of (sym (same_name field.name n b) ∙ e) ∙ written)
                (get-put old field.name n s) (at n),
        )
  ]

  -- The parameters give each field the text of its value.
  abbrev Carries : Dict String String → Field floats.Float → Type 0
  Carries parameters field = get parameters field.name ≡ text_of (x field.name)

  decode_fields_lem :
      (fields : List (Field floats.Float)) (parameters : Dict String String)
      (old : Dict String (Value floats.Float))
      → All (λ field. Keeps floats field (x field.name)) fields
      → All (Carries parameters) fields
      → (values : Dict String (Value floats.Float)) × (decode_fields u floats fields parameters old
          ≡ decoded values)
        × ((n : String) → get values n ≡ later (named fields n) (x n) (get old n))
  unfolding decode_fields
  decode_fields_lem [] parameters old keep carry = (old, refl, λ n. refl)
  decode_fields_lem (field ∷ fields) parameters old (k, keep) (c, carry) =
      elim (Option-cases (x field.name)) [
        | inl e ↦
            let (values, done, at) = decode_fields_lem fields parameters old keep carry in
            (
              values,
              rw (c ∙ ap text_of e, subst (Keeps floats field) e k, decode_fields) done,
              λ n.
                  later_none (field.name == n) (named fields n) (x n) (get old n) (get values n)
                    (λ b. sym (same_name field.name n b) ∙ e) (at n),
            )
        | inr (v, e) ↦
            let (s, written, back) =
              decode_value-encode_value u ascii floats laws field.target v
                (subst (Keeps floats field) e k) in
            let (values, done, at) =
              decode_fields_lem fields parameters (put old field.name v) keep carry in
            (
              values,
              rw (c ∙ ap text_of e ∙ written, back, decode_fields) done,
              λ n.
                  later_step (field.name == n) (named fields n) (x n) (get old n)
                    (get (put old field.name v) n) (get values n) v
                    (λ b. sym (same_name field.name n b) ∙ e) (get-put old field.name n v) (at n),
            )
      ]

  later_new {ℓ} :
      {A : Type ℓ} (b : Bool) (new out : Option A) → b ≡ true → out ≡ later b new none → out ≡ new
  later_new true none out h o = o
  later_new true (some a) out h o = o
  later_new false new out h o = absurd (ground (arith, h))

  -- What holds at every name of the list holds of its fields.
  All-named :
      (P : Field floats.Float → Type 0) (fields : List (Field floats.Float))
      → ((field : Field floats.Float) → named fields field.name ≡ true → P field)
      → All P fields
  All-named P [] h = tt
  All-named P (field ∷ fields) h = (
    h field (ground (arith, string_eq.beq_iff field.name field.name)),
    All-named P fields
        (λ other m. h other (or_true (field.name == other.name) (named fields other.name) m)),
  )
    where
      or_true : (b m : Bool) → m ≡ true → (b || m) ≡ true
      or_true true m h = refl
      or_true false m h = h

  attribute_lem :
      (values : Dict String (Value floats.Float)) (field : Field floats.Float)
      (v : Option (Value floats.Float))
      → x field.name ≡ v
      → Keeps floats field v
      → get values field.name ≡ v
      → attribute values field ≡ (field.name, x field.name)
  attribute_lem values field none e k g = rw (g, k, e)
  attribute_lem values field (some v) e k g = rw (g, e)

  attributes_lem :
      (fields : List (Field floats.Float)) (values : Dict String (Value floats.Float))
      → All (λ field. Keeps floats field (x field.name)) fields
      → All (λ field. get values field.name ≡ x field.name) fields
      → map (attribute values) fields ≡ map (λ field. (field.name, x field.name)) fields
  attributes_lem [] values keep same = refl
  attributes_lem (field ∷ fields) values (k, keep) (s, same) =
      ap₂ ◌∷◌ (attribute_lem values field (x field.name) refl k s)
        (attributes_lem fields values keep same)

  pub from_parameters-to_parameters :
      (fields : List (Field floats.Float))
      → All (λ field. Keeps floats field (x field.name)) fields
      → (parameters : Dict String String) × (to_parameters u floats fields x ≡ some parameters)
        × (from_parameters u floats fields parameters
            ≡ decoded (map (λ field. (field.name, x field.name)) fields))
  unfolding to_parameters from_parameters get
  from_parameters-to_parameters fields keep =
      let (parameters, written, at) = encode_fields_lem fields [] keep in
      let carry = All-named (Carries parameters) fields (λ field m.
        later_new (named fields field.name) (text_of (x field.name)) (get parameters field.name) m
          (at field.name)) in
      let (values, back, held) = decode_fields_lem fields parameters [] keep carry in
      let same =
        All-named (λ field. get values field.name ≡ x field.name) fields
          (λ field m.
            later_new (named fields field.name) (x field.name) (get values field.name) m
              (held field.name)) in
      (
        parameters,
        written,
        ap (λ d. d >>= λ found. decoded (map (attribute found) fields)) back
            ∙ ap decoded (attributes_lem fields values keep same),
      )

  text_parameters_lem :
      (ps : Dict String String) → text_parameters (map (λ (k, v). (k, text_parameter v)) ps) ≡ ps
  unfolding text_parameters
  text_parameters_lem [] = refl
  text_parameters_lem ((k, v) ∷ ps) = ap (◌∷◌ (k, v)) (text_parameters_lem ps)

  -- An instance whose fields the codec keeps (a value that fits the field's type, or None where that is
  -- the default) is written to parameters, and the filter of the same model injects for an action with
  -- these parameters an instance with the same value in every field.
  pub data_filter-to_parameters :
      (fields : List (Field floats.Float)) (c : Common) (a : ActionFields)
      → All (λ field. Keeps floats field (x field.name)) fields
      → (parameters : Dict String String) × (to_parameters u floats fields x ≡ some parameters)
        × (data_filter u floats fields (
              event c (
                action
                  (record a { parameters = map (λ (k, v). (k, text_parameter v)) parameters })))
            ≡ matched (map (λ field. (field.name, x field.name)) fields))
  unfolding data_filter
  data_filter-to_parameters fields c a keep =
      let (parameters, written, back) = from_parameters-to_parameters fields keep in
      (
        parameters,
        written,
        ap (λ ps. answer (from_parameters u floats fields ps)) (text_parameters_lem parameters)
            ∙ ap answer back,
      )
