-- ===== src/Forms/Decoding.antt =====
-- When form inputs decode into a model.
use chattice.Base.{
  ◌≡◌, ◌↔◌, refl, true, Option, none, some, List, [], ◌∷◌, All, arith, Bool-cases, inl, inr,
}
use chattice.Base.Eq.{string_eq}
use chattice.Dict.{get, put}
use chattice.Events.{FormValue, FormInputs}
use chattice.Forms.{
  InputKind, Field, Decoded, instance_of, decode_error, type_error, Values, decode_present,
  decode_input, decode_field, decode_fields, from_form_inputs,
}
use chattice.Forms.Progress.{fits_input, fits, Holds, fields-Decodes}

abbrev pub IsInstance : Decoded → Type 0
IsInstance (instance_of values) = Unit
IsInstance decode_error = ⊥
IsInstance type_error = ⊥

instance_lem : (d : Decoded) → IsInstance d → ((values : Values) × (d ≡ instance_of values))
instance_lem (instance_of values) i = (values, refl)
instance_lem decode_error i = absurd i
instance_lem type_error i = absurd i

abbrev Fits : FormInputs → Field → Type 0
Fits inputs field = fits field.required field.target (get inputs field.name) ≡ true

module _ (inputs : FormInputs) where
  input-IsInstance :
      (field : Field) (kind : InputKind) (o : Option FormValue) (values : Values)
      (rest : Values → Decoded)
      → fits_input field.required kind o ≡ true
      → ((mid : Values) → IsInstance (rest mid))
      → IsInstance (decode_input field kind o values rest)
  unfolding decode_input decode_present
  input-IsInstance field kind none values rest f next = elim (Bool-cases field.required) [
    | inl needed ↦ absurd (ground (arith, f, needed))
    | inr optional ↦ rw (decode_input, optional) (next values)
  ]
  input-IsInstance field kind (some v) values rest f next =
      rw (decode_input, decode_present, f) (next (put values field.name v))

  field-IsInstance :
      (field : Field) (target : Option InputKind) (values : Values) (rest : Values → Decoded)
      → fits field.required target (get inputs field.name) ≡ true
      → ((mid : Values) → IsInstance (rest mid))
      → IsInstance (decode_field field target inputs values rest)
  unfolding decode_field
  field-IsInstance field none values rest f next = absurd (ground (arith, f))
  field-IsInstance field (some kind) values rest f next =
      input-IsInstance field kind (get inputs field.name) values rest f next

  fields-IsInstance :
      (fields : List Field) (values : Values)
      → All (Fits inputs) fields
      → IsInstance (decode_fields fields inputs values)
  unfolding decode_fields
  fields-IsInstance [] values h = tt
  fields-IsInstance (field ∷ fields) values (f, fs) =
      field-IsInstance field field.target values (decode_fields fields inputs) f
        (λ mid. fields-IsInstance fields mid fs)

  pub instance-Holds :
      (fields : List Field) (values : Values)
      → from_form_inputs fields inputs ≡ instance_of values
      → All (Holds inputs values) fields
  unfolding from_form_inputs get
  instance-Holds fields values e =
      (fields-Decodes inputs values fields [] e (λ k v g. ground (arith, g))).2

  served :
      (values : Values) (fields : List Field)
      → All (Holds inputs values) fields
      → All (Fits inputs) fields
  served values [] h = tt
  served values (field ∷ fields) ((f, _), hs) = (f, served values fields hs)

  -- Form inputs decode into an instance of a model exactly when they serve each of its fields: the type
  -- of the field is supported, and its input is of that type, or missing where the field has a default.
  -- The instance then holds for each field the value of its input, and nothing where that is missing.
  pub from_form_inputs-Holds :
      (fields : List Field)
      → All (λ field. fits field.required field.target (get inputs field.name) ≡ true) fields ↔ (
          (values : Values) × (from_form_inputs fields inputs ≡ instance_of values)
          × All (Holds inputs values) fields)
  unfolding from_form_inputs
  from_form_inputs-Holds fields = (
    (λ f.
        let (values, e) =
          instance_lem (decode_fields fields inputs []) (fields-IsInstance fields [] f) in
        (values, e, instance-Holds fields values e)),
    (λ h. served h.0 fields h.2),
  )
