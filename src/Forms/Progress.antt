-- ===== src/Forms/Progress.antt =====
-- What the loop that decodes form inputs makes of the values it has collected.
use chattice.Base.{
  ◌≡◌, refl, ap, sym, ◌∙◌, String, Bool, true, false, Option, none, some, List, [], ◌∷◌,
  if◌then◌else◌, All, arith, Option-cases, inl, inr,
}
use mathlib.Core.Path.{subst}
use chattice.Base.Eq.{string_eq}
use chattice.Dict.{get, put, get-put, get-put_self}
use chattice.Events.{FormValue, FormInputs}
use chattice.Forms.{
  InputKind, strings, kind_of, same_kind, Field, Decoded, instance_of, decode_error, Values,
  decode_present, decode_input, decode_field, decode_fields,
}

-- A field that the inputs serve: its type is supported, and its input is of that type, or missing where
-- the field has a default.
abbrev pub fits_input : Bool → InputKind → Option FormValue → Bool
fits_input required kind none = if required then false else true
fits_input required kind (some value) = same_kind (kind_of value) kind

abbrev pub fits : Bool → Option InputKind → Option FormValue → Bool
fits required none input = false
fits required (some kind) input = fits_input required kind input

abbrev values_of : Decoded → Values
values_of (instance_of values) = values
values_of _ = []

abbrev Within : Values → Values → Type 0
Within a b = (k : String) (v : FormValue) → get a k ≡ some v → get b k ≡ some v

-- What a decoded instance holds for a field.
abbrev pub Holds : FormInputs → Values → Field → Type 0
Holds inputs values field =
    (fits field.required field.target (get inputs field.name) ≡ true)
    × (get values field.name ≡ get inputs field.name)

module _ (inputs : FormInputs) (after : Values) where
  -- What the loop over `fields` makes of `values`.
  abbrev Decodes : List Field → Values → Type 0
  Decodes fields values =
      Within after inputs × Within values after × All (Holds inputs after) fields

  no_error : {P : Type 0} → decode_error ≡ instance_of after → P
  no_error h = absurd (ground (arith, h))

  missing :
      (name : String)
      → Within after inputs
      → get inputs name ≡ none
      → get after name ≡ get inputs name
  missing name w e = elim (Option-cases (get after name)) [
    | inl h ↦ h ∙ sym e
    | inr (v, h) ↦ absurd (ground (arith, w name v h, e))
  ]

  put-Within :
      (values : Values) (name : String) (v : FormValue)
      → get inputs name ≡ some v
      → Within values inputs
      → Within (put values name v) inputs
  put-Within values name v e w k x h =
      ground (arith, get-put values name k v, string_eq.beq_iff name k, w k x, e)

  put-before :
      (values : Values) (name : String) (v : FormValue)
      → get inputs name ≡ some v
      → Within values inputs
      → Within values (put values name v)
  put-before values name v e w k x h =
      ground (arith, get-put values name k v, string_eq.beq_iff name k, w k x, e)

  module _ (field : Field) (fields : List Field) (values : Values) (w : Within values inputs)
      (next : (mid : Values)
        → decode_fields fields inputs mid ≡ instance_of after
        → Within mid inputs
        → Decodes fields mid) where
    absent-Decodes :
        (b : Bool)
        → field.required ≡ b
        → get inputs field.name ≡ none
        → (if b then decode_error else decode_fields fields inputs values) ≡ instance_of after
        → (fits_input field.required strings none ≡ true)
          × Within after inputs
          × Within values after
          × (get after field.name ≡ get inputs field.name)
          × All (Holds inputs after) fields
    absent-Decodes true r e h = no_error h
    absent-Decodes false r e h =
        let (within, kept, rest) = next values h w in
        (rw (r) refl, within, kept, missing field.name within e, rest)

    present-Decodes :
        (kind : InputKind) (v : FormValue) (b : Bool)
        → same_kind (kind_of v) kind ≡ b
        → get inputs field.name ≡ some v
        → (if b then decode_fields fields inputs (put values field.name v) else decode_error)
          ≡ instance_of after
        → (same_kind (kind_of v) kind ≡ true)
          × Within after inputs
          × Within values after
          × (get after field.name ≡ get inputs field.name)
          × All (Holds inputs after) fields
    present-Decodes kind v false s e h = no_error h
    present-Decodes kind v true s e h =
        let (within, kept, rest) =
          next (put values field.name v) h (put-Within values field.name v e w) in
        (
          s,
          within,
          λ k x g. kept k x (put-before values field.name v e w k x g),
          kept field.name v (get-put_self values field.name v) ∙ sym e,
          rest,
        )

    input-Decodes :
        (kind : InputKind) (o : Option FormValue)
        → field.target ≡ some kind
        → get inputs field.name ≡ o
        → decode_input field kind o values (decode_fields fields inputs) ≡ instance_of after
        → Decodes (field ∷ fields) values
    unfolding decode_input decode_present
    input-Decodes kind none t e h =
        let (f, within, kept, same, rest) = absent-Decodes field.required refl e h in
        (within, kept, ((rw (t, e) f, same), rest))
    input-Decodes kind (some v) t e h =
        let (f, within, kept, same, rest) =
          present-Decodes kind v (same_kind (kind_of v) kind) refl e h in
        (within, kept, ((rw (t, e) f, same), rest))

    field-Decodes :
        (target : Option InputKind)
        → field.target ≡ target
        → decode_field field target inputs values (decode_fields fields inputs) ≡ instance_of after
        → Decodes (field ∷ fields) values
    unfolding decode_field
    field-Decodes none t h = absurd (ground (arith, h))
    field-Decodes (some kind) t h = input-Decodes kind (get inputs field.name) t refl h

  pub fields-Decodes :
      (fields : List Field) (values : Values)
      → decode_fields fields inputs values ≡ instance_of after
      → Within values inputs
      → Decodes fields values
  unfolding decode_fields
  fields-Decodes [] values h w =
      let e : values ≡ after = ap values_of h in
      (subst (λ x. Within x inputs) e w, subst (Within values) e (λ k v g. g), tt)
  fields-Decodes (field ∷ fields) values h w =
      field-Decodes field fields values w (λ mid g m. fields-Decodes fields mid g m) field.target
        refl h
