-- ===== src/Forms/Matching.antt =====
-- When the filter of a form model matches an event.
use chattice.Base.{◌≡◌, ◌↔◌, refl, ap, ◌∙◌, Option, none, some, List, All, arith}
use chattice.Base.Eq.{string_eq}
use chattice.Events.{
  Event, event, error, FormInputs, action, form_submit, message, command, added_to_space,
  removed_from_space, app_home, widget_updated, unknown,
}
use chattice.Forms.{
  Field, Decoded, instance_of, decode_error, type_error, Values, from_form_inputs, no_match, form,
  answer, form_filter,
}
use chattice.Forms.Decoding.{instance-Holds}
use chattice.Forms.Progress.{Holds}

-- The inputs of the two kinds of events that carry a form.
abbrev pub submitted : Event → Option FormInputs
submitted (event c (action f)) = some f.form_inputs
submitted (event c (form_submit f)) = some f.form_inputs
submitted e = none

abbrev option_or : {A : Type 0} → Option A → A → A
option_or none a = a
option_or (some x) a = x

answer_lem : (d : Decoded) (values : Values) → answer d ≡ form values → d ≡ instance_of values
answer_lem (instance_of v) values h = ground (arith, h)
answer_lem decode_error values h = absurd (ground (arith, h))
answer_lem type_error values h = absurd (ground (arith, h))

module _ (fields : List Field) (values : Values) where
  -- What an event with these inputs has to provide.
  abbrev Match : Option FormInputs → Type 0
  Match found =
      (inputs : FormInputs) × (found ≡ some inputs)
      × (from_form_inputs fields inputs ≡ instance_of values)
      × All (Holds inputs values) fields

  decoded-Match :
      (inputs : FormInputs)
      → (answer (from_form_inputs fields inputs) ≡ form values) ↔ Match (some inputs)
  decoded-Match inputs = (
    (λ h.
        let e = answer_lem (from_form_inputs fields inputs) values h in
        (inputs, refl, e, instance-Holds inputs fields values e)),
    (λ (found, same, e, _).
        ap (λ i. answer (from_form_inputs fields (option_or i inputs))) same ∙ ap answer e),
  )

  mismatch : (no_match ≡ form values) ↔ Match none
  mismatch =
      ((λ h. absurd (ground (arith, h))), (λ (found, same, _, _). absurd (ground (arith, same))))

-- The filter of a form model injects an instance exactly for an action or a form submission whose
-- inputs decode into it, and then each field of the instance holds the value of its input.
form_filter-submitted :
    (fields : List Field) (e : Event) (values : Values)
    → (form_filter fields e ≡ form values) ↔ (
        (inputs : FormInputs) × (submitted e ≡ some inputs)
        × (from_form_inputs fields inputs ≡ instance_of values)
        × All (Holds inputs values) fields)
unfolding form_filter
form_filter-submitted fields (event c (action f)) values = decoded-Match fields values f.form_inputs
form_filter-submitted fields (event c (form_submit f)) values =
    decoded-Match fields values f.form_inputs
form_filter-submitted fields (event c (message _)) values = mismatch fields values
form_filter-submitted fields (event c (command _)) values = mismatch fields values
form_filter-submitted fields (event c added_to_space) values = mismatch fields values
form_filter-submitted fields (event c removed_from_space) values = mismatch fields values
form_filter-submitted fields (event c app_home) values = mismatch fields values
form_filter-submitted fields (event c (widget_updated _)) values = mismatch fields values
form_filter-submitted fields (event c (unknown _)) values = mismatch fields values
form_filter-submitted fields (error c source_event failure) values = mismatch fields values
