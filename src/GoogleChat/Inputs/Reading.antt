-- ===== src/GoogleChat/Inputs/Reading.antt =====
-- What parsed form inputs hold for each widget.
use mathlib.Core.Path.{subst}
use chattice.Base.{
  ◌≤◌, ◌≡◌, refl, sym, ap, ◌∙◌, String, Bool, true, false, Option, none, some, List, [], ◌∷◌,
  if◌then◌else◌, ◌&&◌, leb, arith, Bool-cases, inl, inr,
}
use chattice.Base.Eq.{string_eq, ◌==◌}
use chattice.Base.Int.{pos}
use chattice.Base.Text.{Unicode}
use chattice.Dict.{Dict, get, put, get-put}
use chattice.Events.{FormValue, time_input, FormInputs}
use chattice.GoogleChat.Values.{
  Value, integer, mapping, dict, ok, >>=-eq-ok, Allows, if_Allows, bind-Allows,
}
use chattice.GoogleChat.Inputs.{
  string_values, epoch, optional_bool, time_value, parse_value, parse_body, parse_variants, present,
  parse_input, parse_inputs, parse_form_inputs,
}

-- A time of day.
abbrev pub InRange : FormValue → Type 0
InRange (time_input hours minutes) = (hours ≤ 23) × (minutes ≤ 59)
InRange _ = Unit

time_value-InRange : (hours minutes : Option Value) → Allows InRange (time_value hours minutes)
unfolding time_value
time_value-InRange (some (integer (pos hours))) (some (integer (pos minutes))) =
    elim (Bool-cases (leb hours 23 && leb minutes 59)) [
      | inl e ↦ rw e (ground (arith, e), ground (arith, e))
      | inr e ↦ rw e tt
    ]
time_value-InRange _ _ = tt

module _ (u : Unicode) where
  parse_value-InRange :
      (kind : String) (body : Dict String Value) → Allows InRange (parse_value u kind body)
  unfolding parse_value
  parse_value-InRange kind body =
      if_Allows InRange (kind == "stringInputs") _ _
        (bind-Allows InRange (string_values (get body "value")) _ (λ _. tt))
        (if_Allows InRange (kind == "dateInput") _ _
          (bind-Allows InRange (epoch u (get body "msSinceEpoch")) _ (λ _. tt))
          (if_Allows InRange (kind == "dateTimeInput") _ _
            (bind-Allows InRange (optional_bool (get body "hasDate")) _ (λ _.
              bind-Allows InRange (optional_bool (get body "hasTime")) _
                (λ _. bind-Allows InRange (epoch u (get body "msSinceEpoch")) _ (λ _. tt))))
            (time_value-InRange (get body "hours") (get body "minutes"))))

  parse_body-InRange :
      (kind : String) (body : Option Value) → Allows InRange (parse_body u kind body)
  unfolding parse_body
  parse_body-InRange kind (some (mapping body)) = parse_value-InRange kind (dict body)
  parse_body-InRange kind _ = tt

  parse_variants-InRange :
      (input_value : Dict String Value) (kinds : List String)
      → Allows InRange (parse_variants u input_value kinds)
  unfolding parse_variants
  parse_variants-InRange input_value [] = tt
  parse_variants-InRange input_value (kind ∷ []) = parse_body-InRange kind (get input_value kind)
  parse_variants-InRange input_value (kind ∷ other ∷ rest) = tt

  parse_input-InRange : (v : Value) → Allows InRange (parse_input u v)
  unfolding parse_input
  parse_input-InRange (mapping m) = parse_variants-InRange (dict m) (present (dict m))
  parse_input-InRange _ = tt

  -- What the loop leaves for a widget: the parse of its input, or what stood there before.
  abbrev pub Reads : Option FormValue → Option Value → Option FormValue → Type 0
  Reads before none after = after ≡ before
  Reads before (some v) after =
      (f : FormValue) × (parse_input u v ≡ ok f) × (after ≡ some f) × InRange f

  -- The keys of a dict are distinct.
  abbrev pub IsDistinct : Dict String Value → Type 0
  IsDistinct [] = Unit
  IsDistinct ((k, v) ∷ rest) = (get rest k ≡ none) × IsDistinct rest

  pair-Reads :
      (b : Bool) (before old after : Option FormValue) (later : Option Value) (v : Value)
      (f : FormValue)
      → parse_input u v ≡ ok f
      → (b ≡ true → later ≡ none)
      → old ≡ (if b then some f else before)
      → Reads old later after
      → Reads before (if b then some v else later) after
  pair-Reads false before old after none v f e d o r = r ∙ o
  pair-Reads false before old after (some w) v f e d o r = r
  pair-Reads true before old after none v f e d o r =
      (f, e, r ∙ o, subst (Allows InRange) e (parse_input-InRange v))
  pair-Reads true before old after (some w) v f e d o r = absurd (ground (arith, d refl))

  parse_inputs-Reads :
      (parsed : FormInputs) (values : Dict String Value) (widget : String) (inputs : FormInputs)
      → IsDistinct values
      → parse_inputs u parsed values ≡ ok inputs
      → Reads (get parsed widget) (get values widget) (get inputs widget)
  unfolding parse_inputs get
  parse_inputs-Reads parsed [] widget inputs d h = ground (arith, h)
  parse_inputs-Reads parsed ((j, v) ∷ values) widget inputs (d, ds) h =
      let (f, e, rest) = >>=-eq-ok (parse_input u v) _ h in
      pair-Reads (j == widget) (get parsed widget) (get (put parsed j f) widget) (get inputs widget)
        (get values widget) v f e
        (λ b. ap (get values) (sym ((string_eq.beq_iff j widget).0 b)) ∙ d)
        (get-put parsed j widget f)
        (parse_inputs-Reads (put parsed j f) values widget inputs ds rest)

  -- Form inputs parse into one value for each widget of the payload, the parse of its own input, and none
  -- for any other widget; and a time among them lies between 00:00 and 23:59.
  pub parse_form_inputs-Reads :
      (values : Dict String Value) (widget : String) (inputs : FormInputs)
      → IsDistinct values
      → parse_form_inputs u values ≡ ok inputs
      → Reads none (get values widget) (get inputs widget)
  unfolding parse_form_inputs get
  parse_form_inputs-Reads values widget inputs d h = parse_inputs-Reads [] values widget inputs d h
