-- ===== src/GoogleChat/Parser/Actions/Agreement.antt =====
-- The two places of an interaction that may name its action, and what is read.
use mathlib.Core.Path.{subst}
use mathlib.Core.List.{append-nil, append_assoc}
use chattice.Base.{
  ◌≡◌, refl, sym, ap, ◌∙◌, ◌⊎◌, inl, inr, String, true, false, Option, none, some, and_then, List,
  [], ◌∷◌, ◌++◌, map, arith, Bool-cases, Option-cases,
}
use chattice.Base.Eq.{string_eq, option_eq, ◌==◌}
use chattice.Base.Text.{Unicode, is_empty}
use chattice.Dict.{Dict, get, put, has}
use chattice.GoogleChat.Values.{Result, ok, failed, >>=-eq-ok}
use chattice.GoogleChat.Inputs.{parse_form_inputs}
use chattice.GoogleChat.Models.{ActionParameterModel, FormActionModel, CommonEventModel}
use chattice.GoogleChat.Parser.Actions.{
  collect, fallback_parameters, subset, dict_eq, agree_parameters, given, agree_functions,
  CommonAction, common_parameters, raw_inputs, common_action,
}

-- The parameters of the action as they stand in the list.
abbrev pub listed : Option FormActionModel → Dict String String
listed none = []
listed (some a) = map (λ p. (p.key, p.value)) a.parameters

put-append :
    (d : Dict String String) (k v : String) → has d k ≡ false → put d k v ≡ d ++ (k, v) ∷ []
unfolding put has get
put-append [] k v h = refl
put-append ((j, w) ∷ d) k v h = elim (Bool-cases (j == k)) [
  | inl e ↦ absurd (ground (arith, h, e))
  | inr e ↦ rw e (ap (◌∷◌ (j, w)) (put-append d k v (ground (arith, h, e))))
]

collect-append :
    (found : Dict String String) (ps : List ActionParameterModel) (d : Dict String String)
    → collect found ps ≡ ok d
    → d ≡ found ++ map (λ p. (p.key, p.value)) ps
unfolding collect
collect-append found [] d h = ground (arith, h, append-nil found)
collect-append found (p ∷ ps) d h = elim (Bool-cases (has found p.key)) [
  | inl e ↦ absurd (ground (arith, h, e))
  | inr e ↦
      collect-append (put found p.key p.value) ps d (ground (arith, h, e))
      ∙ ap (λ x. x ++ map (λ q. (q.key, q.value)) ps) (put-append found p.key p.value e)
      ∙ append_assoc found ((p.key, p.value) ∷ []) (map (λ q. (q.key, q.value)) ps)
]

fallback_parameters-listed :
    (action : Option FormActionModel) (d : Dict String String)
    → fallback_parameters action ≡ ok d
    → d ≡ listed action
unfolding fallback_parameters
fallback_parameters-listed none d h = ground (arith, h)
fallback_parameters-listed (some a) d h = collect-append [] a.parameters d h

some_lem : (o : Option String) (w : String) → (o == some w) ≡ true → o ≡ some w
some_lem none w h = ground (arith, h)
some_lem (some v) w h = ap some ((string_eq.beq_iff v w).0 h)

subset-get :
    (a b : Dict String String) (k v : String)
    → subset a b ≡ true
    → get a k ≡ some v
    → get b k ≡ some v
unfolding get
subset-get [] b k v s h = absurd (ground (arith, h))
subset-get ((j, w) ∷ a) b k v s h = elim (Bool-cases (j == k)) [
  | inl e ↦
      ap (get b) (sym ((string_eq.beq_iff j k).0 e))
      ∙ some_lem (get b j) w (ground (arith, s))
      ∙ ground (arith, h, e)
  | inr e ↦ subset-get a b k v (ground (arith, s)) (ground (arith, h, e))
]

dict_eq-get : (a b : Dict String String) (k : String) → dict_eq a b ≡ true → get a k ≡ get b k
dict_eq-get a b k h = elim (Option-cases (get a k)) [
  | inr (v, e) ↦ e ∙ sym (subset-get a b k v (ground (arith, h)) e)
  | inl e ↦ elim (Option-cases (get b k)) [
    | inl f ↦ e ∙ sym f
    | inr (w, f) ↦ subset-get b a k w (ground (arith, h)) f ∙ sym f
  ]
]

-- A source names nothing, or what is read.
abbrev pub Agrees : String → String → Type 0
Agrees source read = (is_empty source ≡ true) ⊎ (source ≡ read)

abbrev pub AgreesAt : String → Dict String String → Dict String String → Type 0
AgreesAt k source read = (source ≡ []) ⊎ (get source k ≡ get read k)

agree_parameters-AgreesAt :
    (common fallback read : Dict String String) (k : String)
    → agree_parameters common fallback ≡ ok read
    → AgreesAt k common read × AgreesAt k fallback read × ((read ≡ common) ⊎ (read ≡ fallback))
unfolding agree_parameters
agree_parameters-AgreesAt [] fallback read k h =
    let e : fallback ≡ read = ground (arith, h) in
    (inl refl, inr (ap (λ d. get d k) e), inr (sym e))
agree_parameters-AgreesAt (c ∷ common) [] read k h =
    let e : c ∷ common ≡ read = ground (arith, h) in
    (inr (ap (λ d. get d k) e), inl refl, inl (sym e))
agree_parameters-AgreesAt (c ∷ common) (f ∷ fallback) read k h =
    elim (Bool-cases (dict_eq (c ∷ common) (f ∷ fallback))) [
      | inl same ↦
          let e : c ∷ common ≡ read = ground (arith, h, same) in
          (
            inr (ap (λ d. get d k) e),
            inr (sym (dict_eq-get (c ∷ common) (f ∷ fallback) k same) ∙ ap (λ d. get d k) e),
            inl (sym e),
          )
      | inr differ ↦ absurd (ground (arith, h, differ))
    ]

agree_functions-Agrees :
    (common fallback read : String)
    → agree_functions common fallback ≡ ok read
    → Agrees common read × Agrees fallback read × ((read ≡ common) ⊎ (read ≡ fallback))
unfolding agree_functions
agree_functions-Agrees common fallback read h = elim (Bool-cases (is_empty common)) [
  | inl e ↦ let same : fallback ≡ read = ground (arith, h, e) in (inl e, inr same, inr (sym same))
  | inr e ↦ elim (Bool-cases (is_empty fallback)) [
    | inl f ↦
        let same : common ≡ read = ground (arith, h, e, f) in (inr same, inl f, inl (sym same))
    | inr f ↦ elim (Bool-cases (common == fallback)) [
      | inl g ↦
          let same : common ≡ read = ground (arith, h, e, f, g) in
          (inr same, inr (sym ((string_eq.beq_iff common fallback).0 g) ∙ same), inl (sym same))
      | inr g ↦ absurd (ground (arith, h, e, f, g))
    ]
  ]
]

abbrev read_action : CommonAction → Result CommonAction → CommonAction
read_action a (ok b) = b
read_action a (failed e) = a

-- The action that is read agrees with both places that may name it: each names no function or the one
-- that is read, and has no parameters or at every key the value that is read, and what is read is that of
-- one of them; the parameters of the action keep their order; and the form inputs are those of the common
-- part.
pub common_action-Agrees :
    (u : Unicode) (common : Option CommonEventModel) (action : Option FormActionModel)
    (a : CommonAction) (k : String)
    → common_action u common action ≡ ok a
    → let c = given (and_then common (λ x. x.invoked_function)) in
      let f = given (and_then action (λ x. x.action_method_name)) in
      (Agrees c a.function_name
        × Agrees f a.function_name
        × ((a.function_name ≡ c) ⊎ (a.function_name ≡ f)))
      × (AgreesAt k (common_parameters common) a.parameters
          × AgreesAt k (listed action) a.parameters
          × ((a.parameters ≡ common_parameters common) ⊎ (a.parameters ≡ listed action)))
      × (parse_form_inputs u (raw_inputs common) ≡ ok a.form_inputs)
unfolding common_action
common_action-Agrees u common action a k h =
    let (inputs, parsed, h1) = >>=-eq-ok (parse_form_inputs u (raw_inputs common)) _ h in
    let (fallback, collected, h2) = >>=-eq-ok (fallback_parameters action) _ h1 in
    let (parameters, agreed, h3) =
      >>=-eq-ok (agree_parameters (common_parameters common) fallback) _ h2 in
    let (name, named, h4) =
      >>=-eq-ok
        (agree_functions (given (and_then common (λ x. x.invoked_function)))
          (given (and_then action (λ x. x.action_method_name))))
        _ h3 in
    let final = ap (read_action a) h4 in
    let l = fallback_parameters-listed action fallback collected in
    (
      subst
          (λ n.
            Agrees (given (and_then common (λ x. x.invoked_function))) n
            × Agrees (given (and_then action (λ x. x.action_method_name))) n
            × ((n ≡ given (and_then common (λ x. x.invoked_function)))
                ⊎ (n ≡ given (and_then action (λ x. x.action_method_name)))))
          (ap (λ x. x.function_name) final) (agree_functions-Agrees _ _ name named),
      subst
          (λ d.
            AgreesAt k (common_parameters common) d
            × AgreesAt k (listed action) d
            × ((d ≡ common_parameters common) ⊎ (d ≡ listed action)))
          (ap (λ x. x.parameters) final)
          (subst
            (λ q.
              AgreesAt k (common_parameters common) parameters
              × AgreesAt k q parameters
              × ((parameters ≡ common_parameters common) ⊎ (parameters ≡ q)))
            l (agree_parameters-AgreesAt (common_parameters common) fallback parameters k agreed)),
      parsed ∙ ap (λ x. ok x.form_inputs) final,
    )
