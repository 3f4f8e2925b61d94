-- ===== src/Fsm/Context/Routing.antt =====
-- Which state filters match after a handler has changed the state.
use mathlib.Core.Path.{subst}
use chattice.Base.{
  ◌≡◌, ◌≢◌, ◌↔◌, ◌⊎◌, refl, sym, ap, ◌∙◌, String, true, false, some, List, [], ◌∷◌, any, str_eq,
  eq_iff, arith, Bool-cases, inl, inr,
}
use mathlib.Core.Option.{some-injective}
use chattice.Fsm.Key.{StorageKey}
use chattice.Fsm.Contract.{set_state_call, finish_call}
use chattice.Fsm.Context.{BaseStorage, get_state, get_data, call, in_states, state_filter}

-- The states of a filter admit a state: there are none, or it is one of them.
abbrev pub IsIn : String → List String → Type 0
IsIn state [] = ⊥
IsIn state (x ∷ xs) = (state ≡ x) ⊎ IsIn state xs

abbrev pub Admits : List String → String → Type 0
Admits states state = (states ≡ []) ⊎ IsIn state states

any-IsIn :
    (states : List String) (state : String) → (any (str_eq state) states ≡ true) ↔ IsIn state states
any-IsIn [] state = ((λ h. absurd (ground (arith, h))), (λ h. absurd h))
any-IsIn (x ∷ xs) state = (
  (λ h. elim (Bool-cases (str_eq state x)) [
    | inl e ↦ inl ((eq_iff state x).0 e)
    | inr e ↦ inr ((any-IsIn xs state).0 (ground (arith, h, e)))
  ]),
  (λ h. elim h [
    | inl e ↦ rw ((eq_iff state x).1 e) refl
    | inr m ↦ ground (arith, (any-IsIn xs state).1 m)
  ]),
)

in_states-Admits :
    (states : List String) (state : String)
    → (in_states states (some state) ≡ true) ↔ Admits states state
unfolding in_states
in_states-Admits [] state = ((λ h. inl refl), (λ h. refl))
in_states-Admits (x ∷ xs) state = (
  (λ h. inr ((any-IsIn (x ∷ xs) state).0 h)),
  (λ h. elim h [ inl e ↦ absurd (ground (arith, e)) | inr m ↦ (any-IsIn (x ∷ xs) state).1 m ]),
)

module _ {S : Type 0} ⦃storage : BaseStorage S⦄ where
  -- After a handler has set the state of an event's context, the state filters of a later event with
  -- the same key match exactly when they name that state or no state at all; after it has finished
  -- the conversation none of them matches and no data is left. An event with another key sees
  -- neither.
  pub state_filter-call :
      (key j : StorageKey) (state : String) (states : List String) (s t u : S)
      → key ≢ j
      → call (some key) (set_state_call (some state)) s ≡ some t
      → call (some key) finish_call s ≡ some u
      → ((state_filter states (some (some key)) t ≡ true) ↔ Admits states state)
        × (state_filter states (some (some key)) u ≡ false)
        × (get_data (some key) u ≡ [])
        × (state_filter states (some (some j)) t ≡ state_filter states (some (some j)) s)
        × (state_filter states (some (some j)) u ≡ state_filter states (some (some j)) s)
  unfolding call state_filter get_state get_data in_states
  state_filter-call key j state states s t u ne set ended =
      let set_is : storage.perform s key (set_state_call (some state)) ≡ t =
        some-injective _ _ set in
      let ended_is : storage.perform s key finish_call ≡ u = some-injective _ _ ended in
      (
        subst (λ b. (b ≡ true) ↔ Admits states state)
            (sym (
              ap (λ x. in_states states (storage.get_state x key)) (sym set_is)
              ∙ ap (λ v. in_states states v.0)
                  (storage.perform_self s key (set_state_call (some state)))))
            (in_states-Admits states state),
        ap (λ x. in_states states (storage.get_state x key)) (sym ended_is)
            ∙ ap (λ v. in_states states v.0) (storage.perform_self s key finish_call),
        ap (λ x. storage.get_data x key) (sym ended_is)
            ∙ ap (λ v. v.1) (storage.perform_self s key finish_call),
        ap (λ x. in_states states (storage.get_state x j)) (sym set_is)
            ∙ ap (λ v. in_states states v.0)
                (storage.perform_ne s key j (set_state_call (some state)) ne),
        ap (λ x. in_states states (storage.get_state x j)) (sym ended_is)
            ∙ ap (λ v. in_states states v.0) (storage.perform_ne s key j finish_call ne),
      )
