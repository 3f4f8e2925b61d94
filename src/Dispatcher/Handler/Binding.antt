-- ===== src/Dispatcher/Handler/Binding.antt =====
-- The arguments that a handler is called with.
use chattice.Base.{
  String, ◌≡◌, refl, ap, Bool, true, false, Option, none, some, and_then, List, [], ◌∷◌, arith,
  is_some, any, All, ◌⊎◌, if◌then◌else◌, Bool-cases, Option-cases, inl, inr,
}
use mathlib.Core.Path.{subst}
use mathlib.Core.Bool.{◌&&◌}
use mathlib.Core.Option.{some-injective}
use chattice.Base.Eq.{string_eq}
use chattice.Dict.{Dict, put, get, get-put, get-put_self}
use chattice.Exceptions.{dependency_resolution_error}
use chattice.Events.{Event}
use chattice.Effects.{raised, raise}
use chattice.Dispatcher.Filters.{untagged}
use chattice.Dispatcher.Handler.{
  EventClass, is_instance, listed, event_aliases, context_argument, ParameterPlan, Argument,
  event_argument, bind_parameter, bind_parameters, Handler, call_with, invoke_plan, by_name,
  by_context, by_default,
}

module _ {V : Type 0} where
  -- The parameter is bound, or the callback has a default for it.
  abbrev pub IsServed : Dict String (Argument V) → ParameterPlan → Type 0
  IsServed kwargs p = (is_some (get kwargs p.name) ≡ true) ⊎ (p.has_default ≡ true)

module _ {V : Type 0} (e : Event) (data_ : Dict String V) where
  abbrev Kwargs : Type 0
  Kwargs = Dict String (Argument V)

  -- Each name that `a` binds is bound in `b`.
  abbrev Covers : Kwargs → Kwargs → Type 0
  Covers a b = (k : String) → is_some (get a k) ≡ true → is_some (get b k) ≡ true

  put-Covers : (a : Kwargs) (k : String) (x : Argument V) → Covers a (put a k x)
  put-Covers a k x j h = ground (arith, get-put a k j x)

  by_default-lem :
      (p : ParameterPlan) (kwargs after : Kwargs)
      → by_default p kwargs ≡ some after
      → Covers kwargs after × IsServed after p
  unfolding by_default
  by_default-lem p kwargs after h = elim (Bool-cases p.has_default) [
    | inl d ↦ ground (arith, d)
    | inr d ↦ ground (arith, d)
  ]

  put-IsServed :
      (p : ParameterPlan) (kwargs : Kwargs) (x : Argument V)
      → Covers kwargs (put kwargs p.name x) × IsServed (put kwargs p.name x) p
  put-IsServed p kwargs x = (put-Covers kwargs p.name x, inl (rw (get-put_self) refl))

  IsServed-by :
      (p : ParameterPlan) (kwargs after : Kwargs) (x : Argument V)
      → some (put kwargs p.name x) ≡ some after
      → Covers kwargs after × IsServed after p
  IsServed-by p kwargs after x h =
      subst (λ a. Covers kwargs a × IsServed a p) (some-injective _ _ h) (put-IsServed p kwargs x)

  by_context-lem :
      (p : ParameterPlan) (o : Option V) (kwargs after : Kwargs)
      → by_context p o kwargs ≡ some after
      → Covers kwargs after × IsServed after p
  unfolding by_context
  by_context-lem p none kwargs after h = by_default-lem p kwargs after h
  by_context-lem p (some v) kwargs after h = IsServed-by p kwargs after (context_argument v) h

  by_test :
      (b : Bool) (p : ParameterPlan) (kwargs after : Kwargs) (x : Argument V) (o : Option Kwargs)
      → (o ≡ some after → Covers kwargs after × IsServed after p)
      → (if b then some (put kwargs p.name x) else o) ≡ some after
      → Covers kwargs after × IsServed after p
  by_test true p kwargs after x o k h = IsServed-by p kwargs after x h
  by_test false p kwargs after x o k h = k h

  bind_parameter-lem :
      (p : ParameterPlan) (classes : List EventClass) (kwargs after : Kwargs)
      → bind_parameter e data_ p classes kwargs ≡ some after
      → Covers kwargs after × IsServed after p
  unfolding bind_parameter by_name
  bind_parameter-lem p [] kwargs after h =
      by_test (p.event_alias && listed p.name (event_aliases e)) p kwargs after (event_argument e)
        (by_context p (get data_ p.name) kwargs) (by_context-lem p (get data_ p.name) kwargs after)
        h
  bind_parameter-lem p (class ∷ classes) kwargs after h =
      by_test (any (is_instance e) (class ∷ classes)) p kwargs after (event_argument e) none
        (λ g. ground (arith, g)) h

  IsServed-Covers : (p : ParameterPlan) (a b : Kwargs) → Covers a b → IsServed a p → IsServed b p
  IsServed-Covers p a b c (inl bound) = inl (c p.name bound)
  IsServed-Covers p a b c (inr default) = inr default

  bind_rest-Covers :
      (p : ParameterPlan) (ps : List ParameterPlan) (kwargs after : Kwargs) (o : Option Kwargs)
      → ((mid : Kwargs) → o ≡ some mid → Covers kwargs mid × IsServed mid p)
      → ((mid : Kwargs)
          → bind_parameters e data_ ps mid ≡ some after
          → Covers mid after × All (IsServed after) ps)
      → and_then o (bind_parameters e data_ ps) ≡ some after
      → Covers kwargs after × All (IsServed after) (p ∷ ps)
  bind_rest-Covers p ps kwargs after none one rest h = ground (arith, h)
  bind_rest-Covers p ps kwargs after (some mid) one rest h =
      let (c, served) = one mid refl in
      let (c', all_served) = rest mid h in
      (λ k g. c' k (c k g), (IsServed-Covers p mid after c' served, all_served))

  -- Binding all the parameters leaves each of them bound or with a default, and forgets no binding.
  bind_parameters-Covers :
      (ps : List ParameterPlan) (kwargs after : Kwargs)
      → bind_parameters e data_ ps kwargs ≡ some after
      → Covers kwargs after × All (IsServed after) ps
  unfolding bind_parameters
  bind_parameters-Covers [] kwargs after h =
      (λ k g. subst (λ a. is_some (get a k) ≡ true) (some-injective _ _ h) g, tt)
  bind_parameters-Covers (p ∷ ps) kwargs after h =
      bind_rest-Covers p ps kwargs after (bind_parameter e data_ p p.event_types kwargs)
        (bind_parameter-lem p p.event_types kwargs) (λ mid. bind_parameters-Covers ps mid after) h

module _ {W V R : Type 0} (handler : Handler W V R) (e : Event) (data_ : Dict String V) where
  -- Whenever a handler is invoked, either its callback is called with arguments that bind every
  -- parameter without a default, or it is not called and the invocation raises a
  -- `DependencyResolutionError` and leaves the world as it is.
  pub invoke_plan-IsServed :
      (w : W)
      → ((kwargs : Dict String (Argument V)) × (invoke_plan handler e data_ w
            ≡ call_with handler (some kwargs) w)
          × All (IsServed kwargs) handler.parameters)
        ⊎ (invoke_plan handler e data_ w ≡ (raised (untagged dependency_resolution_error), w))
  unfolding invoke_plan call_with raise
  invoke_plan-IsServed w = elim (Option-cases (bind_parameters e data_ handler.parameters [])) [
    | inl h ↦ inr (ap (λ o. call_with handler o w) h)
    | inr (kwargs, h) ↦ inl (
      kwargs,
      ap (λ o. call_with handler o w) h,
      (bind_parameters-Covers e data_ handler.parameters [] kwargs h).1,
    )
  ]
