-- ===== src/GoogleChat/Envelope/Merging.antt =====
-- What a normalized envelope holds, whichever family it came in.
use chattice.Base.{
  ◌≡◌, refl, sym, ap, ◌∙◌, String, Bool, true, false, Option, none, some, List, [], ◌∷◌,
  if◌then◌else◌, not, arith, Bool-cases, Option-cases, inl, inr,
}
use mathlib.Core.Path.{subst}
use chattice.Base.Eq.{string_eq, ◌==◌}
use chattice.Dict.{Dict, get, put, get-put, get-put_self, get-remove}
use chattice.GoogleChat.Values.{
  Value, null, boolean, integer, real, text, array, mapping, dict, not_none, failed, Result, ok,
  ◌>>=◌, >>=-eq-ok,
}
use chattice.GoogleChat.Envelope.{
  NormalizedEnvelope, reserved, is_mapping, merge_field, merge_fields, merge_direct, wrapped_event,
  select_event, settle_common, normalize_mapping, PayloadKey, mapping_payload, string_keys,
  normalize_keyed, normalize_envelope,
}

-- A field of the event: the wrapped one, or the direct one where no wrapped one stands.
abbrev pub either_field : Option Value → Bool → Option Value → Option Value
either_field (some w) r direct = some w
either_field none true direct = none
either_field none false direct = direct

-- Whether a field stands in both events with different values.
abbrev pub clash : (Value → Value → Bool) → Bool → Option Value → Option Value → Bool
clash same false (some w) (some v) = not (same w v)
clash same _ _ _ = false

module _ (same : Value → Value → Bool) where
  -- What the loop leaves at a key, from what stood there in the event and in the payload.
  abbrev Joined : Option Value → Bool → Option Value → Option Value → Type 0
  Joined event r direct merged =
      (merged ≡ either_field event r direct) × (clash same r event direct ≡ false)

  reserved-Joined :
      (b r : Bool) (event direct merged : Option Value) (v : Value)
      → (b ≡ true → r ≡ true)
      → Joined event r direct merged
      → Joined event r (if b then some v else direct) merged
  reserved-Joined false r event direct merged v same_key (m, c) = (m, c)
  reserved-Joined true true none direct merged v same_key (m, c) = (m, refl)
  reserved-Joined true true (some w) direct merged v same_key (m, c) = (m, refl)
  reserved-Joined true false event direct merged v same_key (m, c) =
      absurd (ground (arith, same_key refl))

  kept-Joined :
      (b r : Bool) (event direct merged : Option Value) (v w : Value)
      → (b ≡ true → event ≡ some w)
      → same w v ≡ true
      → Joined event r direct merged
      → Joined event r (if b then some v else direct) merged
  kept-Joined false r event direct merged v w same_key eq (m, c) = (m, c)
  kept-Joined true r event direct merged v w same_key eq (m, c) =
      let e = same_key refl in (ground (arith, e, m), ground (arith, e, eq))

  added-Joined :
      (b r : Bool) (event direct merged : Option Value) (v : Value)
      → (b ≡ true → (event ≡ none) × (r ≡ false))
      → Joined (if b then some v else event) r direct merged
      → Joined event r (if b then some v else direct) merged
  added-Joined false r event direct merged v same_key (m, c) = (m, c)
  added-Joined true r event direct merged v same_key (m, c) =
      let (e, f) = same_key refl in (ground (arith, e, f, m), ground (arith, e, f))

  same_reserved : (j k : String) {b : Bool} → reserved j ≡ b → (j == k) ≡ true → reserved k ≡ b
  same_reserved j k r h = ap reserved (sym ((string_eq.beq_iff j k).0 h)) ∙ r

  same_get :
      (event : Dict String Value) (j k : String) {o : Option Value}
      → get event j ≡ o
      → (j == k) ≡ true
      → get event k ≡ o
  same_get event j k e h = ap (get event) (sym ((string_eq.beq_iff j k).0 h)) ∙ e

  module _ (raw : Dict String Value) (k : String) (merged : Dict String Value)
      (next : (event : Dict String Value)
        → merge_fields same event raw ≡ ok merged
        → Joined (get event k) (reserved k) (get raw k) (get merged k)) where
    field-Joined :
        (event : Dict String Value) (j : String) (v : Value) (found : Option Value)
        → reserved j ≡ false
        → get event j ≡ found
        → (merge_field same event j v found >>= λ later. merge_fields same later raw) ≡ ok merged
        → Joined (get event k) (reserved k) (if j == k then some v else get raw k) (get merged k)
    unfolding merge_field
    field-Joined event j v none r e h =
        let put_lem = get-put event j k v in
        added-Joined (j == k) (reserved k) (get event k) (get raw k) (get merged k) v
          (λ b. (same_get event j k e b, same_reserved j k r b))
          (subst (λ o. Joined o (reserved k) (get raw k) (get merged k)) put_lem
            (next (put event j v) h))
    field-Joined event j v (some w) r e h = elim (Bool-cases (same w v)) [
      | inl eq ↦
          kept-Joined (j == k) (reserved k) (get event k) (get raw k) (get merged k) v w
            (same_get event j k e) eq (next event (ground (arith, h, eq)))
      | inr ne ↦ absurd (ground (arith, h, ne))
    ]

  merge_fields-Joined :
      (event raw : Dict String Value) (k : String) (merged : Dict String Value)
      → merge_fields same event raw ≡ ok merged
      → Joined (get event k) (reserved k) (get raw k) (get merged k)
  unfolding merge_fields get
  merge_fields-Joined event [] k merged h = elim (Option-cases (get event k)) [
    | inl e ↦ ground (arith, e, h)
    | inr (w, e) ↦ ground (arith, e, h)
  ]
  merge_fields-Joined event ((j, v) ∷ raw) k merged h = elim (Bool-cases (reserved j)) [
    | inl r ↦
        reserved-Joined (j == k) (reserved k) (get event k) (get raw k) (get merged k) v
          (same_reserved j k r) (merge_fields-Joined event raw k merged (ground (arith, h, r)))
    | inr r ↦
        field-Joined raw k merged (λ e. merge_fields-Joined e raw k merged) event j v (get event j)
          r refl (ground (arith, h, r))
  ]

-- The field of the event that the payload stands for: that of the payload itself, or of the wrapped event,
-- which a direct event completes.
abbrev pub field_of : Dict String Value → Option Value → Option Value → String → Option Value
field_of raw (some (mapping m)) (some t) k = either_field (get (dict m) k) (reserved k) (get raw k)
field_of raw (some (mapping m)) none k = get (dict m) k
field_of raw none t k = if "commonEventObject" == k then none else get raw k
field_of raw _ t k = none

abbrev pub clash_of :
    (Value → Value → Bool) → Dict String Value → Option Value → Option Value → String → Bool
clash_of same raw (some (mapping m)) (some t) k =
    clash same (reserved k) (get (dict m) k) (get raw k)
clash_of same raw _ _ k = false

-- The common part: the outer one where it stands.
abbrev pub common_of : Option Value → Option Value → Option Value
common_of inner (some outer) = some outer
common_of inner none = inner

abbrev pub differ : (Value → Value → Bool) → Option Value → Option Value → Bool
differ same (some inner) (some outer) = not (same inner outer)
differ same _ _ = false

-- The type of the wrapped event.
abbrev pub wrapped_type_of : Option Value → Option Value
wrapped_type_of (some (mapping m)) = not_none (get (dict m) "type")
wrapped_type_of _ = none

module _ (same : Value → Value → Bool) where
  -- What the event has to be at a key before its common part is settled.
  abbrev Selected :
      Dict String Value → Option Value → Option Value → String → Dict String Value → Type 0
  Selected raw chat t k event =
      (get event k ≡ field_of raw chat t k)
      × (clash_of same raw chat t k ≡ false)
      × (differ same t (wrapped_type_of chat) ≡ false)

  wrapped-Selected :
      (raw : Dict String Value) (k : String) (event : Dict String Value) (m : _)
      (t found : Option Value)
      → wrapped_event same raw t (dict m) found ≡ ok event
      → (get event k ≡ field_of raw (some (mapping m)) t k)
        × (clash_of same raw (some (mapping m)) t k ≡ false)
        × (differ same t found ≡ false)
  unfolding wrapped_event merge_direct
  wrapped-Selected raw k event m t none h = absurd (ground (arith, h))
  wrapped-Selected raw k event m none (some found) h = ground (arith, h)
  wrapped-Selected raw k event m (some t) (some found) h = elim (Bool-cases (same t found)) [
    | inl eq ↦
        let (here, no_clash) =
          merge_fields-Joined same (dict m) raw k event (ground (arith, h, eq)) in
        (here, no_clash, rw eq refl)
    | inr ne ↦ absurd (ground (arith, h, ne))
  ]

  select_event-Selected :
      (raw : Dict String Value) (k : String) (event : Dict String Value) (t chat : Option Value)
      → select_event same raw t chat ≡ ok event
      → Selected raw chat t k event
  unfolding select_event
  select_event-Selected raw k event none none h = absurd (ground (arith, h))
  select_event-Selected raw k event (some t) none h =
      ground (arith, h, get-remove raw "commonEventObject" k)
  select_event-Selected raw k event t (some (mapping m)) h =
      wrapped-Selected raw k event m t (not_none (get (dict m) "type")) h
  select_event-Selected raw k event t (some null) h = absurd (ground (arith, h))
  select_event-Selected raw k event t (some (boolean _)) h = absurd (ground (arith, h))
  select_event-Selected raw k event t (some (integer _)) h = absurd (ground (arith, h))
  select_event-Selected raw k event t (some (real _)) h = absurd (ground (arith, h))
  select_event-Selected raw k event t (some (text _)) h = absurd (ground (arith, h))
  select_event-Selected raw k event t (some (array _)) h = absurd (ground (arith, h))

  put-common :
      (event : Dict String Value) (k : String) (m : _)
      → (k == "common") ≡ false
      → (get (put event "common" (mapping m)) k ≡ get event k)
        × (not_none (get (put event "common" (mapping m)) "common") ≡ some (mapping m))
  put-common event k m ne = (
    ground (
      arith,
      get-put event "common" k (mapping m),
      string_eq.beq_iff "common" k,
      string_eq.beq_iff k "common",
    ),
    rw (get-put_self event "common" (mapping m)) refl,
  )

  settle_common-differ :
      (event settled : Dict String Value) (k : String) (inner outer : Option Value)
      → not_none (get event "common") ≡ inner
      → settle_common same event inner outer ≡ ok settled
      → (k == "common") ≡ false
      → (get settled k ≡ get event k)
        × (not_none (get settled "common") ≡ common_of inner outer)
        × (differ same inner outer ≡ false)
  unfolding settle_common
  settle_common-differ event settled k none none e h ne = ground (arith, e, h)
  settle_common-differ event settled k (some inner) none e h ne =
      elim (Bool-cases (is_mapping (some inner))) [
        | inl i ↦ ground (arith, e, h, i)
        | inr i ↦ absurd (ground (arith, h, i))
      ]
  settle_common-differ event settled k none (some (mapping m)) e h ne =
      ground (arith, h, put-common event k m ne)
  settle_common-differ event settled k (some (mapping i)) (some (mapping m)) e h ne =
      ground (arith, h, put-common event k m ne)
  settle_common-differ event settled k inner outer e h ne = absurd (ground (arith, h))

  abbrev envelope_of : NormalizedEnvelope → Result NormalizedEnvelope → NormalizedEnvelope
  envelope_of n (ok m) = m
  envelope_of n (failed e) = n

  -- What the payload `raw` makes of the event, at `k` and at the common part.
  abbrev pub Describes : Dict String Value → String → Dict String Value → Type 0
  Describes raw k event =
      let chat = not_none (get raw "chat") in
      let t = not_none (get raw "type") in
      let inner = not_none (field_of raw chat t "common") in
      let outer = not_none (get raw "commonEventObject") in
      (get event k ≡ field_of raw chat t k)
      × (clash_of same raw chat t k ≡ false)
      × (differ same t (wrapped_type_of chat) ≡ false)
      × (not_none (get event "common") ≡ common_of inner outer)
      × (differ same inner outer ≡ false)

  normalize_mapping-Describes :
      (raw : Dict String Value) (n : NormalizedEnvelope) (k : String)
      → normalize_mapping same raw ≡ ok n
      → (k == "common") ≡ false
      → (n.raw ≡ raw) × Describes raw k n.event
  unfolding normalize_mapping
  normalize_mapping-Describes raw n k h ne =
      let chat = not_none (get raw "chat") in
      let t = not_none (get raw "type") in
      let outer = not_none (get raw "commonEventObject") in
      let (event, selected, rest) = >>=-eq-ok (select_event same raw t chat) _ h in
      let (settled, settles, done) =
        >>=-eq-ok (settle_common same event (not_none (get event "common")) outer) _ rest in
      let final = ap (envelope_of n) done in
      let (here, no_clash, one_type) = select_event-Selected raw k event t chat selected in
      let (inner, _, _) = select_event-Selected raw "common" event t chat selected in
      let (kept, common, agree) =
        settle_common-differ event settled k (not_none (get event "common")) outer refl settles
          ne in
      subst (λ m. (m.raw ≡ raw) × Describes raw k m.event) final
        (
          refl,
          (
            kept ∙ here,
            no_clash,
            one_type,
            common ∙ ap (λ o. common_of (not_none o) outer) inner,
            ap (λ o. differ same (not_none o) outer) (sym inner) ∙ agree,
          ),
        )

  -- A normalized envelope: every field but the common part is that of the payload, or of the wrapped
  -- event completed by the direct one; the types of the two do not differ, nor does any other field that both
  -- have, but for "chat", "common" and "commonEventObject"; and the common part is the outer one where it stands
  -- and else the event's own, and the two do not differ where both stand.
  pub normalize_envelope-Describes :
      (items : List (PayloadKey × Value)) (n : NormalizedEnvelope) (k : String)
      → normalize_envelope same (mapping_payload items) ≡ ok n
      → (k == "common") ≡ false
      → (string_keys items ≡ some n.raw) × Describes n.raw k n.event
  unfolding normalize_envelope normalize_keyed
  normalize_envelope-Describes items n k h ne = elim (Option-cases (string_keys items)) [
    | inl e ↦ absurd (ground (arith, h, e))
    | inr (raw, e) ↦
        let (same_raw, described) = normalize_mapping-Describes raw n k (ground (arith, h, e)) ne in
        (e ∙ ap some (sym same_raw), subst (λ r. Describes r k n.event) (sym same_raw) described)
  ]
