-- ===== src/GoogleChat/Envelope.antt =====
-- src/chattice/adapters/google_chat/envelope.py: the envelope families of an interaction.
pub mod Merging
use chattice.Base.{
  String, Bool, true, false, Option, none, some, is_some, List, [], ◌∷◌, if◌then◌else◌, not, ◌&&◌,
  ◌||◌, any,
}
use chattice.Base.Eq.{string_eq, ◌==◌}
use chattice.Dict.{Dict, get, put, remove}
use chattice.GoogleChat.Values.{
  Value, null, boolean, integer, real, text, array, mapping, dict, fields, not_none, ParseError,
  invalid_interaction_payload, conflicting_envelope_error, unsupported_envelope_error, Result, ok,
  failed, ◌>>=◌, ◌>>◌, guard,
}

pub record NormalizedEnvelope : Type 0 where
  pub event : Dict String Value
  pub raw : Dict String Value

-- A key of the payload: a `str`, or another object.
pub data PayloadKey : Type 0 where
  str_key : String → PayloadKey
  other_key : PayloadKey

pub data Payload : Type 0 where
  mapping_payload : List (PayloadKey × Value) → Payload
  other_payload : Payload

-- dict(payload), none where a key is not a `str`
unfoldable pub string_keys : List (PayloadKey × Value) → Option (Dict String Value)
string_keys [] = some []
string_keys ((other_key, v) ∷ rest) = none
string_keys ((str_key k, v) ∷ rest) = elim (string_keys rest) [
  | none ↦ none
  | some d ↦ some ((k, v) ∷ d)
]

abbrev pub is_mapping : Option Value → Bool
is_mapping (some (mapping m)) = true
is_mapping _ = false

-- The keys that the merge of a direct and a wrapped event leaves out.
abbrev pub reserved : String → Bool
reserved k = k == "chat" || k == "commonEventObject" || k == "common" || k == "type"

-- `same` is Python's `==` on the values.
module _ (same : Value → Value → Bool) where
  -- One turn of the loop over `raw.items()`.
  unfoldable pub merge_field :
      Dict String Value → String → Value → Option Value → Result (Dict String Value)
  merge_field event k v (some w) = if same w v then ok event else failed conflicting_envelope_error
  merge_field event k v none = ok (put event k v)

  unfoldable pub merge_fields : Dict String Value → Dict String Value → Result (Dict String Value)
  merge_fields event [] = ok event
  merge_fields event ((k, v) ∷ raw) = elim (reserved k) [
    | true ↦ merge_fields event raw
    | false ↦ merge_field event k v (get event k) >>= λ merged. merge_fields merged raw
  ]

  unfoldable pub merge_direct :
      Dict String Value → Dict String Value → Option Value → Value → Result (Dict String Value)
  merge_direct raw wrapped none wrapped_type = ok wrapped
  merge_direct raw wrapped (some direct_type) wrapped_type =
      if same direct_type wrapped_type
      then merge_fields wrapped raw
      else failed conflicting_envelope_error

  unfoldable pub wrapped_event :
      Dict String Value
      → Option Value
      → Dict String Value
      → Option Value
      → Result (Dict String Value)
  wrapped_event raw direct_type wrapped none = failed unsupported_envelope_error
  wrapped_event raw direct_type wrapped (some wrapped_type) =
      merge_direct raw wrapped direct_type wrapped_type

  -- The event before its `common` part is settled.
  unfoldable pub select_event :
      Dict String Value → Option Value → Option Value → Result (Dict String Value)
  select_event raw none none = failed unsupported_envelope_error
  select_event raw (some direct_type) none = ok (remove raw "commonEventObject")
  select_event raw direct_type (some (mapping m)) =
      wrapped_event raw direct_type (dict m) (not_none (get (dict m) "type"))
  select_event raw direct_type (some _) = failed unsupported_envelope_error

  unfoldable pub settle_common :
      Dict String Value → Option Value → Option Value → Result (Dict String Value)
  settle_common event none none = ok event
  settle_common event (some inner) none =
      if is_mapping (some inner) then ok event else failed invalid_interaction_payload
  settle_common event none (some outer) =
      if is_mapping (some outer)
      then ok (put event "common" outer)
      else failed invalid_interaction_payload
  settle_common event (some inner) (some outer) =
      if is_mapping (some inner) && is_mapping (some outer)
      then (if same inner outer
          then ok (put event "common" outer)
          else failed conflicting_envelope_error)
      else failed invalid_interaction_payload

  unfoldable pub normalize_mapping : Dict String Value → Result NormalizedEnvelope
  normalize_mapping raw = do
    event ← select_event raw (not_none (get raw "type")) (not_none (get raw "chat"))
    settled ←
        settle_common event (not_none (get event "common")) (not_none (get raw "commonEventObject"))
    ok (record { event = settled; raw = raw })

  unfoldable pub normalize_keyed : Option (Dict String Value) → Result NormalizedEnvelope
  normalize_keyed none = failed invalid_interaction_payload
  normalize_keyed (some raw) = normalize_mapping raw

  unfoldable pub normalize_envelope : Payload → Result NormalizedEnvelope
  normalize_envelope other_payload = failed invalid_interaction_payload
  normalize_envelope (mapping_payload items) = normalize_keyed (string_keys items)
