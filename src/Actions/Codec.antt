-- ===== src/Actions/Codec.antt =====
-- The values of a field's type and their texts.
use chattice.Base.{◌≡◌, refl, ap, String, true, false, some}
use chattice.Base.Text.{Unicode, HasAscii, text_of_int}
use chattice.Base.Text.Laws.{int_of_text-text_of_int}
use chattice.Actions.{
  Floats, ReadsRepr, Target, str_type, int_type, float_type, bool_type, enum_type, decoded, ◌>>=◌,
  read, find_member, encode_member, Value, text, integer, real, boolean, member, encode_value,
  decode_value,
}

-- The values of a type that its texts stand for: a finite float, and a member that its value's text finds
-- in the enumeration and that is written as that text.
abbrev pub Fits : (floats : Floats) → Target → Value floats.Float → Type 0
Fits floats str_type (text s) = Unit
Fits floats int_type (integer n) = Unit
Fits floats float_type (real x) = floats.isfinite x ≡ true
Fits floats bool_type (boolean b) = Unit
Fits floats (enum_type members) (member m) =
    (find_member members m.value_text ≡ some m)
    × (encode_member m.value_text m.mixin ≡ some m.value_text)
Fits floats _ _ = ⊥

module _ (u : Unicode) (ascii : HasAscii u) (floats : Floats) (laws : ReadsRepr floats) where
  pub decode_value-encode_value :
      (target : Target) (v : Value floats.Float)
      → Fits floats target v
      → (s : String) × (encode_value u floats v ≡ some s)
        × (decode_value u floats s target ≡ decoded v)
  unfolding encode_value decode_value
  decode_value-encode_value str_type (text s) fit = (s, refl, refl)
  decode_value-encode_value int_type (integer n) fit = (
    text_of_int n,
    refl,
    ap (λ o. read o >>= λ m. decoded (integer m)) (int_of_text-text_of_int u ascii n),
  )
  decode_value-encode_value float_type (real x) fit =
      (floats.repr x, rw fit, rw (laws.float-repr x fit, fit))
  decode_value-encode_value bool_type (boolean true) fit = ("true", refl, refl)
  decode_value-encode_value bool_type (boolean false) fit = ("false", refl, refl)
  decode_value-encode_value (enum_type members) (member m) (found, written) =
      (m.value_text, written, ap (λ o. read o >>= λ x. decoded (member x)) found)
  decode_value-encode_value _ v fit = absurd fit
