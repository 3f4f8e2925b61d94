-- ===== src/Base/Text.antt =====
-- What Python does with texts: `strip`, `isdigit`, `int(...)` of a text and `str(...)` of an integer.
pub mod Laws
use Prim.Native.Char.{Char, code}
use Prim.Native.Nat.{ℕ, zero, suc, ◌+◌, ◌*◌, ◌/◌, ◌%◌, ◌<◌}
use Prim.Native.String.{String}
use mathlib.Core.Path.{◌≡◌}
use mathlib.Core.Bool.{Bool, true, false, not, ◌&&◌, ◌||◌}
use mathlib.Core.Option.{Option, none, some}
use chattice.Base.Tests.{if◌then◌else◌, ltb, leb, nat_beq, and_then}
use chattice.Base.Int.{ℤ, pos, negsuc}

-- The white space of `str.strip`.
abbrev pub is_space : ℕ → Bool
is_space c =
    (leb 9 c && leb c 13)
    || (leb 28 c && leb c 32)
    || nat_beq c 0x85
    || nat_beq c 0xA0
    || nat_beq c 0x1680
    || (leb 0x2000 c && leb c 0x200A)
    || nat_beq c 0x2028
    || nat_beq c 0x2029
    || nat_beq c 0x202F
    || nat_beq c 0x205F
    || nat_beq c 0x3000

abbrev pub is_empty : String → Bool
is_empty String.[] = true
is_empty (String.◌∷◌ c s) = false

unfoldable pub lstrip : String → String
lstrip String.[] = String.[]
lstrip (String.◌∷◌ c s) = let rest = lstrip s in if is_space (code c) then rest else String.◌∷◌ c s

unfoldable pub rstrip : String → String
rstrip String.[] = String.[]
rstrip (String.◌∷◌ c s) =
    let rest = rstrip s in
    if is_space (code c) && is_empty rest then String.[] else String.◌∷◌ c rest

unfoldable pub strip : String → String
unfolding lstrip rstrip
strip s = rstrip (lstrip s)

-- The tables of Unicode that `int` and `str.isdigit` read: the value of a decimal digit of any script,
-- and the characters that `isdigit` accepts.
pub record Unicode : Type 0 where
  pub decimal : ℕ → Option ℕ
  pub is_digit : ℕ → Bool

-- ASCII has the ten digits, and no other character of it is one.
pub record HasAscii (u : Unicode) : Type 0 where
  pub decimal_digit : (d : ℕ) → d < 10 → u.decimal (48 + d) ≡ some d
  pub decimal_minus : u.decimal 45 ≡ none
  pub decimal_plus : u.decimal 43 ≡ none

abbrev pub all_digits : Unicode → String → Bool
all_digits u String.[] = true
all_digits u (String.◌∷◌ c s) = u.is_digit (code c) && all_digits u s

-- s.isdigit()
abbrev pub isdigit : Unicode → String → Bool
isdigit u s = not (is_empty s) && all_digits u s

-- The digits of `int(...)`, with single underscores between them; `need` says that a digit has to come.
unfoldable pub read_digits : Unicode → Bool → ℕ → String → Option ℕ
read_digits u need n String.[] = if need then none else some n
read_digits u need n (String.◌∷◌ c s) = elim (u.decimal (code c)) [
  | some d ↦ read_digits u false (n * 10 + d) s
  | none ↦ elim (not need && nat_beq (code c) 95) [ true ↦ read_digits u true n s | false ↦ none ]
]

abbrev pub negated : ℕ → ℤ
negated zero = pos 0
negated (suc n) = negsuc n

-- The sign, and then the digits.
unfoldable pub read_signed : Unicode → String → Option ℤ
unfolding read_digits
read_signed u String.[] = none
read_signed u (String.◌∷◌ c s) =
    if nat_beq (code c) 45
    then and_then (read_digits u true 0 s) (λ n. some (negated n))
    else if nat_beq (code c) 43
    then and_then (read_digits u true 0 s) (λ n. some (pos n))
    else and_then (read_digits u true 0 (String.◌∷◌ c s)) (λ n. some (pos n))

-- int(s), none for a `ValueError`
unfoldable pub int_of_text : Unicode → String → Option ℤ
unfolding read_signed strip
int_of_text u s = read_signed u (strip s)

abbrev pub digit_char : ℕ → Char
digit_char zero = "0"
digit_char (suc zero) = "1"
digit_char (suc (suc zero)) = "2"
digit_char (suc (suc (suc zero))) = "3"
digit_char (suc (suc (suc (suc zero)))) = "4"
digit_char (suc (suc (suc (suc (suc zero))))) = "5"
digit_char (suc (suc (suc (suc (suc (suc zero)))))) = "6"
digit_char (suc (suc (suc (suc (suc (suc (suc zero))))))) = "7"
digit_char (suc (suc (suc (suc (suc (suc (suc (suc zero)))))))) = "8"
digit_char (suc (suc (suc (suc (suc (suc (suc (suc (suc d))))))))) = "9"

-- The digits of n before `rest`; n digits are more than enough.
unfoldable pub write_digits : ℕ → ℕ → String → String
write_digits zero n rest = rest
write_digits (suc fuel) n rest =
    let more = write_digits fuel (n / 10) (String.◌∷◌ (digit_char (n % 10)) rest) in
    if ltb n 10 then String.◌∷◌ (digit_char n) rest else more

abbrev pub nat_text : ℕ → String
unfolding write_digits
nat_text n = write_digits (suc n) n String.[]

-- str(n)
unfoldable pub text_of_int : ℤ → String
unfolding nat_text
text_of_int (pos n) = nat_text n
text_of_int (negsuc n) = String.◌∷◌ "-" (nat_text (suc n))
