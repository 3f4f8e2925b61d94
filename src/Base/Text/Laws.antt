-- ===== src/Base/Text/Laws.antt =====
-- `int` against `str`, and `strip` of a stripped text.
use Prim.Native.Char.{Char, code}
use Prim.Native.Nat.{ℕ, zero, suc, ◌+◌, ◌*◌, ◌/◌, ◌%◌, ◌<◌, ◌≤◌}
use Prim.Native.String.{String, ◌++◌}
use mathlib.Core.Path.{◌≡◌, refl, sym, ap, ◌∙◌}
use mathlib.Core.Bool.{Bool, true, false, ◌&&◌}
use mathlib.Core.Logic.{inl, inr}
use mathlib.Core.Option.{some}
use native.Mathlib.Omega.{arith}
use text.Mathlib.TextLemmas.{nil-append, cons-append}
use chattice.Base.Tests.{ltb, Bool-cases, and_then}
use chattice.Base.Int.{ℤ, pos, negsuc}
use chattice.Base.Text.{
  is_space, is_empty, lstrip, rstrip, strip, Unicode, HasAscii, read_digits, negated, read_signed,
  int_of_text, digit_char, write_digits, nat_text, text_of_int,
}

code-digit_char : (d : ℕ) → d < 10 → code (digit_char d) ≡ 48 + d
code-digit_char zero h = refl
code-digit_char (suc zero) h = refl
code-digit_char (suc (suc zero)) h = refl
code-digit_char (suc (suc (suc zero))) h = refl
code-digit_char (suc (suc (suc (suc zero)))) h = refl
code-digit_char (suc (suc (suc (suc (suc zero))))) h = refl
code-digit_char (suc (suc (suc (suc (suc (suc zero)))))) h = refl
code-digit_char (suc (suc (suc (suc (suc (suc (suc zero))))))) h = refl
code-digit_char (suc (suc (suc (suc (suc (suc (suc (suc zero)))))))) h = refl
code-digit_char (suc (suc (suc (suc (suc (suc (suc (suc (suc zero))))))))) h = refl
code-digit_char (suc (suc (suc (suc (suc (suc (suc (suc (suc (suc d)))))))))) h =
    absurd (omega arith)

-- No white space anywhere.
abbrev IsSolid : String → Type 0
IsSolid String.[] = Unit
IsSolid (String.◌∷◌ c s) = (is_space (code c) ≡ false) × IsSolid s

lstrip-IsSolid : (s : String) → IsSolid s → lstrip s ≡ s
unfolding lstrip
lstrip-IsSolid String.[] h = refl
lstrip-IsSolid (String.◌∷◌ c s) (h, hs) = rw h

rstrip-IsSolid : (s : String) → IsSolid s → rstrip s ≡ s
unfolding rstrip
rstrip-IsSolid String.[] h = refl
rstrip-IsSolid (String.◌∷◌ c s) (h, hs) = rw h (ap (String.◌∷◌ c) (rstrip-IsSolid s hs))

strip-IsSolid : (s : String) → IsSolid s → strip s ≡ s
unfolding strip
strip-IsSolid s h = ap rstrip (lstrip-IsSolid s h) ∙ rstrip-IsSolid s h

digit-IsSolid : (d : ℕ) → d < 10 → is_space (code (digit_char d)) ≡ false
digit-IsSolid d h = rw (code-digit_char d h) (ground arith)

write_digits-IsSolid :
    (fuel n : ℕ) (rest : String) → IsSolid rest → IsSolid (write_digits fuel n rest)
unfolding write_digits
write_digits-IsSolid zero n rest h = h
write_digits-IsSolid (suc fuel) n rest h = elim (Bool-cases (ltb n 10)) [
  | inl small ↦ rw small (digit-IsSolid n (ground arith), h)
  | inr large ↦
      rw large (write_digits-IsSolid fuel (n / 10) _ (digit-IsSolid (n % 10) (omega arith), h))
]

-- A text of digits begins with a digit, not with a sign.
abbrev BeginsDigit : String → Type 0
BeginsDigit String.[] = ⊥
BeginsDigit (String.◌∷◌ c s) = (48 ≤ code c) × (code c < 58)

write_digits-BeginsDigit :
    (fuel n : ℕ) (rest : String) → n < fuel → BeginsDigit (write_digits fuel n rest)
unfolding write_digits
write_digits-BeginsDigit zero n rest h = absurd (omega arith)
write_digits-BeginsDigit (suc fuel) n rest h = elim (Bool-cases (ltb n 10)) [
  | inl small ↦ rw small (
      let e : code (digit_char n) ≡ 48 + n = code-digit_char n (ground arith) in
      (omega arith, ground arith))
  | inr large ↦ rw large (write_digits-BeginsDigit fuel (n / 10) _ (ground arith))
]

module _ (u : Unicode) (ascii : HasAscii u) where
  read_digit :
      (need : Bool) (n d : ℕ) (s : String)
      → d < 10
      → read_digits u need n (String.◌∷◌ (digit_char d) s) ≡ read_digits u false (n * 10 + d) s
  unfolding read_digits
  read_digit need n d s h =
      let e : u.decimal (code (digit_char d)) ≡ some d =
        ap u.decimal (code-digit_char d h) ∙ ascii.decimal_digit d h in
      rw (e, read_digits)

  read_digits-write_digits :
      (fuel n : ℕ) (rest : String)
      → n < fuel
      → read_digits u true 0 (write_digits fuel n rest) ≡ read_digits u false n rest
  unfolding write_digits
  read_digits-write_digits zero n rest h = absurd (omega arith)
  read_digits-write_digits (suc fuel) n rest h = elim (Bool-cases (ltb n 10)) [
    | inl small ↦ rw small (
        read_digit true 0 n rest (ground arith)
        ∙ ap (λ (m : ℕ). read_digits u false m rest) (omega arith))
    | inr large ↦ rw large (
        read_digits-write_digits fuel (n / 10) _ (ground arith)
        ∙ read_digit false (n / 10) (n % 10) rest (omega arith)
        ∙ ap (λ (m : ℕ). read_digits u false m rest) (omega arith))
  ]

  read-nat_text : (n : ℕ) → read_digits u true 0 (nat_text n) ≡ some n
  unfolding nat_text read_digits
  read-nat_text n = read_digits-write_digits (suc n) n String.[] (omega arith)

  read_signed-digits :
      (s : String)
      → BeginsDigit s
      → read_signed u s ≡ and_then (read_digits u true 0 s) (λ n. some (pos n))
  unfolding read_signed
  read_signed-digits String.[] b = absurd b
  read_signed-digits (String.◌∷◌ c s) b = ground arith

  -- int(str(n)) == n
  pub int_of_text-text_of_int : (n : ℤ) → int_of_text u (text_of_int n) ≡ some n
  unfolding int_of_text text_of_int nat_text read_signed
  int_of_text-text_of_int (pos n) =
      ap (read_signed u) (strip-IsSolid (nat_text n) (write_digits-IsSolid (suc n) n String.[] tt))
      ∙ read_signed-digits (nat_text n) (write_digits-BeginsDigit (suc n) n String.[] (omega arith))
      ∙ ap (λ o. and_then o (λ m. some (pos m))) (read-nat_text n)
  int_of_text-text_of_int (negsuc n) =
      ap (read_signed u) (
        strip-IsSolid (String.◌∷◌ "-" (nat_text (suc n)))
          (refl, write_digits-IsSolid (suc (suc n)) (suc n) String.[] tt))
      ∙ ap (λ o. and_then o (λ m. some (negated m))) (read-nat_text (suc n))

-- A text that begins with no white space, and one that ends with none.
abbrev pub BeginsSolid : String → Type 0
BeginsSolid String.[] = Unit
BeginsSolid (String.◌∷◌ c s) = is_space (code c) ≡ false

lstrip-BeginsSolid : (s : String) → BeginsSolid (lstrip s)
unfolding lstrip
lstrip-BeginsSolid String.[] = tt
lstrip-BeginsSolid (String.◌∷◌ c s) = elim (Bool-cases (is_space (code c))) [
  | inl e ↦ rw e (lstrip-BeginsSolid s)
  | inr e ↦ rw e e
]

lstrip_solid : (s : String) → BeginsSolid s → lstrip s ≡ s
unfolding lstrip
lstrip_solid String.[] h = refl
lstrip_solid (String.◌∷◌ c s) h = rw h

rstrip-BeginsSolid : (s : String) → BeginsSolid s → BeginsSolid (rstrip s)
unfolding rstrip
rstrip-BeginsSolid String.[] h = tt
rstrip-BeginsSolid (String.◌∷◌ c s) h = rw h h

rstrip_idem : (s : String) → rstrip (rstrip s) ≡ rstrip s
unfolding rstrip
rstrip_idem String.[] = refl
rstrip_idem (String.◌∷◌ c s) = elim (Bool-cases (is_space (code c) && is_empty (rstrip s))) [
  | inl e ↦ rw e
  | inr e ↦ rw e (rw (rstrip_idem s, e))
]

pub strip_idem : (s : String) → strip (strip s) ≡ strip s
unfolding strip
strip_idem s =
    ap rstrip (lstrip_solid (strip s) (rstrip-BeginsSolid (lstrip s) (lstrip-BeginsSolid s)))
    ∙ rstrip_idem (lstrip s)

append-not_empty : (s t : String) → is_empty t ≡ false → is_empty (s ++ t) ≡ false
append-not_empty String.[] t n = rw (nil-append t) n
append-not_empty (String.◌∷◌ c s) t n = rw (cons-append c s t) refl

rstrip-append : (s t : String) → rstrip t ≡ t → is_empty t ≡ false → rstrip (s ++ t) ≡ s ++ t
unfolding rstrip
rstrip-append String.[] t h n = rw (nil-append t) h
rstrip-append (String.◌∷◌ c s) t h n =
    let same = rstrip-append s t h n in
    let full : is_empty (rstrip (s ++ t)) ≡ false = ap is_empty same ∙ append-not_empty s t n in
    let off : (is_space (code c) && is_empty (rstrip (s ++ t))) ≡ false = ground (arith, full) in
    rw (cons-append c s t) (rw off (ap (String.◌∷◌ c) same))

-- A stripped text stays as it is behind a text that begins with no white space.
pub strip-append :
    (c : Char) (s t : String)
    → is_space (code c) ≡ false
    → strip t ≡ t
    → is_empty t ≡ false
    → strip (String.◌∷◌ c s ++ t) ≡ String.◌∷◌ c s ++ t
unfolding strip
strip-append c s t h e n =
    let right : rstrip t ≡ t = ap rstrip (sym e) ∙ rstrip_idem (lstrip t) ∙ e in
    let begins : BeginsSolid (String.◌∷◌ c s ++ t) = rw (cons-append c s t) h in
    ap rstrip (lstrip_solid (String.◌∷◌ c s ++ t) begins) ∙ rstrip-append (String.◌∷◌ c s) t right n
