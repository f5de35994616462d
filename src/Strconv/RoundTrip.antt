-- ===== src/Strconv/RoundTrip.antt =====
-- `ParseUint` after `FormatUint`.
use Prim.Native.Char.{code}
use lorenzo_btcstaking_submi.Base.{
  ℕ, zero, suc, ◌+◌, ◌-◌, ◌*◌, ◌/◌, ◌%◌, ◌<◌, String, ◌≡◌, refl, ap, ◌∙◌, inl, inr, true, arith,
  ◌==◌, ==_iff, u64_mod, Bool-cases, ok,
}
use lorenzo_btcstaking_submi.Strconv.{
  digit_char, is_digit, format_digits, format_uint, parse_digits, parse_uint,
}

code-digit_char : (d : ℕ) → d < 10 → code (digit_char d) ≡ d + 48
unfolding digit_char
code-digit_char zero h = refl
code-digit_char (suc zero) h = refl
code-digit_char (suc (suc zero)) h = refl
code-digit_char (suc (suc (suc zero))) h = refl
code-digit_char (suc (suc (suc (suc zero)))) h = refl
code-digit_char (suc (suc (suc (suc (suc zero))))) h = refl
code-digit_char (suc (suc (suc (suc (suc (suc zero)))))) h = refl
code-digit_char (suc (suc (suc (suc (suc (suc (suc zero))))))) h = refl
code-digit_char (suc (suc (suc (suc (suc (suc (suc (suc zero)))))))) h = refl
code-digit_char (suc (suc (suc (suc (suc (suc (suc (suc (suc zero))))))))) h = refl
code-digit_char (suc (suc (suc (suc (suc (suc (suc (suc (suc (suc d)))))))))) h =
    absurd (omega arith)

is_digit-digit_char : (d : ℕ) → d < 10 → is_digit (digit_char d) ≡ true
unfolding is_digit
is_digit-digit_char d h = ground (arith, code-digit_char d h)

-- One digit read in front of a text.
parse_digits-digit_char :
    (n d : ℕ) (acc : String)
    → d < 10
    → n * 10 + d < u64_mod
    → parse_digits n (String.◌∷◌ (digit_char d) acc) ≡ parse_digits (n * 10 + d) acc
unfolding parse_digits
parse_digits-digit_char n d acc h fits =
    let same : d + 48 - 48 ≡ d = omega arith in rw (code-digit_char d h, same) (ground arith)

parse_digits-format_digits :
    (f n : ℕ) (acc : String)
    → n < f
    → n < u64_mod
    → parse_digits 0 (format_digits f n acc) ≡ parse_digits n acc
unfolding format_digits
parse_digits-format_digits zero n acc h fits = elim h [ ]
parse_digits-format_digits (suc f) n acc h fits = elim (Bool-cases (n / 10 == 0)) [
  | inl last ↦
      let small : n / 10 ≡ 0 = (==_iff _ _).0 last in
      rw last (
        parse_digits-digit_char 0 (n % 10) acc (omega arith) (omega arith)
        ∙ ap (λ m. parse_digits m acc) (omega arith))
  | inr more ↦ rw more (
      parse_digits-format_digits f (n / 10) _ (ground arith) (omega arith)
      ∙ parse_digits-digit_char (n / 10) (n % 10) acc (omega arith) (omega arith)
      ∙ ap (λ m. parse_digits m acc) (omega arith))
]

-- The text of a number is not empty, so `parse_uint` reads its digits.
parse_uint-format_digits :
    (f n : ℕ) (acc : String)
    → parse_uint (format_digits (suc f) n acc) ≡ parse_digits 0 (format_digits (suc f) n acc)
unfolding format_digits parse_uint
parse_uint-format_digits zero n acc = ground arith
parse_uint-format_digits (suc f) n acc = elim (Bool-cases (n / 10 == 0)) [
  | inl last ↦ rw last refl
  | inr more ↦ rw more (parse_uint-format_digits f (n / 10) _)
]

-- A number below 2^64 survives being written as decimal text and read again.
pub parse_uint-format_uint : (n : ℕ) → n < u64_mod → parse_uint (format_uint n) ≡ ok n
unfolding format_uint parse_digits
parse_uint-format_uint n fits =
    parse_uint-format_digits n n "" ∙ parse_digits-format_digits (suc n) n "" (omega arith) fits
