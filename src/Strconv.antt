-- ===== src/Strconv.antt =====
-- Go's `strconv.FormatUint(n, 10)` and `strconv.ParseUint(s, 10, 64)`, which db/kv.go stores the
-- sync points by.
pub mod RoundTrip
use Prim.Native.Char.{Char, code}
use lorenzo_btcstaking_submi.Base.{
  ℕ, zero, suc, ◌+◌, ◌-◌, ◌*◌, ◌/◌, ◌%◌, String, Bool, ◌&&◌, ltb, leb, ◌==◌, u64_mod, if◌then◌else◌,
  Result, ok, err, Error, message,
}

digit_char : ℕ → Char
digit_char zero = "0"
digit_char (suc zero) = "1"
digit_char (suc (suc zero)) = "2"
digit_char (suc (suc (suc zero))) = "3"
digit_char (suc (suc (suc (suc zero)))) = "4"
digit_char (suc (suc (suc (suc (suc zero))))) = "5"
digit_char (suc (suc (suc (suc (suc (suc zero)))))) = "6"
digit_char (suc (suc (suc (suc (suc (suc (suc zero))))))) = "7"
digit_char (suc (suc (suc (suc (suc (suc (suc (suc zero)))))))) = "8"
digit_char _ = "9"

-- The digits of `n`, last one first, in front of `acc`.
format_digits : ℕ → ℕ → String → String
format_digits zero n acc = acc
format_digits (suc f) n acc =
    let shown = String.◌∷◌ (digit_char (n % 10)) acc in
    let more = format_digits f (n / 10) shown in if n / 10 == 0 then shown else more

unfoldable pub format_uint : ℕ → String
unfolding format_digits digit_char
format_uint n = format_digits (suc n) n ""

abbrev pub syntax_error : Error
syntax_error = message "invalid syntax"

abbrev pub range_error : Error
range_error = message "value out of range"

is_digit : Char → Bool
is_digit c = leb b'0' (code c) && leb (code c) b'9'

parse_digits : ℕ → String → Result ℕ
unfolding is_digit
parse_digits n String.[] = ok n
parse_digits n (String.◌∷◌ c rest) =
    let next = n * 10 + (code c - b'0') in
    let more = parse_digits next rest in
    if is_digit c then (if ltb next u64_mod then more else err range_error) else err syntax_error

unfoldable pub parse_uint : String → Result ℕ
unfolding parse_digits
parse_uint String.[] = err syntax_error
parse_uint (String.◌∷◌ c rest) = parse_digits 0 (String.◌∷◌ c rest)
