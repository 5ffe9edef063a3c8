-- ===== src/Json/Printer/Numbers.antt =====
-- `formatJSNumber` and `exponentString` of internal/orderedjson/orderedjson.go.
use homer_cli.Base.{
  ℕ, zero, suc, ◌+◌, ◌-◌, ◌/◌, ◌%◌, ◌^◌, String, Bool, ◌||◌, [], ◌∷◌, ◌++◌, ltb, leb, ◌==◌, length,
  if◌then◌else◌,
}
use homer_cli.Base.Bytes.{Bytes, bytes_of}
use homer_cli.Base.Integers.{ℤ, pos, negsuc}
use homer_cli.Json.Numbers.{FloatParser, is_nan, is_zero}

-- The parts of the text that `strconv.FormatFloat(value, 'e', -1, 64)` gives: whether it begins with
-- a minus sign, what stands before its `e`, and the number behind it.
pub record Scientific : Type 0 where
  pub negative : Bool
  pub mantissa : Bytes
  pub exponent : ℤ

-- `FormatFloat`, at the 64 bits of a double.
pub record FloatPrinter : Type 0 where
  pub format_float : ℕ → Scientific

-- strconv.Itoa
unfoldable pub decimal_loop : ℕ → ℕ → Bytes → Bytes
decimal_loop zero n digits = digits
decimal_loop (suc fuel) n digits =
    let rest = decimal_loop fuel (n / 10) ((b'0' + n % 10) ∷ digits) in
    if ltb n 10 then (b'0' + n) ∷ digits else rest

unfoldable pub decimal : ℕ → Bytes
decimal n = decimal_loop (suc n) n []

abbrev pub is_inf : ℕ → Bool
is_inf bits = bits % 2 ^ 63 == 0x7ff0000000000000

-- strings.ReplaceAll(mantissa, ".", "")
unfoldable pub without_points : Bytes → Bytes
without_points [] = []
without_points (c ∷ bs) = let rest = without_points bs in if c == b'.' then rest else c ∷ rest

abbrev pub keep_unless_zero : ℕ → Bytes → Bytes
keep_unless_zero c [] = if c == b'0' then [] else c ∷ []
keep_unless_zero c (d ∷ bs) = c ∷ d ∷ bs

-- strings.TrimRight(digits, "0")
unfoldable pub trim_zeros : Bytes → Bytes
trim_zeros [] = []
trim_zeros (c ∷ bs) = keep_unless_zero c (trim_zeros bs)

-- strings.Repeat("0", n)
unfoldable pub zeros : ℕ → Bytes
zeros zero = []
zeros (suc n) = b'0' ∷ zeros n

unfoldable pub with_point : ℕ → Bytes → Bytes
with_point zero digits = b'.' ∷ digits
with_point (suc n) [] = []
with_point (suc n) (d ∷ digits) = d ∷ with_point n digits

unfoldable pub exponent_string : ℤ → Bytes
exponent_string (pos n) = b'+' ∷ decimal n
exponent_string (negsuc n) = b'-' ∷ decimal (suc n)

abbrev pub point_and : Bytes → Bytes
point_and [] = []
point_and (d ∷ digits) = b'.' ∷ d ∷ digits

unfoldable pub with_exponent : Bytes → ℤ → Bytes
with_exponent [] e = []
with_exponent (d ∷ digits) e = d ∷ (point_and digits ++ b'e' ∷ exponent_string e)

-- The decimal notation for 1e-6 <= abs(x) < 1e21, the exponent otherwise.
unfoldable pub number_body : Bytes → ℤ → Bytes
number_body digits (pos n) =
    if ltb n 21
    then if leb (length digits) (n + 1)
      then digits ++ zeros (n + 1 - length digits)
      else with_point (n + 1) digits
    else with_exponent digits (pos n)
number_body digits (negsuc n) =
    if leb n 5 then b'0' ∷ b'.' ∷ (zeros n ++ digits) else with_exponent digits (negsuc n)

abbrev pub minus : Bool → Bytes → Bytes
minus negative bs = if negative then b'-' ∷ bs else bs

abbrev pub signed_body : Bool → Bytes → ℤ → Bytes
signed_body negative [] e = b'0' ∷ []
signed_body negative (d ∷ digits) e = minus negative (number_body (d ∷ digits) e)

unfoldable pub scientific_text : Scientific → Bytes
scientific_text s = signed_body s.negative (trim_zeros (without_points s.mantissa)) s.exponent

module _ ⦃fl : FloatParser⦄ ⦃fp : FloatPrinter⦄ where
  unfoldable pub format_js_number : String → Bytes
  format_js_number number =
      let value = fl.parse_float number in
      if value.failed
      then bytes_of "null"
      else if is_nan value.bits || is_inf value.bits
      then bytes_of "null"
      else if is_zero value.bits
      then b'0' ∷ []
      else scientific_text (fp.format_float value.bits)
