-- ===== src/Json/Parser/Numbers.antt =====
-- `parseNumber` of internal/orderedjson/orderedjson.go: each part gives the bytes that it takes, which
-- joined are `p.data[start:p.pos]`.
use homer_cli.Base.{ℕ, Bool, false, ◌||◌, [], ◌∷◌, ◌++◌, ◌==◌, if◌then◌else◌}
use homer_cli.Base.Bytes.{Bytes}
use homer_cli.Json.Utf8.{within}
use homer_cli.Json.Parser.Reading.{
  SyntaxError, incomplete_number, leading_zero, invalid_number, no_fraction, no_exponent, Result,
  read, failed, then_read,
}

abbrev pub is_digit : ℕ → Bool
is_digit c = within b'0' b'9' c

-- The loops over digits: what they take and what they leave.
unfoldable pub take_digits : Bytes → Bytes
take_digits [] = []
take_digits (c ∷ bs) = if is_digit c then c ∷ take_digits bs else []

unfoldable pub drop_digits : Bytes → Bytes
drop_digits [] = []
drop_digits (c ∷ bs) = if is_digit c then drop_digits bs else c ∷ bs

unfoldable pub starts_digit : Bytes → Bool
starts_digit [] = false
starts_digit (c ∷ bs) = is_digit c

unfoldable pub sign_part : Bytes → Result Bytes
sign_part (c ∷ d ∷ bs) = if c == b'-' then read (c ∷ []) (d ∷ bs) else read [] (c ∷ d ∷ bs)
sign_part (c ∷ []) = if c == b'-' then failed incomplete_number [] else read [] (c ∷ [])
sign_part [] = read [] []

unfoldable pub integer_part : Bytes → Result Bytes
unfolding starts_digit take_digits drop_digits
integer_part [] = failed invalid_number []
integer_part (c ∷ bs) =
    if c == b'0'
    then if starts_digit bs then failed leading_zero bs else read (c ∷ []) bs
    else if within b'1' b'9' c
    then read (c ∷ take_digits bs) (drop_digits bs)
    else failed invalid_number (c ∷ bs)

-- At least one digit.
unfoldable pub some_digits : SyntaxError → Bytes → Bytes → Result Bytes
unfolding starts_digit take_digits drop_digits
some_digits e before bs =
    if starts_digit bs then read (before ++ take_digits bs) (drop_digits bs) else failed e bs

unfoldable pub fraction_part : Bytes → Result Bytes
unfolding some_digits
fraction_part [] = read [] []
fraction_part (c ∷ bs) = if c == b'.' then some_digits no_fraction (c ∷ []) bs else read [] (c ∷ bs)

unfoldable pub signed_digits : ℕ → Bytes → Result Bytes
unfolding some_digits
signed_digits e [] = failed no_exponent []
signed_digits e (s ∷ bs) =
    if s == b'+' || s == b'-'
    then some_digits no_exponent (e ∷ s ∷ []) bs
    else some_digits no_exponent (e ∷ []) (s ∷ bs)

unfoldable pub exponent_part : Bytes → Result Bytes
unfolding signed_digits
exponent_part [] = read [] []
exponent_part (c ∷ bs) = if c == b'e' || c == b'E' then signed_digits c bs else read [] (c ∷ bs)

unfoldable pub parse_number : Bytes → Result Bytes
unfolding sign_part integer_part fraction_part exponent_part
parse_number bs = then_read (sign_part bs) λ sign at_integer.
    then_read (integer_part at_integer) λ integer at_fraction.
      then_read (fraction_part at_fraction) λ fraction at_exponent.
        then_read (exponent_part at_exponent)
          λ exponent rest. read (sign ++ (integer ++ (fraction ++ exponent))) rest
