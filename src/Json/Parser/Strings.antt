-- ===== src/Json/Parser/Strings.antt =====
-- `parseString` of internal/orderedjson/orderedjson.go and what it calls.
use homer_cli.Base.{
  ℕ, zero, suc, ◌+◌, ◌-◌, ◌*◌, ◌||◌, Option, none, some, [], ◌∷◌, ◌++◌, ltb, ◌==◌, length,
  if◌then◌else◌,
}
use homer_cli.Base.Bytes.{Bytes}
use homer_cli.Json.Utf8.{
  within, is_high_surrogate, is_low_surrogate, combine_surrogates, encode_rune, encode_surrogate,
  Decoded, decode_rune,
}
use homer_cli.Json.Parser.Reading.{
  SyntaxError, no_quote, unterminated_escape, invalid_escape, control_character, invalid_utf8,
  unterminated_string, short_unicode_escape, invalid_unicode_escape, exhausted, Result, read,
  failed,
}

-- `hexDigit`
unfoldable pub hex_digit : ℕ → Option ℕ
hex_digit c =
    if within b'0' b'9' c
    then some (c - b'0')
    else if within b'a' b'f' c
    then some (c - b'a' + 10)
    else if within b'A' b'F' c
    then some (c - b'A' + 10)
    else none

-- unit << 4 | digit
abbrev shift_in : Option ℕ → Option ℕ → Option ℕ
shift_in (some unit) (some digit) = some (unit * 16 + digit)
shift_in (some unit) none = none
shift_in none digit = none

-- The loop over four digits.
unfoldable pub hex_unit : ℕ → ℕ → ℕ → ℕ → Option ℕ
unfolding hex_digit
hex_unit a b c d =
    shift_in (shift_in (shift_in (hex_digit a) (hex_digit b)) (hex_digit c)) (hex_digit d)

-- What one round of the loop of `parseString` finds: the closing quote, bytes to append, an error.
pub data Piece : Type 0 where
  closed : Bytes → Piece
  more : Bytes → Bytes → Piece
  broken : SyntaxError → Bytes → Piece

abbrev if_low : Option ℕ → Bytes → Option (ℕ × Bytes)
if_low none bs = none
if_low (some unit) bs = if is_low_surrogate unit then some (unit, bs) else none

abbrev low_digits : Bytes → Option (ℕ × Bytes)
low_digits (a ∷ b ∷ c ∷ d ∷ bs) = if_low (hex_unit a b c d) bs
low_digits bs = none

abbrev low_after : Bytes → Option (ℕ × Bytes)
low_after [] = none
low_after (u ∷ bs) = if u == b'u' then low_digits bs else none

-- `consumeLowSurrogateEscape`
unfoldable pub consume_low : Bytes → Option (ℕ × Bytes)
consume_low [] = none
consume_low (s ∷ bs) = if s == b'\\' then low_after bs else none

abbrev after_high : ℕ → Bytes → Option (ℕ × Bytes) → Piece
after_high unit bs none = more (encode_surrogate unit) bs
after_high unit bs (some (low, rest)) = more (encode_rune (combine_surrogates unit low)) rest

-- What follows the four digits: a pair of surrogates, or `appendUTF16Unit`.
unfoldable pub unit_piece : ℕ → Bytes → Piece
unit_piece unit bs =
    if is_high_surrogate unit
    then after_high unit bs (consume_low bs)
    else if is_high_surrogate unit || is_low_surrogate unit
    then more (encode_surrogate unit) bs
    else more (encode_rune unit) bs

abbrev of_unit : Option ℕ → Bytes → Bytes → Piece
of_unit none start rest = broken invalid_unicode_escape start
of_unit (some unit) start rest = unit_piece unit rest

-- `parseUnicodeEscape`, and what the caller does with its unit
unfoldable pub unicode_piece : Bytes → Piece
unicode_piece (a ∷ b ∷ c ∷ d ∷ bs) = of_unit (hex_unit a b c d) (a ∷ b ∷ c ∷ d ∷ bs) bs
unicode_piece bs = broken short_unicode_escape bs

-- `case '\\'`
unfoldable pub escape_piece : Bytes → Piece
unfolding unicode_piece
escape_piece [] = broken unterminated_escape []
escape_piece (e ∷ bs) =
    if e == b'"' || e == b'\\' || e == b'/'
    then more (e ∷ []) bs
    else if e == b'b'
    then more (8 ∷ []) bs
    else if e == b'f'
    then more (12 ∷ []) bs
    else if e == b'n'
    then more (10 ∷ []) bs
    else if e == b'r'
    then more (13 ∷ []) bs
    else if e == b't'
    then more (9 ∷ []) bs
    else if e == b'u'
    then unicode_piece bs
    else broken invalid_escape bs

abbrev pub raw_piece : Option Decoded → Bytes → Piece
raw_piece none bs = broken invalid_utf8 bs
raw_piece (some r) bs = more r.taken r.rest

-- One round of the loop.
unfoldable pub string_piece : Bytes → Piece
unfolding escape_piece
string_piece [] = broken unterminated_string []
string_piece (c ∷ bs) =
    if c == b'"'
    then closed bs
    else if c == b'\\'
    then escape_piece bs
    else if ltb c 0x20
    then broken control_character (c ∷ bs)
    else if ltb c 0x80
    then more (c ∷ []) bs
    else raw_piece (decode_rune (c ∷ bs)) (c ∷ bs)

unfoldable pub string_loop : ℕ → Bytes → Bytes → Result Bytes
unfolding string_piece
string_loop zero out bs = failed exhausted bs
string_loop (suc fuel) out bs = elim (string_piece bs) [
  | closed rest ↦ read out rest
  | more taken rest ↦ string_loop fuel (out ++ taken) rest
  | broken e rest ↦ failed e rest
]

-- Each round takes a byte: one round more than there are bytes is enough.
unfoldable pub parse_string : Bytes → Result Bytes
unfolding string_loop
parse_string [] = failed no_quote []
parse_string (c ∷ bs) =
    if c == b'"' then string_loop (suc (length bs)) [] bs else failed no_quote (c ∷ bs)
