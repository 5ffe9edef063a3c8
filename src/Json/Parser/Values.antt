-- ===== src/Json/Parser/Values.antt =====
-- `parseValue`, `parseObject`, `parseArray` and `Parse`. The loops over members and elements take
-- the parser of a value as a function, which has one unit of fuel less than its caller.
use homer_cli.Base.{
  ℕ, zero, suc, ◌-◌, Bool, true, false, ◌||◌, Option, none, some, [], ◌∷◌, ◌++◌, ◌==◌, String,
  length, if◌then◌else◌,
}
use homer_cli.Base.Bytes.{Bytes, text_of, bytes_of}
use homer_cli.Json.{
  Value, null, bool, number, text, array, object, Items, nil, item, Object, set_value,
}
use homer_cli.Json.Keys.{has_key}
use homer_cli.Json.Rebuild.{empty}
use homer_cli.Json.Parser.Reading.{
  SyntaxError, empty_input, unexpected_end, invalid_value, trailing_data, key_not_string,
  missing_colon, unclosed_object, unterminated_object, unclosed_array, unterminated_array,
  exhausted, Result, read, failed, then_read,
}
use homer_cli.Json.Parser.Strings.{parse_string}
use homer_cli.Json.Parser.Numbers.{is_digit, parse_number}

abbrev pub is_space : ℕ → Bool
is_space c = c == b' ' || c == 9 || c == 10 || c == 13

unfoldable pub skip_whitespace : Bytes → Bytes
skip_whitespace [] = []
skip_whitespace (c ∷ bs) = if is_space c then skip_whitespace bs else c ∷ bs

-- `consumeLiteral`: what follows the literal, if it stands here
unfoldable pub consume_literal : Bytes → Bytes → Option Bytes
consume_literal [] bs = some bs
consume_literal (l ∷ ls) [] = none
consume_literal (l ∷ ls) (c ∷ bs) = if c == l then consume_literal ls bs else none

abbrev pub literal : Value → Option Bytes → Bytes → Result Value
literal v none bs = failed invalid_value bs
literal v (some rest) bs = read v rest

-- What stands behind a member or an element: the closing bracket, a comma, or neither.
pub data Next : Type 0 where
  last : Bytes → Next
  again : Bytes → Next
  wrong : SyntaxError → Bytes → Next

abbrev pub after_comma : SyntaxError → Bytes → Next
after_comma unterminated [] = wrong unterminated []
after_comma unterminated (c ∷ bs) = again (c ∷ bs)

abbrev pub separated : ℕ → SyntaxError → SyntaxError → Bytes → Next
separated close unclosed unterminated [] = wrong unclosed []
separated close unclosed unterminated (c ∷ bs) =
    if c == close
    then last bs
    else if c == b','
    then after_comma unterminated (skip_whitespace bs)
    else wrong unclosed (c ∷ bs)

unfoldable pub next : ℕ → SyntaxError → SyntaxError → Bytes → Next
next close unclosed unterminated bs = separated close unclosed unterminated (skip_whitespace bs)

-- p.consume(':')
abbrev pub colon : Bytes → Bytes → Result Bytes
colon key [] = failed missing_colon []
colon key (c ∷ bs) = if c == b':' then read key bs else failed missing_colon (c ∷ bs)

abbrev pub key_at : Bytes → Result Bytes
key_at [] = failed key_not_string []
key_at (c ∷ bs) =
    if c == b'"'
    then then_read (parse_string (c ∷ bs)) (λ key rest. colon key (skip_whitespace rest))
    else failed key_not_string (c ∷ bs)

-- A key and its colon.
unfoldable pub parse_key : Bytes → Result Bytes
parse_key bs = key_at (skip_whitespace bs)

-- A duplicate replaces the value and does not move the key.
unfoldable pub add_member : String → Value → Object → Object
add_member key v out = record {
  keys = if has_key key out.members then out.keys else out.keys ++ key ∷ [];
  members = set_value key v out.members;
}

abbrev pub Reader : Type 0
Reader = Bytes → Result Value

unfoldable pub parse_members : Reader → ℕ → Object → Bytes → Result Value
parse_members value zero out bs = failed exhausted bs
parse_members value (suc fuel) out bs = then_read (parse_key bs) λ key at_value.
    then_read (value (skip_whitespace at_value)) λ v behind.
      let out' = add_member (text_of key) v out in
      elim (next b'}' unclosed_object unterminated_object behind) [
        | last rest ↦ read (object out'.keys out'.members) rest
        | again rest ↦ parse_members value fuel out' rest
        | wrong e rest ↦ failed e rest
      ]

abbrev pub cons : Value → Items → Bytes → Result Items
cons v xs rest = read (item v xs) rest

unfoldable pub parse_elements : Reader → ℕ → Bytes → Result Items
parse_elements value zero bs = failed exhausted bs
parse_elements value (suc fuel) bs = then_read (value (skip_whitespace bs)) λ v behind.
    elim (next b']' unclosed_array unterminated_array behind) [
      | last rest ↦ read (item v nil) rest
      | again rest ↦ then_read (parse_elements value fuel rest) (cons v)
      | wrong e rest ↦ failed e rest
    ]

abbrev pub object_at : Reader → ℕ → Bytes → Result Value
object_at value fuel [] = parse_members value fuel empty []
object_at value fuel (c ∷ bs) =
    if c == b'}' then read (object [] empty.members) bs else parse_members value fuel empty (c ∷ bs)

abbrev pub elements_at : Reader → ℕ → Bytes → Result Items
elements_at value fuel [] = parse_elements value fuel []
elements_at value fuel (c ∷ bs) =
    if c == b']' then read nil bs else parse_elements value fuel (c ∷ bs)

-- Behind the opening bracket.
unfoldable pub parse_object : Reader → ℕ → Bytes → Result Value
parse_object value fuel bs = object_at value fuel (skip_whitespace bs)

unfoldable pub parse_array : Reader → ℕ → Bytes → Result Value
parse_array value fuel bs =
    then_read (elements_at value fuel (skip_whitespace bs)) (λ xs rest. read (array xs) rest)

-- The `switch` on the first byte.
unfoldable pub parse_with : Reader → ℕ → Bytes → Result Value
parse_with value fuel [] = failed unexpected_end []
parse_with value fuel (c ∷ bs) =
    if c == b'{'
    then parse_object value fuel bs
    else if c == b'['
    then parse_array value fuel bs
    else if c == b'"'
    then then_read (parse_string (c ∷ bs)) (λ s rest. read (text (text_of s)) rest)
    else if c == b't'
    then literal (bool true) (consume_literal (bytes_of "true") (c ∷ bs)) (c ∷ bs)
    else if c == b'f'
    then literal (bool false) (consume_literal (bytes_of "false") (c ∷ bs)) (c ∷ bs)
    else if c == b'n'
    then literal null (consume_literal (bytes_of "null") (c ∷ bs)) (c ∷ bs)
    else if c == b'-' || is_digit c
    then then_read (parse_number (c ∷ bs)) (λ s rest. read (number (text_of s)) rest)
    else failed invalid_value (c ∷ bs)

unfoldable pub parse_value : ℕ → Reader
parse_value zero bs = failed exhausted bs
parse_value (suc fuel) bs = parse_with (parse_value fuel) fuel bs

-- An error says at which byte of the input it is.
pub data ParseResult : Type 0 where
  parsed : Value → ParseResult
  error : SyntaxError → ℕ → ParseResult

abbrev pub ended : ℕ → Value → Bytes → ParseResult
ended size v [] = parsed v
ended size v (c ∷ bs) = error trailing_data (size - length (c ∷ bs))

abbrev pub finished : ℕ → Result Value → ParseResult
finished size (failed e rest) = error e (size - length rest)
finished size (read v rest) = ended size v (skip_whitespace rest)

abbrev pub started : ℕ → Bytes → ParseResult
started size [] = error empty_input size
started size (c ∷ bs) = finished size (parse_value (suc size) (c ∷ bs))

-- Every value and every element takes a byte: a unit of fuel for each, and one more, is enough.
unfoldable pub parse : Bytes → ParseResult
parse bytes = started (length bytes) (skip_whitespace bytes)
