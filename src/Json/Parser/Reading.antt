-- ===== src/Json/Parser/Reading.antt =====
-- What the parser's functions give: a value and the bytes behind it, or an error and the bytes at
-- which it is found, in place of `pos`.
use homer_cli.Base.Bytes.{Bytes}

-- The messages of `errorf`; `exhausted` is the fuel's.
pub data SyntaxError : Type 0 where
  empty_input unexpected_end invalid_value trailing_data : SyntaxError
  key_not_string missing_colon unclosed_object unterminated_object : SyntaxError
  unclosed_array unterminated_array : SyntaxError
  no_quote unterminated_escape invalid_escape control_character : SyntaxError
  invalid_utf8 unterminated_string short_unicode_escape invalid_unicode_escape : SyntaxError
  incomplete_number leading_zero invalid_number no_fraction no_exponent : SyntaxError
  exhausted : SyntaxError

pub data Result {ℓ} (A : Type ℓ) : Type ℓ where
  read : A → Bytes → Result A
  failed : SyntaxError → Bytes → Result A

-- then f reads on from the rest
abbrev pub then_read {ℓ κ} :
    {A : Type ℓ} {B : Type κ} → Result A → (A → Bytes → Result B) → Result B
then_read (read a rest) f = f a rest
then_read (failed e rest) f = failed e rest
