-- ===== src/Json/RoundTrip/Scalars.antt =====
-- Written values without parts are read back, and white space between them is skipped.
use homer_cli.Base.{
  ℕ, zero, suc, ◌<◌, ◌≡◌, refl, ◌∙◌, Bool, true, false, ◌||◌, [], ◌∷◌, ◌++◌, arith, ◌==◌, String,
  length,
}
use homer_cli.Base.Bytes.{Bytes, bytes_of, text_of, text_of-bytes_of}
use homer_cli.Json.{Value, null, bool, number, text}
use homer_cli.Json.Parser.{
  read, parse_number, parse_string, parse_with, parse_value, consume_literal, Reader, is_digit,
  sign_part, integer_part,
}
use homer_cli.Json.Printer.{write_string, write_bool}
use homer_cli.Json.RoundTrip.Strings.{parse_string-write_string}
use homer_cli.Json.RoundTrip.Layout.{Opens}
use homer_cli.Json.RoundTrip.Numbers.{ends, parse_number-append}
use homer_cli.Json.RoundTrip.Settled.{IsNumeral, IsString}

-- What is written as w is read as v, off the front of any bytes that end a number.
abbrev pub IsRead : Bytes → Value → Type 0
IsRead w v =
    Opens w
    × ((fuel : ℕ) (rest : Bytes)
        → length w < fuel
        → ends rest ≡ true
        → parse_value fuel (w ++ rest) ≡ read v rest)

-- For a value without parts one unit of fuel is enough.
reads_of_with :
    (w : Bytes) (v : Value)
    → ((value : Reader) (fuel : ℕ) (rest : Bytes)
        → ends rest ≡ true
        → parse_with value fuel (w ++ rest) ≡ read v rest)
    → (fuel : ℕ) (rest : Bytes) → length w < fuel
    → ends rest ≡ true
    → parse_value fuel (w ++ rest) ≡ read v rest
unfolding parse_value
reads_of_with w v h zero rest l e = absurd (omega arith)
reads_of_with w v h (suc fuel) rest l e = h (parse_value fuel) fuel rest e

pub null-IsRead : IsRead (b'n' ∷ b'u' ∷ b'l' ∷ b'l' ∷ []) null
unfolding parse_with consume_literal bytes_of
null-IsRead =
    ((refl, refl), reads_of_with (b'n' ∷ b'u' ∷ b'l' ∷ b'l' ∷ []) null (λ value fuel rest e. refl))

pub bool-IsRead : (b : Bool) → IsRead (write_bool b) (bool b)
unfolding parse_with consume_literal bytes_of
bool-IsRead true =
    ((refl, refl), reads_of_with (write_bool true) (bool true) (λ value fuel rest e. refl))
bool-IsRead false =
    ((refl, refl), reads_of_with (write_bool false) (bool false) (λ value fuel rest e. refl))

parse_with-text :
    (value : Reader) (fuel : ℕ) (bs s rest : Bytes)
    → parse_string (b'"' ∷ bs) ≡ read s rest
    → parse_with value fuel (b'"' ∷ bs) ≡ read (text (text_of s)) rest
unfolding parse_with
parse_with-text value fuel bs s rest h = rw h

pub text-IsRead : (s : String) → IsString s → IsRead (write_string (bytes_of s)) (text s)
unfolding write_string
text-IsRead s (b, t) = ((refl, refl), reads_of_with (write_string (bytes_of s)) (text s) reads)
  where
    reads :
        (value : Reader) (fuel : ℕ) (rest : Bytes)
        → ends rest ≡ true
        → parse_with value fuel (write_string (bytes_of s) ++ rest) ≡ read (text s) rest
    reads value fuel rest e =
        parse_with-text value fuel _ (bytes_of s) rest
          (parse_string-write_string (bytes_of s) rest t)
        ∙ rw (text_of-bytes_of s b)

pub first_of_numeral :
    (c : ℕ) (bs : Bytes)
    → parse_number (c ∷ bs) ≡ read (c ∷ bs) []
    → (c == b'-' || is_digit c) ≡ true
unfolding parse_number sign_part integer_part
first_of_numeral c [] h = ground arith
first_of_numeral c (d ∷ bs) h = ground arith

parse_with-number :
    (value : Reader) (fuel c : ℕ) (bs s rest : Bytes)
    → (c == b'-' || is_digit c) ≡ true
    → parse_number (c ∷ bs) ≡ read s rest
    → parse_with value fuel (c ∷ bs) ≡ read (number (text_of s)) rest
unfolding parse_with
parse_with-number value fuel c bs s rest d h = ground arith

Opens-first : (c : ℕ) (bs : Bytes) → (c == b'-' || is_digit c) ≡ true → Opens (c ∷ bs)
Opens-first c bs d = (ground arith, ground arith)

pub number-IsRead : (bs : Bytes) → IsNumeral bs → IsRead bs (number (text_of bs))
number-IsRead [] (n, b) = absurd (unfold parse_number sign_part integer_part in cc)
number-IsRead (c ∷ bs) (n, b) = (
  Opens-first c bs (first_of_numeral c bs n),
  reads_of_with (c ∷ bs) (number (text_of (c ∷ bs))) λ value fuel rest e.
      parse_with-number value fuel c (bs ++ rest) (c ∷ bs) rest (first_of_numeral c bs n)
        (parse_number-append (c ∷ bs) rest n e),
)
