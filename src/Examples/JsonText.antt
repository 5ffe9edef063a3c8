-- ===== src/Examples/JsonText.antt =====
-- JSON texts that are read and written.
use homer_cli.Base.{◌≡◌, ◌≢◌, refl, String, false, [], ◌∷◌, arith}
use homer_cli.Base.Bytes.{bytes_of}
use homer_cli.Base.Integers.{pos}
use homer_cli.Json.{Value, null, number, text, array, object, nil, item, end, member, value_at}
use homer_cli.Json.Utf8.{is_high_surrogate, is_low_surrogate, encode_rune}
use homer_cli.Json.Keys.{has_key}
use homer_cli.Json.RoundTrip.Runes.{is_surrogate, encode_code}
use homer_cli.Json.RoundTrip.Codes.{IsText, encode_codes}
use homer_cli.Json.Numbers.{FloatParser}
use homer_cli.Json.Parser.{parsed, error, exhausted, parse}
use homer_cli.Json.Printer.{FloatPrinter, serialize, serialize_file}
use homer_cli.Json.RoundTrip.Settled.{settle, IsDocument, IsString}
use homer_cli.Json.RoundTrip.Formats.{IsFloatPrinter}
use homer_cli.Json.RoundTrip.Documents.{parse-serialize}
use homer_cli.Json.Ending.{parse_ends}

-- Every number is 12.5 here.
instance abbrev float_parser : FloatParser
float_parser = record { parse_float = λ s. record { bits = 7; failed = false } }

instance abbrev float_printer : FloatPrinter
float_printer = record {
  format_float = λ bits. record {
    negative = false;
    mantissa = b'1' ∷ b'.' ∷ b'2' ∷ b'5' ∷ [];
    exponent = pos 1;
  };
}

float_printer-IsFloatPrinter : IsFloatPrinter float_printer
float_printer-IsFloatPrinter = record {
  mantissa = λ bits p q r. (b'1', b'2' ∷ b'5' ∷ [], refl, (refl, (refl, tt)), refl);
}

-- The bytes of an e with an accent, and a newline.
abbrev accented : String
accented = "Ã©\n"

abbrev document : Value
document =
    object ("b" ∷ "7" ∷ [])
      (member "b" (number "12.50") (member "7" (array (item null (item (text accented) nil))) end))

accented-IsString : IsString accented
unfolding bytes_of IsText encode_codes encode_code is_surrogate is_high_surrogate is_low_surrogate
    encode_rune
accented-IsString = (omega arith, (233 ∷ 10 ∷ [], (omega arith, refl, (omega arith, tt, tt)), refl))

key-IsString : IsString "b" × IsString "7"
unfolding bytes_of IsText encode_codes encode_code is_surrogate is_high_surrogate is_low_surrogate
    encode_rune
key-IsString = (
  (omega arith, (b'b' ∷ [], (omega arith, tt, tt), refl)),
  (omega arith, (b'7' ∷ [], (omega arith, tt, tt), refl)),
)

document-IsDocument : IsDocument document
unfolding IsDocument has_key value_at
document-IsDocument =
    (refl, key-IsString.0, tt, (refl, key-IsString.1, (tt, (accented-IsString, tt)), tt))

parse-serialize_example :
    (parse (serialize document) ≡ parsed (settle document))
    × (parse (serialize_file document) ≡ parsed (settle document))
parse-serialize_example = parse-serialize float_printer-IsFloatPrinter document document-IsDocument

parse_ends_example : parse (bytes_of "[1, {\"a\": tru") ≢ error exhausted 12
parse_ends_example = parse_ends (bytes_of "[1, {\"a\": tru") 12
