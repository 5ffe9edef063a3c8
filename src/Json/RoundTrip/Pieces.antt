-- ===== src/Json/RoundTrip/Pieces.antt =====
-- What one round of `writeString` writes is what one round of `parseString` reads.
use homer_cli.Base.{
  ℕ, ◌+◌, ◌/◌, ◌%◌, ◌≤◌, ◌<◌, ◌≡◌, ◌∙◌, true, false, none, some, [], ◌∷◌, ◌++◌, arith, Bool-cases,
  inl, inr,
}
use native.Mathlib.Decide.{dec_lt}
use homer_cli.Base.Bytes.{Bytes}
use homer_cli.Json.Utf8.{
  is_high_surrogate, is_low_surrogate, three_bytes, encode_rune, encode_surrogate, decode_rune,
}
use homer_cli.Json.Parser.{
  hex_digit, hex_unit, consume_low, unit_piece, unicode_piece, escape_piece, more, string_piece,
}
use homer_cli.Json.Printer.{hex_of, unicode_escape, rune_text}
use homer_cli.Json.RoundTrip.Runes.{is_surrogate, decode_rune-encode_rune}

hex_digit-hex_of : (d : ℕ) → d < 16 → hex_digit (hex_of d) ≡ some d
unfolding hex_digit hex_of
hex_digit-hex_of d h = ground arith

pub hex_unit-hex_of :
    (v : ℕ)
    → v < 0x10000
    → hex_unit
        (hex_of (v / 4096 % 16))
        (hex_of (v / 256 % 16))
        (hex_of (v / 16 % 16))
        (hex_of (v % 16))
      ≡ some v
unfolding hex_unit
hex_unit-hex_of v h = ground (
  arith,
  hex_digit-hex_of (v / 4096 % 16),
  hex_digit-hex_of (v / 256 % 16),
  hex_digit-hex_of (v / 16 % 16),
  hex_digit-hex_of (v % 16),
)

string_piece-unicode_escape :
    (v : ℕ) (tail : Bytes)
    → v < 0x10000
    → string_piece (unicode_escape v ++ tail) ≡ unit_piece v tail
unfolding string_piece escape_piece unicode_piece unicode_escape
string_piece-unicode_escape v tail h = ground (arith, hex_unit-hex_of v)

unit_piece-surrogate :
    (v : ℕ) (tail : Bytes)
    → is_surrogate v ≡ true
    → (is_high_surrogate v ≡ true → consume_low tail ≡ none)
    → unit_piece v tail ≡ more (three_bytes v) tail
unfolding unit_piece is_surrogate encode_surrogate
unit_piece-surrogate v tail s h = elim (Bool-cases (is_high_surrogate v)) [
  | inl high ↦ rw (high, h high)
  | inr other ↦ ground arith
]

pub surrogate-small : (v : ℕ) → is_surrogate v ≡ true → v < 0x10000
unfolding is_surrogate is_high_surrogate is_low_surrogate
surrogate-small v s = ground arith

-- A written lone surrogate is read as such, if no other half follows.
pub string_piece-surrogate :
    (v : ℕ) (tail : Bytes)
    → is_surrogate v ≡ true
    → (is_high_surrogate v ≡ true → consume_low tail ≡ none)
    → string_piece (unicode_escape v ++ tail) ≡ more (three_bytes v) tail
string_piece-surrogate v tail s h =
    string_piece-unicode_escape v tail (surrogate-small v s) ∙ unit_piece-surrogate v tail s h

string_piece-raw :
    (v a : ℕ) (bs tail : Bytes)
    → 0x80 ≤ a
    → decode_rune (a ∷ (bs ++ tail)) ≡ some (record { value = v; taken = a ∷ bs; rest = tail })
    → string_piece (a ∷ (bs ++ tail)) ≡ more (a ∷ bs) tail
unfolding string_piece
string_piece-raw v a bs tail h d = ground arith

-- A rune that needs no escape.
string_piece-encode_rune :
    (v : ℕ) (tail : Bytes)
    → 0x80 ≤ v
    → decode_rune (encode_rune v ++ tail)
      ≡ some (record { value = v; taken = encode_rune v; rest = tail })
    → string_piece (encode_rune v ++ tail) ≡ more (encode_rune v) tail
unfolding encode_rune
string_piece-encode_rune v tail g d = ground (
  arith,
  string_piece-raw v (0xc0 + v / 64) ((0x80 + v % 64) ∷ []) tail,
  string_piece-raw v 0xef (0xbf ∷ 0xbd ∷ []) tail,
  string_piece-raw v (0xe0 + v / 4096) ((0x80 + v / 64 % 64) ∷ (0x80 + v % 64) ∷ []) tail,
  string_piece-raw v (0xf0 + v / 262144)
      ((0x80 + v / 4096 % 64) ∷ (0x80 + v / 64 % 64) ∷ (0x80 + v % 64) ∷ []) tail,
)

unit_piece-rune :
    (v : ℕ) (tail : Bytes) → is_surrogate v ≡ false → unit_piece v tail ≡ more (encode_rune v) tail
unfolding unit_piece is_surrogate
unit_piece-rune v tail s = ground arith

-- A rune below 0x80: as an escape, or as its byte.
string_piece-ascii :
    (v : ℕ) (tail : Bytes)
    → v < 0x80
    → is_surrogate v ≡ false
    → string_piece (rune_text v ++ tail) ≡ more (encode_rune v) tail
unfolding string_piece escape_piece rune_text encode_rune
string_piece-ascii v tail h s =
    ground (arith, string_piece-unicode_escape v tail, unit_piece-rune v tail)

pub rune_text-high : (v : ℕ) → 0x80 ≤ v → rune_text v ≡ encode_rune v
unfolding rune_text
rune_text-high v h = ground arith

-- A written rune is read as its bytes.
pub string_piece-rune_text :
    (v : ℕ) (tail : Bytes)
    → v ≤ 0x10ffff
    → is_surrogate v ≡ false
    → string_piece (rune_text v ++ tail) ≡ more (encode_rune v) tail
string_piece-rune_text v tail h s = elim (dec_lt v 0x80) [
  | yes low ↦ string_piece-ascii v tail low s
  | no high ↦
      rw (rune_text-high v (omega arith))
        (string_piece-encode_rune v tail (omega arith) (decode_rune-encode_rune v tail h s))
]
