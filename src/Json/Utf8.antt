-- ===== src/Json/Utf8.antt =====
-- UTF-8 and lone surrogates: what internal/orderedjson uses of Go's package unicode/utf8, and the
-- code units of its escapes.
use homer_cli.Base.{
  ℕ, ◌+◌, ◌-◌, ◌*◌, ◌/◌, ◌%◌, Bool, not, ◌&&◌, ◌||◌, Option, none, some, [], ◌∷◌, ltb, leb, ◌==◌,
  if◌then◌else◌,
}
use homer_cli.Base.Bytes.{Bytes}

-- lo <= b && b <= hi
abbrev pub within : ℕ → ℕ → ℕ → Bool
within lo hi b = leb lo b && leb b hi

unfoldable pub is_high_surrogate : ℕ → Bool
is_high_surrogate unit = within 0xd800 0xdbff unit

unfoldable pub is_low_surrogate : ℕ → Bool
is_low_surrogate unit = within 0xdc00 0xdfff unit

unfoldable pub combine_surrogates : ℕ → ℕ → ℕ
combine_surrogates high low = 0x10000 + (high - 0xd800) * 1024 + (low - 0xdc00)

-- Three bytes for a rune or a lone surrogate below 0x10000; `|` joins bits that are apart.
abbrev pub three_bytes : ℕ → Bytes
three_bytes v = (0xe0 + v / 4096) ∷ (0x80 + v / 64 % 64) ∷ (0x80 + v % 64) ∷ []

-- `utf8.EncodeRune`; what is no rune is written as U+FFFD.
unfoldable pub encode_rune : ℕ → Bytes
unfolding is_high_surrogate is_low_surrogate
encode_rune v =
    if ltb v 0x80
    then v ∷ []
    else if ltb v 0x800
    then (0xc0 + v / 64) ∷ (0x80 + v % 64) ∷ []
    else if is_high_surrogate v || is_low_surrogate v || ltb 0x10ffff v
    then three_bytes 0xfffd
    else if ltb v 0x10000
    then three_bytes v
    else (0xf0 + v / 262144) ∷ (0x80 + v / 4096 % 64) ∷ (0x80 + v / 64 % 64) ∷ (0x80 + v % 64) ∷ []

-- `appendWTF8Surrogate`, what is appended
unfoldable pub encode_surrogate : ℕ → Bytes
encode_surrogate unit = three_bytes unit

-- A decoded rune, its bytes and what follows them.
pub record Decoded : Type 0 where
  pub value : ℕ
  pub taken : Bytes
  pub rest : Bytes

abbrev two_of : ℕ → Bytes → Option Decoded
two_of a (b ∷ bs) =
    if within 0x80 0xbf b
    then some (record { value = (a - 0xc0) * 64 + (b - 0x80); taken = a ∷ b ∷ []; rest = bs })
    else none
two_of a [] = none

abbrev three_of : ℕ → ℕ → ℕ → Bytes → Option Decoded
three_of a lo hi (b ∷ c ∷ bs) =
    if within lo hi b && within 0x80 0xbf c
    then some (record {
      value = (a - 0xe0) * 4096 + (b - 0x80) * 64 + (c - 0x80);
      taken = a ∷ b ∷ c ∷ [];
      rest = bs;
    })
    else none
three_of a lo hi (b ∷ []) = none
three_of a lo hi [] = none

abbrev four_of : ℕ → ℕ → ℕ → Bytes → Option Decoded
four_of a lo hi (b ∷ c ∷ d ∷ bs) =
    if within lo hi b && within 0x80 0xbf c && within 0x80 0xbf d
    then some (record {
      value = (a - 0xf0) * 262144 + (b - 0x80) * 4096 + (c - 0x80) * 64 + (d - 0x80);
      taken = a ∷ b ∷ c ∷ d ∷ [];
      rest = bs;
    })
    else none
four_of a lo hi (b ∷ c ∷ []) = none
four_of a lo hi (b ∷ []) = none
four_of a lo hi [] = none

-- `utf8.DecodeRune`: none where Go gives RuneError with size 1, or 0 at the end. Shortest forms
-- only, no surrogates, nothing above U+10FFFF.
unfoldable pub decode_rune : Bytes → Option Decoded
decode_rune [] = none
decode_rune (a ∷ bs) =
    if ltb a 0x80
    then some (record { value = a; taken = a ∷ []; rest = bs })
    else if within 0xc2 0xdf a
    then two_of a bs
    else if a == 0xe0
    then three_of a 0xa0 0xbf bs
    else if a == 0xed
    then three_of a 0x80 0x9f bs
    else if within 0xe1 0xef a
    then three_of a 0x80 0xbf bs
    else if a == 0xf0
    then four_of a 0x90 0xbf bs
    else if within 0xf1 0xf3 a
    then four_of a 0x80 0xbf bs
    else if a == 0xf4
    then four_of a 0x80 0x8f bs
    else none

-- `decodeWTF8Surrogate`
unfoldable pub decode_surrogate : Bytes → Option Decoded
unfolding is_high_surrogate is_low_surrogate
decode_surrogate (a ∷ b ∷ c ∷ bs) =
    if not (a == 0xed) || not (within 0xa0 0xbf b && within 0x80 0xbf c)
    then none
    else (let unit = a % 16 * 4096 + b % 64 * 64 + c % 64 in
        if is_high_surrogate unit || is_low_surrogate unit
        then some (record { value = unit; taken = a ∷ b ∷ c ∷ []; rest = bs })
        else none)
decode_surrogate (a ∷ b ∷ []) = none
decode_surrogate (a ∷ []) = none
decode_surrogate [] = none
