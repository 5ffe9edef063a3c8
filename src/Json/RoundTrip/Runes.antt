-- ===== src/Json/RoundTrip/Runes.antt =====
-- Runes and lone surrogates, written as bytes and read back.
use homer_cli.Base.{
  ℕ, ◌+◌, ◌/◌, ◌%◌, ◌≤◌, ◌<◌, ◌≡◌, refl, Bool, true, false, ◌||◌, none, some, [], ◌∷◌, ◌++◌, arith,
  ◌==◌, if◌then◌else◌,
}
use homer_cli.Base.Bytes.{Bytes}
use homer_cli.Json.Utf8.{
  is_high_surrogate, is_low_surrogate, three_bytes, encode_rune, decode_rune, decode_surrogate,
}

unfoldable pub is_surrogate : ℕ → Bool
is_surrogate v = is_high_surrogate v || is_low_surrogate v

-- The bytes of a code point that may be a lone surrogate.
unfoldable pub encode_code : ℕ → Bytes
encode_code v = if is_surrogate v then three_bytes v else encode_rune v

decode_rune-one :
    (v : ℕ) (tail : Bytes)
    → v < 0x80
    → decode_rune (v ∷ tail) ≡ some (record { value = v; taken = v ∷ []; rest = tail })
unfolding decode_rune
decode_rune-one v tail h = ground arith

decode_rune-two :
    (v : ℕ) (tail : Bytes)
    → 0x80 ≤ v
    → v < 0x800
    → decode_rune ((0xc0 + v / 64) ∷ (0x80 + v % 64) ∷ tail)
      ≡ some (record { value = v; taken = (0xc0 + v / 64) ∷ (0x80 + v % 64) ∷ []; rest = tail })
unfolding decode_rune
decode_rune-two v tail h k = ground arith

decode_rune-three :
    (v : ℕ) (tail : Bytes)
    → 0x800 ≤ v
    → v < 0x10000
    → is_surrogate v ≡ false
    → decode_rune (three_bytes v ++ tail)
      ≡ some (record { value = v; taken = three_bytes v; rest = tail })
unfolding decode_rune is_surrogate is_high_surrogate is_low_surrogate
decode_rune-three v tail h k s = ground arith

decode_rune-four :
    (v : ℕ) (tail : Bytes)
    → 0x10000 ≤ v
    → v ≤ 0x10ffff
    → decode_rune (encode_rune v ++ tail)
      ≡ some (record { value = v; taken = encode_rune v; rest = tail })
unfolding decode_rune encode_rune is_high_surrogate is_low_surrogate
decode_rune-four v tail h k = ground arith

-- `DecodeRune` takes what `EncodeRune` writes.
pub decode_rune-encode_rune :
    (v : ℕ) (tail : Bytes)
    → v ≤ 0x10ffff
    → is_surrogate v ≡ false
    → decode_rune (encode_rune v ++ tail)
      ≡ some (record { value = v; taken = encode_rune v; rest = tail })
unfolding encode_rune is_surrogate
decode_rune-encode_rune v tail h s = ground (
  arith,
  decode_rune-one v tail,
  decode_rune-two v tail,
  decode_rune-three v tail,
  decode_rune-four v tail,
)

decode_surrogate-none :
    (a : ℕ) (bs : Bytes) → (a == 0xed) ≡ false → decode_surrogate (a ∷ bs) ≡ none
unfolding decode_surrogate
decode_surrogate-none a [] h = refl
decode_surrogate-none a (b ∷ []) h = refl
decode_surrogate-none a (b ∷ c ∷ bs) h = ground arith

decode_surrogate-three :
    (v : ℕ) (tail : Bytes)
    → 0x800 ≤ v
    → v < 0x10000
    → is_surrogate v ≡ false
    → decode_surrogate (three_bytes v ++ tail) ≡ none
unfolding decode_surrogate is_surrogate is_high_surrogate is_low_surrogate
decode_surrogate-three v tail h k s = ground arith

-- No rune is taken for a lone surrogate.
pub decode_surrogate-encode_rune :
    (v : ℕ) (tail : Bytes)
    → v ≤ 0x10ffff
    → is_surrogate v ≡ false
    → decode_surrogate (encode_rune v ++ tail) ≡ none
unfolding encode_rune is_surrogate
decode_surrogate-encode_rune v tail h s = ground (
  arith,
  decode_surrogate-three v tail,
  decode_surrogate-none v tail,
  decode_surrogate-none (0xc0 + v / 64) ((0x80 + v % 64) ∷ tail),
  decode_surrogate-none (0xf0 + v / 262144)
      ((0x80 + v / 4096 % 64) ∷ (0x80 + v / 64 % 64) ∷ (0x80 + v % 64) ∷ tail),
)

-- A lone surrogate is taken for itself.
pub decode_surrogate_lem :
    (v : ℕ) (tail : Bytes)
    → is_surrogate v ≡ true
    → decode_surrogate (three_bytes v ++ tail)
      ≡ some (record { value = v; taken = three_bytes v; rest = tail })
unfolding decode_surrogate is_surrogate is_high_surrogate is_low_surrogate
decode_surrogate_lem v tail s = ground arith
