-- ===== src/Json/Printer/Strings.antt =====
-- `writeString` of internal/orderedjson/orderedjson.go and what it calls.
use homer_cli.Base.{
  ℕ, zero, suc, ◌+◌, ◌-◌, ◌/◌, ◌%◌, Option, none, some, [], ◌∷◌, ◌++◌, ltb, leb, ◌==◌, length,
  if◌then◌else◌,
}
use homer_cli.Base.Bytes.{Bytes}
use homer_cli.Json.Utf8.{encode_rune, Decoded, decode_rune, decode_surrogate}

-- digits[d]
unfoldable pub hex_of : ℕ → ℕ
hex_of d = if ltb d 10 then b'0' + d else b'a' + (d - 10)

unfoldable pub unicode_escape : ℕ → Bytes
unfolding hex_of encode_rune
unicode_escape v =
    if leb v 0xffff
    then b'\\'
      ∷ b'u'
      ∷ hex_of (v / 4096 % 16)
      ∷ hex_of (v / 256 % 16)
      ∷ hex_of (v / 16 % 16)
      ∷ hex_of (v % 16)
      ∷ []
    else encode_rune v

-- The `switch` on a rune.
unfoldable pub rune_text : ℕ → Bytes
unfolding unicode_escape encode_rune
rune_text v =
    if v == b'"'
    then b'\\' ∷ b'"' ∷ []
    else if v == b'\\'
    then b'\\' ∷ b'\\' ∷ []
    else if v == 8
    then b'\\' ∷ b'b' ∷ []
    else if v == 12
    then b'\\' ∷ b'f' ∷ []
    else if v == 10
    then b'\\' ∷ b'n' ∷ []
    else if v == 13
    then b'\\' ∷ b'r' ∷ []
    else if v == 9
    then b'\\' ∷ b't' ∷ []
    else if ltb v 0x20
    then unicode_escape v
    else encode_rune v

-- What one round of the loop writes, and the bytes behind those that it has read.
abbrev rune_or_replacement : ℕ → Bytes → Option Decoded → Bytes × Bytes
rune_or_replacement b bs none = (unicode_escape 0xfffd, bs)
rune_or_replacement b bs (some r) = (rune_text r.value, r.rest)

abbrev surrogate_or_rune : ℕ → Bytes → Option Decoded → Bytes × Bytes
surrogate_or_rune b bs none = rune_or_replacement b bs (decode_rune (b ∷ bs))
surrogate_or_rune b bs (some r) = (unicode_escape r.value, r.rest)

unfoldable pub write_round : ℕ → Bytes → Bytes × Bytes
unfolding decode_surrogate decode_rune unicode_escape rune_text
write_round b bs = surrogate_or_rune b bs (decode_surrogate (b ∷ bs))

unfoldable pub write_loop : ℕ → Bytes → Bytes
unfolding write_round
write_loop zero bs = []
write_loop (suc fuel) [] = []
write_loop (suc fuel) (b ∷ bs) = let round = write_round b bs in round.0 ++ write_loop fuel round.1

-- Each round reads a byte.
unfoldable pub write_string : Bytes → Bytes
unfolding write_loop
write_string bs = b'"' ∷ (write_loop (length bs) bs ++ b'"' ∷ [])
