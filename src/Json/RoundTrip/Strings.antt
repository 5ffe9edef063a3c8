-- ===== src/Json/RoundTrip/Strings.antt =====
-- A string that `writeString` writes is read back by `parseString`.
use native.Mathlib.Decide.{dec_lt}
use homer_cli.Base.{
  ℕ, zero, suc, ◌≤◌, ◌<◌, ◌≡◌, refl, ◌∙◌, true, false, none, List, [], ◌∷◌, ◌++◌, arith, length,
  ltb, length-append, append_assoc, append-nil, Bool-cases, inl, inr,
}
use homer_cli.Base.Bytes.{Bytes}
use homer_cli.Json.Utf8.{is_high_surrogate, is_low_surrogate, encode_rune}
use homer_cli.Json.Parser.{consume_low, more, string_piece, string_loop, parse_string, read}
use homer_cli.Json.Printer.{unicode_escape, rune_text, write_string}
use homer_cli.Json.RoundTrip.Runes.{is_surrogate, encode_code}
use homer_cli.Json.RoundTrip.Pieces.{
  string_piece-surrogate, string_piece-rune_text, hex_unit-hex_of, surrogate-small, rune_text-high,
}
use homer_cli.Json.RoundTrip.Codes.{
  IsApart, AreCodes, IsText, encode_codes, piece, pieces, encode_rune-IsCons,
  write_loop-encode_codes,
}

-- What follows a piece is not the second half of a pair, unless it is a low surrogate's.
consume_low-unicode_escape :
    (w : ℕ) (tail : Bytes)
    → w < 0x10000
    → is_low_surrogate w ≡ false
    → consume_low (unicode_escape w ++ tail) ≡ none
unfolding consume_low unicode_escape
consume_low-unicode_escape w tail h l = ground (arith, hex_unit-hex_of w h)

consume_low-encode_rune :
    (w : ℕ) (tail : Bytes) → 0x80 ≤ w → consume_low (encode_rune w ++ tail) ≡ none
unfolding encode_rune consume_low
consume_low-encode_rune w tail h = ground arith

consume_low-ascii : (w : ℕ) (tail : Bytes) → w < 0x80 → consume_low (rune_text w ++ tail) ≡ none
unfolding rune_text encode_rune consume_low
consume_low-ascii w tail h =
    let escape : ltb w 0x20 ≡ true → consume_low (unicode_escape w ++ tail) ≡ none = λ small.
      consume_low-unicode_escape w tail (omega arith) (unfold is_low_surrogate in ground arith) in
    ground (arith, escape)

consume_low-rune_text : (w : ℕ) (tail : Bytes) → consume_low (rune_text w ++ tail) ≡ none
consume_low-rune_text w tail = elim (dec_lt w 0x80) [
  | yes low ↦ consume_low-ascii w tail low
  | no high ↦ rw (rune_text-high w (omega arith)) (consume_low-encode_rune w tail (omega arith))
]

consume_low-piece :
    (w : ℕ) (tail : Bytes) → is_low_surrogate w ≡ false → consume_low (piece w ++ tail) ≡ none
unfolding piece
consume_low-piece w tail l = elim (Bool-cases (is_surrogate w)) [
  | inl s ↦ rw s (consume_low-unicode_escape w tail (surrogate-small w s) l)
  | inr s ↦ rw s (consume_low-rune_text w tail)
]

consume_low-pieces :
    (v : ℕ) (vs : List ℕ) (rest : Bytes)
    → IsApart v vs
    → is_high_surrogate v ≡ true
    → consume_low (pieces vs ++ b'"' ∷ rest) ≡ none
unfolding pieces
consume_low-pieces v [] rest a high = unfold consume_low in refl
consume_low-pieces v (w ∷ vs) rest a high = rw append_assoc (consume_low-piece w _ (ground arith))

-- One round of the reader.
string_piece-piece :
    (v : ℕ) (vs : List ℕ) (rest : Bytes)
    → v ≤ 0x10ffff
    → IsApart v vs
    → string_piece (piece v ++ (pieces vs ++ b'"' ∷ rest))
      ≡ more (encode_code v) (pieces vs ++ b'"' ∷ rest)
unfolding piece encode_code
string_piece-piece v vs rest h a = elim (Bool-cases (is_surrogate v)) [
  | inl s ↦ rw s (string_piece-surrogate v _ s (consume_low-pieces v vs rest a))
  | inr s ↦ rw s (string_piece-rune_text v _ h s)
]

string_loop-more :
    (fuel : ℕ) (out bs taken rest : Bytes)
    → string_piece bs ≡ more taken rest
    → string_loop (suc fuel) out bs ≡ string_loop fuel (out ++ taken) rest
unfolding string_loop
string_loop-more fuel out bs taken rest e = rw (e, string_loop)

string_loop-pieces :
    (fuel : ℕ) (vs : List ℕ) (out rest : Bytes)
    → AreCodes vs
    → length vs < fuel
    → string_loop fuel out (pieces vs ++ b'"' ∷ rest) ≡ read (out ++ encode_codes vs) rest
unfolding pieces encode_codes
string_loop-pieces zero vs out rest c h = absurd (omega arith)
string_loop-pieces (suc fuel) [] out rest c h = unfold string_loop string_piece in rw append-nil
string_loop-pieces (suc fuel) (v ∷ vs) out rest c h = rw (append_assoc (piece v)) (
    string_loop-more fuel out _ _ _ (string_piece-piece v vs rest c.0 c.1)
    ∙ string_loop-pieces fuel vs (out ++ encode_code v) rest c.2 (omega arith)
    ∙ rw append_assoc)

encode_rune_pos : (v : ℕ) → 0 < length (encode_rune v)
encode_rune_pos v = let (a, bs, e) = encode_rune-IsCons v in rw e (omega arith)

unicode_escape_pos : (v : ℕ) → 0 < length (unicode_escape v)
unfolding unicode_escape
unicode_escape_pos v = ground (arith, encode_rune_pos v)

rune_text_pos : (v : ℕ) → 0 < length (rune_text v)
unfolding rune_text
rune_text_pos v = ground (arith, encode_rune_pos v, unicode_escape_pos v)

length-le-pieces : (vs : List ℕ) → length vs ≤ length (pieces vs)
unfolding pieces piece
length-le-pieces [] = omega arith
length-le-pieces (v ∷ vs) = ground (
  arith,
  rune_text_pos v,
  unicode_escape_pos v,
  length-append (piece v) (pieces vs),
  length-le-pieces vs,
)

parse_string-codes :
    (vs : List ℕ) (rest : Bytes)
    → AreCodes vs
    → parse_string (write_string (encode_codes vs) ++ rest) ≡ read (encode_codes vs) rest
unfolding parse_string write_string
parse_string-codes vs rest c =
    let enough : length (encode_codes vs) ≤ length (encode_codes vs) = omega arith in
    rw (write_loop-encode_codes (length (encode_codes vs)) vs c enough, append_assoc (pieces vs))
      (string_loop-pieces (suc (length (pieces vs ++ b'"' ∷ rest))) vs [] rest c
        (omega (arith, length-le-pieces vs, length-append (pieces vs) (b'"' ∷ rest))))

-- A written string is read back off the front of any bytes.
pub parse_string-write_string :
    (s rest : Bytes) → IsText s → parse_string (write_string s ++ rest) ≡ read s rest
unfolding IsText
parse_string-write_string s rest (vs, c, e) = rw e (parse_string-codes vs rest c)
