-- ===== src/Json/RoundTrip/Codes.antt =====
-- The strings that the serializer keeps, as code points, and what `writeString` writes for them.
use homer_cli.Base.{
  ℕ, zero, suc, ◌≤◌, ◌<◌, ◌≡◌, ◌≢◌, refl, ap, ◌∙◌, false, ◌&&◌, none, some, List, [], ◌∷◌, ◌++◌,
  arith, length, length-append, if◌then◌else◌, Bool-cases, inl, inr,
}
use homer_cli.Base.Bytes.{Bytes}
use homer_cli.Json.Utf8.{
  is_high_surrogate, is_low_surrogate, encode_rune, decode_rune, decode_surrogate,
}
use homer_cli.Json.Printer.{unicode_escape, rune_text, write_round, write_loop}
use homer_cli.Json.RoundTrip.Runes.{
  is_surrogate, encode_code, decode_rune-encode_rune, decode_surrogate-encode_rune,
  decode_surrogate_lem,
}

-- A high surrogate is not followed by a low one: the two would be one rune.
abbrev pub IsApart : ℕ → List ℕ → Type 0
IsApart v [] = Unit
IsApart v (w ∷ ws) = (is_high_surrogate v && is_low_surrogate w) ≡ false

-- Code points that the bytes of a string can stand for.
abbrev pub AreCodes : List ℕ → Type 0
AreCodes [] = Unit
AreCodes (v ∷ vs) = (v ≤ 0x10ffff) × IsApart v vs × AreCodes vs

unfoldable pub encode_codes : List ℕ → Bytes
encode_codes [] = []
encode_codes (v ∷ vs) = encode_code v ++ encode_codes vs

-- The bytes of a string without broken UTF-8, lone surrogates as three bytes each.
unfoldable pub IsText : Bytes → Type 0
IsText bs = (vs : List ℕ) × AreCodes vs × (bs ≡ encode_codes vs)

unfoldable pub piece : ℕ → Bytes
piece v = if is_surrogate v then unicode_escape v else rune_text v

unfoldable pub pieces : List ℕ → Bytes
pieces [] = []
pieces (v ∷ vs) = piece v ++ pieces vs

abbrev pub IsCons : Bytes → Type 0
IsCons bs = (a : ℕ) × (cs : Bytes) × (bs ≡ a ∷ cs)

IsCons-ne : (bs : Bytes) → bs ≢ [] → IsCons bs
IsCons-ne [] ne = absurd (ne refl)
IsCons-ne (a ∷ bs) ne = (a, bs, refl)

encode_rune-ne-nil : (v : ℕ) → encode_rune v ≢ []
unfolding encode_rune
encode_rune-ne-nil v e = ground arith

pub encode_rune-IsCons : (v : ℕ) → IsCons (encode_rune v)
encode_rune-IsCons v = IsCons-ne (encode_rune v) (encode_rune-ne-nil v)

write_loop-cons :
    (fuel v a : ℕ) (bs tail : Bytes)
    → decode_surrogate (a ∷ (bs ++ tail)) ≡ none
    → decode_rune (a ∷ (bs ++ tail)) ≡ some (record { value = v; taken = a ∷ bs; rest = tail })
    → write_loop (suc fuel) (a ∷ (bs ++ tail)) ≡ rune_text v ++ write_loop fuel tail
unfolding write_loop write_round
write_loop-cons fuel v a bs tail d r = rw (d, r)

write_loop-rune :
    (fuel v : ℕ) (tail : Bytes)
    → v ≤ 0x10ffff
    → is_surrogate v ≡ false
    → write_loop (suc fuel) (encode_rune v ++ tail) ≡ rune_text v ++ write_loop fuel tail
write_loop-rune fuel v tail h s =
    let (a, bs, e) = encode_rune-IsCons v in
    rw e (
      write_loop-cons fuel v a bs tail (rw e at (decode_surrogate-encode_rune v tail h s))
        (rw e at (decode_rune-encode_rune v tail h s)))

-- One round of the writer.
write_loop-encode_code :
    (fuel v : ℕ) (tail : Bytes)
    → v ≤ 0x10ffff
    → write_loop (suc fuel) (encode_code v ++ tail) ≡ piece v ++ write_loop fuel tail
unfolding encode_code piece
write_loop-encode_code fuel v tail h = elim (Bool-cases (is_surrogate v)) [
  | inl s ↦ rw s (unfold write_loop write_round in rw (decode_surrogate_lem v tail s))
  | inr s ↦ rw s (write_loop-rune fuel v tail h s)
]

encode_code_pos : (v : ℕ) → 0 < length (encode_code v)
unfolding encode_code
encode_code_pos v =
    let (a, bs, e) = encode_rune-IsCons v in
    elim (Bool-cases (is_surrogate v)) [
      | inl s ↦ rw s (omega arith)
      | inr s ↦ rw (s, e) (omega arith)
    ]

-- With a round for each byte all code points are written.
pub write_loop-encode_codes :
    (fuel : ℕ) (vs : List ℕ)
    → AreCodes vs
    → length (encode_codes vs) ≤ fuel
    → write_loop fuel (encode_codes vs) ≡ pieces vs
unfolding encode_codes pieces write_loop
write_loop-encode_codes zero [] c h = refl
write_loop-encode_codes (suc fuel) [] c h = refl
write_loop-encode_codes zero (v ∷ vs) c h =
    absurd (omega (arith, length-append (encode_code v) (encode_codes vs), encode_code_pos v))
write_loop-encode_codes (suc fuel) (v ∷ vs) c h =
    write_loop-encode_code fuel v (encode_codes vs) c.0
    ∙ ap (λ t. piece v ++ t)
        (write_loop-encode_codes fuel vs c.2
          (omega (arith, length-append (encode_code v) (encode_codes vs), encode_code_pos v)))
