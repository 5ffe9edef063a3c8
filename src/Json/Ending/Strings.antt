-- ===== src/Json/Ending/Strings.antt =====
-- `parseString` takes at least a byte, and each round of its loop does.
use homer_cli.Base.{
  ℕ, zero, suc, ◌≤◌, ◌<◌, ◌≡◌, refl, Bool, true, false, some, [], ◌∷◌, ◌++◌, arith, length, leb,
  ltb, Option-cases, inl, inr,
}
use homer_cli.Base.Bytes.{Bytes}
use homer_cli.Json.Utf8.{Decoded, decode_rune}
use homer_cli.Json.Parser.{
  SyntaxError, exhausted, Result, read, failed, Piece, closed, more, broken, hex_unit, consume_low,
  unit_piece, unicode_piece, escape_piece, raw_piece, string_piece, string_loop, parse_string,
}

-- An error other than the end of the fuel.
abbrev pub is_real : SyntaxError → Bool
is_real exhausted = false
is_real e = true

-- What is left is at most so long, and the fuel was enough.
abbrev pub leaves {ℓ} : {A : Type ℓ} → ℕ → Result A → Bool
leaves n (read a rest) = leb (length rest) n
leaves n (failed e rest) = is_real e

-- A round leaves less than n bytes.
abbrev shrinks : ℕ → Piece → Bool
shrinks n (closed rest) = ltb (length rest) n
shrinks n (more bs rest) = ltb (length rest) n
shrinks n (broken e rest) = is_real e

length-decode_rune :
    (bs : Bytes) (r : Decoded) → decode_rune bs ≡ some r → length r.rest < length bs
unfolding decode_rune
length-decode_rune [] r e = cc
length-decode_rune (a ∷ []) r e = ground arith
length-decode_rune (a ∷ b ∷ []) r e = ground arith
length-decode_rune (a ∷ b ∷ c ∷ []) r e = ground arith
length-decode_rune (a ∷ b ∷ c ∷ d ∷ bs) r e = ground arith

length-consume_low :
    (bs : Bytes) (unit : ℕ) (rest : Bytes)
    → consume_low bs ≡ some (unit, rest)
    → length rest ≤ length bs
unfolding consume_low
length-consume_low [] u r e = cc
length-consume_low (a ∷ []) u r e = ground arith
length-consume_low (a ∷ b ∷ []) u r e = ground arith
length-consume_low (a ∷ b ∷ c ∷ []) u r e = ground arith
length-consume_low (a ∷ b ∷ c ∷ d ∷ []) u r e = ground arith
length-consume_low (a ∷ b ∷ c ∷ d ∷ f ∷ []) u r e = ground arith
length-consume_low (a ∷ b ∷ c ∷ d ∷ f ∷ g ∷ bs) u r e = ground arith

weaken : (p : Piece) (m n : ℕ) → shrinks m p ≡ true → m ≤ n → shrinks n p ≡ true
weaken (closed rest) m n h l = ground arith
weaken (more bs rest) m n h l = ground arith
weaken (broken e rest) m n h l = h

pub leaves_weaken {ℓ} :
    {A : Type ℓ} (r : Result A) (m n : ℕ) → leaves m r ≡ true → m ≤ n → leaves n r ≡ true
leaves_weaken (read a rest) m n h l = ground arith
leaves_weaken (failed e rest) m n h l = h

shrinks-unit_piece : (unit : ℕ) (bs : Bytes) → shrinks (suc (length bs)) (unit_piece unit bs) ≡ true
unfolding unit_piece
shrinks-unit_piece unit bs = elim (Option-cases (consume_low bs)) [
  | inl alone ↦ ground arith
  | inr ((low, rest), e) ↦ ground (arith, length-consume_low bs low rest e)
]

shrinks-unicode_piece : (bs : Bytes) → shrinks (suc (length bs)) (unicode_piece bs) ≡ true
unfolding unicode_piece
shrinks-unicode_piece [] = refl
shrinks-unicode_piece (a ∷ []) = refl
shrinks-unicode_piece (a ∷ b ∷ []) = refl
shrinks-unicode_piece (a ∷ b ∷ c ∷ []) = refl
shrinks-unicode_piece (a ∷ b ∷ c ∷ d ∷ bs) = elim (Option-cases (hex_unit a b c d)) [
  | inl bad ↦ rw bad
  | inr (unit, e) ↦
      rw e (weaken (unit_piece unit bs) _ _ (shrinks-unit_piece unit bs) (omega arith))
]

shrinks-escape_piece : (bs : Bytes) → shrinks (suc (length bs)) (escape_piece bs) ≡ true
unfolding escape_piece
shrinks-escape_piece [] = refl
shrinks-escape_piece (e ∷ bs) =
    let unicode =
      weaken (unicode_piece bs) (suc (length bs)) (suc (suc (length bs))) (shrinks-unicode_piece bs)
        (omega arith) in
    ground arith

shrinks-raw_piece : (bs : Bytes) → shrinks (length bs) (raw_piece (decode_rune bs) bs) ≡ true
shrinks-raw_piece bs = elim (Option-cases (decode_rune bs)) [
  | inl bad ↦ rw bad
  | inr (r, e) ↦ ground (arith, length-decode_rune bs r e)
]

shrinks-string_piece : (bs : Bytes) → shrinks (length bs) (string_piece bs) ≡ true
unfolding string_piece
shrinks-string_piece [] = refl
shrinks-string_piece (c ∷ bs) = ground (arith, shrinks-escape_piece bs, shrinks-raw_piece (c ∷ bs))

leaves-round :
    (fuel : ℕ) (out bs : Bytes) (p : Piece)
    → string_piece bs ≡ p
    → shrinks (length bs) p ≡ true
    → length bs < suc fuel
    → ((taken rest : Bytes)
        → length rest < fuel
        → leaves (length rest) (string_loop fuel (out ++ taken) rest) ≡ true)
    → leaves (length bs) (string_loop (suc fuel) out bs) ≡ true
unfolding string_loop
leaves-round fuel out bs (closed rest) e s h ih = rw (e, string_loop) (ground arith)
leaves-round fuel out bs (more taken rest) e s h ih =
    rw (e, string_loop)
      (leaves_weaken (string_loop fuel (out ++ taken) rest) (length rest) (length bs)
        (ih taken rest (ground arith)) (ground arith))
leaves-round fuel out bs (broken why rest) e s h ih = rw (e, string_loop) s

-- With a round for each byte the loop ends.
leaves-string_loop :
    (fuel : ℕ) (out bs : Bytes)
    → length bs < fuel
    → leaves (length bs) (string_loop fuel out bs) ≡ true
leaves-string_loop zero out bs h = absurd (omega arith)
leaves-string_loop (suc fuel) out bs h =
    leaves-round fuel out bs (string_piece bs) refl (shrinks-string_piece bs) h
      (λ taken rest. leaves-string_loop fuel (out ++ taken) rest)

pub leaves-parse_string : (bs : Bytes) → leaves (length bs) (parse_string bs) ≡ true
unfolding parse_string
leaves-parse_string [] = refl
leaves-parse_string (c ∷ bs) =
    let inside =
      leaves_weaken (string_loop (suc (length bs)) [] bs) (length bs) (suc (length bs))
        (leaves-string_loop (suc (length bs)) [] bs (omega arith)) (omega arith) in
    ground arith
