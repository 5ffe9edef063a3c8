-- ===== src/Json/RoundTrip/Numbers.antt =====
-- The text of a number is read back in front of whatever ends a number.
use homer_cli.Base.{ℕ, ◌≡◌, refl, Bool, true, false, not, ◌||◌, [], ◌∷◌, ◌++◌, arith, ◌==◌}
use homer_cli.Base.Bytes.{Bytes}
use homer_cli.Json.Parser.{
  SyntaxError, Result, no_fraction, no_exponent, read, failed, then_read, is_digit, take_digits,
  drop_digits, starts_digit, sign_part, integer_part, some_digits, fraction_part, signed_digits,
  exponent_part, parse_number,
}

-- Bytes that no number goes on with.
unfoldable pub ends : Bytes → Bool
ends [] = true
ends (c ∷ bs) = not (is_digit c || c == b'.' || c == b'e' || c == b'E' || c == b'-')

-- What is read with more behind it is read as before, if it is read at all.
abbrev Extended : Bytes → Result Bytes → Result Bytes → Type 0
Extended rest m m' = (t r : Bytes) → m ≡ read t r → m' ≡ read t (r ++ rest)

and_then-Extended :
    (rest : Bytes) (m m' : Result Bytes) (f : Bytes → Bytes → Result Bytes)
    → Extended rest m m'
    → ((t r : Bytes) → Extended rest (f t r) (f t (r ++ rest)))
    → Extended rest (then_read m f) (then_read m' f)
and_then-Extended rest (read t r) m' f p q u s e = rw (p t r refl) (q t r u s e)
and_then-Extended rest (failed why r) m' f p q u s e = cc

abbrev Extends : (Bytes → Result Bytes) → Bytes → Type 0
Extends part rest = (s : Bytes) → Extended rest (part s) (part (s ++ rest))

read-injective :
    {s t q r : Bytes} → ◌≡◌ {A = Result Bytes} (read s q) (read t r) → (s ≡ t) × (q ≡ r)
read-injective e = (cc, cc)

starts_digit-ends : (rest : Bytes) → ends rest ≡ true → starts_digit rest ≡ false
unfolding starts_digit ends
starts_digit-ends [] h = refl
starts_digit-ends (c ∷ bs) h = ground arith

take_digits-ends : (rest : Bytes) → ends rest ≡ true → take_digits rest ≡ []
unfolding take_digits ends
take_digits-ends [] h = refl
take_digits-ends (c ∷ bs) h = ground arith

drop_digits-ends : (rest : Bytes) → ends rest ≡ true → drop_digits rest ≡ rest
unfolding drop_digits ends
drop_digits-ends [] h = refl
drop_digits-ends (c ∷ bs) h = ground arith

sign_part-other : (c : ℕ) (bs : Bytes) → (c == b'-') ≡ false → sign_part (c ∷ bs) ≡ read [] (c ∷ bs)
unfolding sign_part
sign_part-other c [] h = ground arith
sign_part-other c (d ∷ bs) h = ground arith

sign_part-ends : (rest : Bytes) → ends rest ≡ true → sign_part rest ≡ read [] rest
unfolding ends
sign_part-ends [] h = unfold sign_part in refl
sign_part-ends (c ∷ bs) h = sign_part-other c bs (ground arith)

fraction_part-ends : (rest : Bytes) → ends rest ≡ true → fraction_part rest ≡ read [] rest
unfolding fraction_part ends
fraction_part-ends [] h = refl
fraction_part-ends (c ∷ bs) h = ground arith

exponent_part-ends : (rest : Bytes) → ends rest ≡ true → exponent_part rest ≡ read [] rest
unfolding exponent_part ends
exponent_part-ends [] h = refl
exponent_part-ends (c ∷ bs) h = ground arith

module _ (rest : Bytes) (h : ends rest ≡ true) where
  starts_digit-append : (s : Bytes) → starts_digit (s ++ rest) ≡ starts_digit s
  unfolding starts_digit
  starts_digit-append [] = starts_digit-ends rest h
  starts_digit-append (c ∷ s) = refl

  take_digits-append : (s : Bytes) → take_digits (s ++ rest) ≡ take_digits s
  unfolding take_digits
  take_digits-append [] = take_digits-ends rest h
  take_digits-append (c ∷ s) = rw (take_digits-append s)

  drop_digits-append : (s : Bytes) → drop_digits (s ++ rest) ≡ drop_digits s ++ rest
  unfolding drop_digits
  drop_digits-append [] = drop_digits-ends rest h
  drop_digits-append (c ∷ s) = ground (arith, drop_digits-append s)

  sign_part-Extends : Extends sign_part rest
  sign_part-Extends [] t r e = unfold sign_part in ground (arith, sign_part-ends rest h)
  sign_part-Extends (c ∷ []) t r e = unfold sign_part in ground (arith, sign_part-other c rest)
  sign_part-Extends (c ∷ d ∷ s) t r e = unfold sign_part in ground arith

  integer_part-Extends : Extends integer_part rest
  unfolding integer_part
  integer_part-Extends [] t r e = cc
  integer_part-Extends (c ∷ s) t r e =
      ground (arith, starts_digit-append s, take_digits-append s, drop_digits-append s)

  some_digits-Extends : (why : SyntaxError) (before : Bytes) → Extends (some_digits why before) rest
  unfolding some_digits
  some_digits-Extends why before s t r e =
      ground (arith, starts_digit-append s, take_digits-append s, drop_digits-append s)

  fraction_part-Extends : Extends fraction_part rest
  fraction_part-Extends [] t r e = unfold fraction_part in ground (arith, fraction_part-ends rest h)
  fraction_part-Extends (c ∷ s) t r e =
      unfold fraction_part in ground (arith, some_digits-Extends no_fraction (c ∷ []) s t r)

  signed_digits-Extends : (c : ℕ) → Extends (signed_digits c) rest
  unfolding signed_digits
  signed_digits-Extends c [] t r e = cc
  signed_digits-Extends c (d ∷ s) t r e = ground (
    arith,
    some_digits-Extends no_exponent (c ∷ d ∷ []) s t r,
    some_digits-Extends no_exponent (c ∷ []) (d ∷ s) t r,
  )

  exponent_part-Extends : Extends exponent_part rest
  exponent_part-Extends [] t r e = unfold exponent_part in ground (arith, exponent_part-ends rest h)
  exponent_part-Extends (c ∷ s) t r e =
      unfold exponent_part in ground (arith, signed_digits-Extends c s t r)

  -- The text of a number is read as before, in front of whatever ends it.
  parse_number-Extends : Extends parse_number rest
  unfolding parse_number
  parse_number-Extends s = and_then-Extended rest _ _ _ (sign_part-Extends s) λ sign a.
      and_then-Extended rest _ _ _ (integer_part-Extends a) λ integer b.
        and_then-Extended rest _ _ _ (fraction_part-Extends b) λ fraction c.
          and_then-Extended rest _ _ _ (exponent_part-Extends c) λ exponent d t r e. cc

-- The text of a number, read back whole in front of whatever ends it.
pub parse_number-append :
    (s rest : Bytes)
    → parse_number s ≡ read s []
    → ends rest ≡ true
    → parse_number (s ++ rest) ≡ read s rest
parse_number-append s rest e h = parse_number-Extends rest h s s [] e
