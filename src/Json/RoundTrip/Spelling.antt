-- ===== src/Json/RoundTrip/Spelling.antt =====
-- What `formatJSNumber` gives is "null" or the text of a number.
use homer_cli.Base.{ℕ, ◌≡◌, refl, true, false, ◌||◌, [], ◌∷◌, ◌++◌, arith, All, ◌==◌, append-nil}
use mathlib.Core.Path.{subst}
use homer_cli.Base.Bytes.{Bytes, IsByte}
use homer_cli.Json.Utf8.{within}
use homer_cli.Json.Parser.{
  SyntaxError, no_fraction, no_exponent, read, is_digit, take_digits, drop_digits, starts_digit,
  sign_part, integer_part, fraction_part, some_digits, signed_digits, exponent_part, parse_number,
}
use homer_cli.Json.RoundTrip.Settled.{IsNumeral}

abbrev pub IsDigit : ℕ → Type 0
IsDigit c = is_digit c ≡ true

take_digits-digits :
    (ds rest : Bytes) → All IsDigit ds → starts_digit rest ≡ false → take_digits (ds ++ rest) ≡ ds
unfolding take_digits starts_digit
take_digits-digits [] [] h e = refl
take_digits-digits [] (c ∷ rest) h e = rw e
take_digits-digits (d ∷ ds) rest h e = rw (h.0, take_digits-digits ds rest h.1 e)

drop_digits-digits :
    (ds rest : Bytes) → All IsDigit ds → starts_digit rest ≡ false → drop_digits (ds ++ rest) ≡ rest
unfolding drop_digits starts_digit
drop_digits-digits [] [] h e = refl
drop_digits-digits [] (c ∷ rest) h e = rw e
drop_digits-digits (d ∷ ds) rest h e = rw (h.0, drop_digits-digits ds rest h.1 e)

some_digits-digits :
    (why : SyntaxError) (before ds rest : Bytes)
    → All IsDigit ds
    → starts_digit (ds ++ rest) ≡ true
    → starts_digit rest ≡ false
    → some_digits why before (ds ++ rest) ≡ read (before ++ ds) rest
unfolding some_digits
some_digits-digits why before ds rest h s e =
    rw (s, take_digits-digits ds rest h e, drop_digits-digits ds rest h e)

some_digits-All :
    (why : SyntaxError) (before ds : Bytes)
    → All IsDigit ds
    → starts_digit ds ≡ true
    → some_digits why before ds ≡ read (before ++ ds) []
some_digits-All why before ds h s =
    subst (λ t. some_digits why before t ≡ read (before ++ ds) []) (append-nil ds)
      (some_digits-digits why before ds [] h (rw append-nil s) (unfold starts_digit in refl))

-- The parts of a number's text.
abbrev pub IsInteger : Bytes → Type 0
IsInteger int =
    (All IsDigit int × (starts_digit int ≡ true))
    × ((rest : Bytes) → starts_digit rest ≡ false → integer_part (int ++ rest) ≡ read int rest)

-- What may follow the digits of a fraction.
abbrev IsBehind : Bytes → Type 0
IsBehind [] = Unit
IsBehind (c ∷ bs) = (is_digit c ≡ false) × ((c == b'.') ≡ false)

abbrev pub IsFraction : Bytes → Type 0
IsFraction fraction =
    All IsByte fraction
    × (starts_digit fraction ≡ false)
    × ((rest : Bytes) → IsBehind rest → fraction_part (fraction ++ rest) ≡ read fraction rest)

abbrev pub IsExponent : Bytes → Type 0
IsExponent exponent =
    All IsByte exponent × IsBehind exponent × (exponent_part exponent ≡ read exponent [])

pub zero-IsInteger : IsInteger (b'0' ∷ [])
zero-IsInteger = (((refl, tt), unfold starts_digit in refl), λ rest e. unfold integer_part in rw e)

pub digits-IsInteger :
    (d : ℕ) (ds : Bytes) → within b'1' b'9' d ≡ true → All IsDigit ds → IsInteger (d ∷ ds)
digits-IsInteger d ds w h = (((ground arith, h), unfold starts_digit in ground arith), reads)
  where
    reads :
        (rest : Bytes)
        → starts_digit rest ≡ false
        → integer_part (d ∷ (ds ++ rest)) ≡ read (d ∷ ds) rest
    reads rest e =
        unfold integer_part in
        ground (arith, take_digits-digits ds rest h e, drop_digits-digits ds rest h e)

fraction_part-behind : (rest : Bytes) → IsBehind rest → fraction_part rest ≡ read [] rest
unfolding fraction_part
fraction_part-behind [] b = refl
fraction_part-behind (c ∷ bs) b = rw b.1

starts_digit-behind : (rest : Bytes) → IsBehind rest → starts_digit rest ≡ false
unfolding starts_digit
starts_digit-behind [] b = refl
starts_digit-behind (c ∷ bs) b = b.0

bytes_of_digits : (ds : Bytes) → All IsDigit ds → All IsByte ds
bytes_of_digits [] h = tt
bytes_of_digits (d ∷ ds) h = (ground arith, bytes_of_digits ds h.1)

pub no-IsFraction : IsFraction []
no-IsFraction = (tt, unfold starts_digit in refl, fraction_part-behind)

pub point-IsFraction : (d : ℕ) (ds : Bytes) → All IsDigit (d ∷ ds) → IsFraction (b'.' ∷ d ∷ ds)
point-IsFraction d ds h = (
  (omega arith, bytes_of_digits (d ∷ ds) h),
  unfold starts_digit in refl,
  λ rest b. reads rest (starts_digit-behind rest b),
)
  where
    reads :
        (rest : Bytes)
        → starts_digit rest ≡ false
        → fraction_part (b'.' ∷ d ∷ (ds ++ rest)) ≡ read (b'.' ∷ d ∷ ds) rest
    reads rest e =
        unfold fraction_part in
        some_digits-digits no_fraction (b'.' ∷ []) (d ∷ ds) rest h (unfold starts_digit in h.0) e

pub no-IsExponent : IsExponent []
no-IsExponent = (tt, tt, unfold exponent_part in refl)

pub signed-IsExponent :
    (s d : ℕ) (ds : Bytes)
    → (s == b'+' || s == b'-') ≡ true
    → All IsDigit (d ∷ ds)
    → IsExponent (b'e' ∷ s ∷ d ∷ ds)
signed-IsExponent s d ds p h = (
  (omega arith, (ground arith, bytes_of_digits (d ∷ ds) h)),
  (refl, refl),
  unfold exponent_part signed_digits in
      rw p (some_digits-All no_exponent (b'e' ∷ s ∷ []) (d ∷ ds) h (unfold starts_digit in h.0)),
)

pub All-join : (P : ℕ → Type 0) (xs ys : Bytes) → All P xs → All P ys → All P (xs ++ ys)
All-join P [] ys h k = k
All-join P (x ∷ xs) ys h k = (h.0, All-join P xs ys h.1 k)

starts_digit-join :
    (fraction exponent : Bytes)
    → starts_digit fraction ≡ false
    → IsBehind exponent
    → starts_digit (fraction ++ exponent) ≡ false
starts_digit-join [] exponent h b = starts_digit-behind exponent b
starts_digit-join (c ∷ fraction) exponent h b = unfold starts_digit in h

sign_part-digit :
    (bs rest : Bytes) → starts_digit bs ≡ true → sign_part (bs ++ rest) ≡ read [] (bs ++ rest)
unfolding sign_part starts_digit
sign_part-digit [] rest h = cc
sign_part-digit (c ∷ d ∷ bs) rest h = ground arith
sign_part-digit (c ∷ []) [] h = ground arith
sign_part-digit (c ∷ []) (d ∷ rest) h = ground arith

sign_part-minus :
    (bs rest : Bytes)
    → starts_digit bs ≡ true
    → sign_part (b'-' ∷ (bs ++ rest)) ≡ read (b'-' ∷ []) (bs ++ rest)
unfolding sign_part starts_digit
sign_part-minus [] rest h = cc
sign_part-minus (c ∷ bs) rest h = refl

module _ (int fraction exponent : Bytes) (i : IsInteger int) (f : IsFraction fraction)
    (e : IsExponent exponent) where
  parts_bytes : All IsByte (int ++ (fraction ++ exponent))
  parts_bytes =
      All-join IsByte int (fraction ++ exponent) (bytes_of_digits int i.0.0)
        (All-join IsByte fraction exponent f.0 e.0)

  parse_number-parts :
      (finished sign : Bytes)
      → sign_part finished ≡ read sign (int ++ (fraction ++ exponent))
      → parse_number finished ≡ read (sign ++ (int ++ (fraction ++ exponent))) []
  unfolding parse_number
  parse_number-parts finished sign s = ground (
    arith,
    i.1 (fraction ++ exponent) (starts_digit-join fraction exponent f.1 e.1),
    f.2 exponent e.1,
  )

  pub IsNumeral-parts : IsNumeral (int ++ (fraction ++ exponent))
  IsNumeral-parts =
      (parse_number-parts _ [] (sign_part-digit int (fraction ++ exponent) i.0.1), parts_bytes)

  pub IsNumeral-minus : IsNumeral (b'-' ∷ (int ++ (fraction ++ exponent)))
  IsNumeral-minus = (
    parse_number-parts _ (b'-' ∷ []) (sign_part-minus int (fraction ++ exponent) i.0.1),
    (omega arith, parts_bytes),
  )
