-- ===== src/Json/RoundTrip/Formats.antt =====
-- `formatJSNumber` gives "null" or the text of a number, whatever the shortest digits of a double are.
use homer_cli.Base.{
  ℕ, zero, suc, ◌+◌, ◌-◌, ◌/◌, ◌%◌, ◌<◌, ◌≡◌, refl, Bool, true, false, ◌||◌, String, [], ◌∷◌, ◌++◌,
  arith, All, ◌==◌, ltb, leb, length, append-nil, or-false, Bool-cases, inl, inr,
}
use homer_cli.Base.Bytes.{Bytes, bytes_of}
use homer_cli.Base.Integers.{ℤ, pos, negsuc}
use homer_cli.Json.Numbers.{FloatParser, is_nan, is_zero}
use homer_cli.Json.Utf8.{within}
use homer_cli.Json.Parser.{is_digit}
use homer_cli.Json.Printer.{
  Scientific, FloatPrinter, decimal_loop, decimal, is_inf, without_points, keep_unless_zero,
  trim_zeros, zeros, with_point, exponent_string, point_and, with_exponent, number_body, minus,
  scientific_text, format_js_number,
}
use homer_cli.Json.RoundTrip.Settled.{IsNumeral, IsNumberText}
use homer_cli.Json.RoundTrip.Spelling.{
  IsDigit, IsInteger, IsFraction, IsExponent, zero-IsInteger, digits-IsInteger, no-IsFraction,
  point-IsFraction, no-IsExponent, signed-IsExponent, All-join, IsNumeral-parts, IsNumeral-minus,
}

-- The digits of a double that is not zero: the first is not 0, the others stand behind a point.
abbrev pub IsMantissa : Bytes → Type 0
IsMantissa m =
    (d : ℕ) × (ds : Bytes) × (within b'1' b'9' d ≡ true) × All IsDigit ds × (m ≡ d ∷ point_and ds)

-- What Go documents of `FormatFloat` with format 'e'.
pub record IsFloatPrinter (fp : FloatPrinter) : Type 0 where
  pub mantissa :
      (bits : ℕ)
      → is_nan bits ≡ false
      → is_inf bits ≡ false
      → is_zero bits ≡ false
      → IsMantissa (fp.format_float bits).mantissa

-- A number's text in its parts.
abbrev IsSpelled : Bytes → Type 0
IsSpelled bs =
    (int : Bytes) × (fraction : Bytes) × (exponent : Bytes) × IsInteger int
    × IsFraction fraction
    × IsExponent exponent
    × (bs ≡ int ++ (fraction ++ exponent))

minus-IsNumeral : (negative : Bool) (bs : Bytes) → IsSpelled bs → IsNumeral (minus negative bs)
minus-IsNumeral true bs (i, f, e, p, q, r, same) = rw same (IsNumeral-minus i f e p q r)
minus-IsNumeral false bs (i, f, e, p, q, r, same) = rw same (IsNumeral-parts i f e p q r)

decimal_loop-digits :
    (fuel n : ℕ) (d : ℕ) (ds : Bytes)
    → All IsDigit (d ∷ ds)
    → (c : ℕ) × (cs : Bytes) × All IsDigit (c ∷ cs) × (decimal_loop fuel n (d ∷ ds) ≡ c ∷ cs)
unfolding decimal_loop
decimal_loop-digits zero n d ds h = (d, ds, h, refl)
decimal_loop-digits (suc fuel) n d ds h = elim (Bool-cases (ltb n 10)) [
  | inl small ↦ (b'0' + n, d ∷ ds, (ground arith, h), rw small)
  | inr large ↦
      let (c, cs, k, e) =
        decimal_loop-digits fuel (n / 10) (b'0' + n % 10) (d ∷ ds) (ground arith, h) in
      (c, cs, k, rw large e)
]

decimal-digits : (n : ℕ) → (c : ℕ) × (cs : Bytes) × All IsDigit (c ∷ cs) × (decimal n ≡ c ∷ cs)
unfolding decimal decimal_loop
decimal-digits n = elim (Bool-cases (ltb n 10)) [
  | inl small ↦ (b'0' + n, [], (ground arith, tt), rw small)
  | inr large ↦
      let (c, cs, k, e) = decimal_loop-digits n (n / 10) (b'0' + n % 10) [] (ground arith, tt) in
      (c, cs, k, rw large e)
]

zeros-digits : (n : ℕ) → All IsDigit (zeros n)
unfolding zeros
zeros-digits zero = tt
zeros-digits (suc n) = (refl, zeros-digits n)

keep_unless_zero-digits :
    (c : ℕ) (bs : Bytes) → is_digit c ≡ true → All IsDigit bs → All IsDigit (keep_unless_zero c bs)
keep_unless_zero-digits c [] h k = elim (Bool-cases (c == b'0')) [
  | inl e ↦ rw e tt
  | inr e ↦ rw e (h, tt)
]
keep_unless_zero-digits c (d ∷ bs) h k = (h, k)

trim_zeros-digits : (ds : Bytes) → All IsDigit ds → All IsDigit (trim_zeros ds)
unfolding trim_zeros
trim_zeros-digits [] h = tt
trim_zeros-digits (d ∷ ds) h =
    keep_unless_zero-digits d (trim_zeros ds) h.0 (trim_zeros-digits ds h.1)

keep_unless_zero-first :
    (c : ℕ) (bs : Bytes) → within b'1' b'9' c ≡ true → keep_unless_zero c bs ≡ c ∷ bs
keep_unless_zero-first c [] h = ground arith
keep_unless_zero-first c (d ∷ bs) h = refl

without_points-digits : (ds : Bytes) → All IsDigit ds → without_points ds ≡ ds
unfolding without_points
without_points-digits [] h = refl
without_points-digits (d ∷ ds) h = ground (arith, h.0, without_points-digits ds h.1)

without_points-point_and : (ds : Bytes) → All IsDigit ds → without_points (point_and ds) ≡ ds
without_points-point_and [] h = unfold without_points in refl
without_points-point_and (d ∷ ds) h = unfold without_points in without_points-digits (d ∷ ds) h

without_points-first :
    (d : ℕ) (bs : Bytes)
    → within b'1' b'9' d ≡ true
    → without_points (d ∷ bs) ≡ d ∷ without_points bs
unfolding without_points
without_points-first d bs w = ground arith

trimmed :
    (d : ℕ) (ds : Bytes)
    → within b'1' b'9' d ≡ true
    → All IsDigit ds
    → trim_zeros (without_points (d ∷ point_and ds)) ≡ d ∷ trim_zeros ds
trimmed d ds w h =
    rw (without_points-first d (point_and ds) w, without_points-point_and ds h)
      (unfold trim_zeros in keep_unless_zero-first d (trim_zeros ds) w)

-- The digits behind the point are cut off at the end only.
digits_of_mantissa :
    (m : Bytes)
    → IsMantissa m
    → (d : ℕ) × (ds : Bytes) × (within b'1' b'9' d ≡ true)
      × All IsDigit ds
      × (trim_zeros (without_points m) ≡ d ∷ ds)
digits_of_mantissa m (d, ds, w, h, e) =
    (d, trim_zeros ds, w, trim_zeros-digits ds h, rw e (trimmed d ds w h))

whole-IsSpelled :
    (d : ℕ) (ds : Bytes) → within b'1' b'9' d ≡ true → All IsDigit ds → IsSpelled (d ∷ ds)
whole-IsSpelled d ds w h =
    (d ∷ ds, [], [], digits-IsInteger d ds w h, no-IsFraction, no-IsExponent, rw append-nil)

-- A point between digits.
with_point-split :
    (n : ℕ) (ds : Bytes)
    → All IsDigit ds
    → n < length ds
    → (front : Bytes) × (c : ℕ) × (cs : Bytes) × All IsDigit front
      × All IsDigit (c ∷ cs)
      × (with_point n ds ≡ front ++ b'.' ∷ c ∷ cs)
unfolding with_point
with_point-split n [] h l = absurd (omega arith)
with_point-split zero (d ∷ ds) h l = ([], d, ds, tt, h, refl)
with_point-split (suc n) (d ∷ ds) h l =
    let (front, c, cs, p, q, e) = with_point-split n ds h.1 (omega arith) in
    (d ∷ front, c, cs, (h.0, p), q, rw e)

point-IsSpelled :
    (n d : ℕ) (ds : Bytes)
    → within b'1' b'9' d ≡ true
    → All IsDigit ds
    → n < length ds
    → IsSpelled (with_point (suc n) (d ∷ ds))
point-IsSpelled n d ds w h l =
    let (front, c, cs, p, q, e) = with_point-split n ds h l in
    (
      d ∷ front,
      b'.' ∷ c ∷ cs,
      [],
      digits-IsInteger d front w p,
      point-IsFraction c cs q,
      no-IsExponent,
      unfold with_point in rw (e, append-nil),
    )

small-IsSpelled :
    (n : ℕ) (d : ℕ) (ds : Bytes)
    → All IsDigit (d ∷ ds)
    → IsSpelled (b'0' ∷ b'.' ∷ (zeros n ++ d ∷ ds))
small-IsSpelled zero d ds h = (
  b'0' ∷ [],
  b'.' ∷ d ∷ ds,
  [],
  zero-IsInteger,
  point-IsFraction d ds h,
  no-IsExponent,
  unfold zeros in rw append-nil,
)
small-IsSpelled (suc n) d ds h =
    let k = All-join IsDigit (zeros n) (d ∷ ds) (zeros-digits n) h in
    (
      b'0' ∷ [],
      b'.' ∷ b'0' ∷ (zeros n ++ d ∷ ds),
      [],
      zero-IsInteger,
      point-IsFraction b'0' (zeros n ++ d ∷ ds) (refl, k),
      no-IsExponent,
      unfold zeros in rw append-nil,
    )

point_and-IsFraction : (ds : Bytes) → All IsDigit ds → IsFraction (point_and ds)
point_and-IsFraction [] h = no-IsFraction
point_and-IsFraction (d ∷ ds) h = point-IsFraction d ds h

exponent_string-IsExponent : (e : ℤ) → IsExponent (b'e' ∷ exponent_string e)
unfolding exponent_string
exponent_string-IsExponent (pos n) =
    let (c, cs, h, e) = decimal-digits n in rw e (signed-IsExponent b'+' c cs refl h)
exponent_string-IsExponent (negsuc n) =
    let (c, cs, h, e) = decimal-digits (suc n) in rw e (signed-IsExponent b'-' c cs refl h)

exponent-IsSpelled :
    (d : ℕ) (ds : Bytes) (e : ℤ)
    → within b'1' b'9' d ≡ true
    → All IsDigit ds
    → IsSpelled (with_exponent (d ∷ ds) e)
unfolding with_exponent
exponent-IsSpelled d ds e w h = (
  d ∷ [],
  point_and ds,
  b'e' ∷ exponent_string e,
  digits-IsInteger d [] w tt,
  point_and-IsFraction ds h,
  exponent_string-IsExponent e,
  refl,
)

number_body-IsSpelled :
    (d : ℕ) (ds : Bytes) (e : ℤ)
    → within b'1' b'9' d ≡ true
    → All IsDigit ds
    → IsSpelled (number_body (d ∷ ds) e)
unfolding number_body
number_body-IsSpelled d ds (pos n) w h = elim (Bool-cases (ltb n 21)) [
  | inr large ↦ rw large (exponent-IsSpelled d ds (pos n) w h)
  | inl small ↦ elim (Bool-cases (leb (length (d ∷ ds)) (n + 1))) [
    | inl finished ↦
        rw (small, finished)
          (whole-IsSpelled d (ds ++ zeros (n + 1 - length (d ∷ ds))) w
            (All-join IsDigit ds _ h (zeros-digits _)))
    | inr part ↦
        let one : n + 1 ≡ suc n = omega arith in
        rw (small, part, one) (point-IsSpelled n d ds w h (ground arith))
  ]
]
number_body-IsSpelled d ds (negsuc n) w h = elim (Bool-cases (leb n 5)) [
  | inl small ↦ rw small (small-IsSpelled n d ds (ground arith, h))
  | inr large ↦ rw large (exponent-IsSpelled d ds (negsuc n) w h)
]

scientific_text-IsNumeral : (s : Scientific) → IsMantissa s.mantissa → IsNumeral (scientific_text s)
unfolding scientific_text
scientific_text-IsNumeral s m =
    let (d, ds, w, h, e) = digits_of_mantissa s.mantissa m in
    rw e (
      minus-IsNumeral s.negative (number_body (d ∷ ds) s.exponent)
        (number_body-IsSpelled d ds s.exponent w h))

zero-IsNumeral : IsNumeral (b'0' ∷ [])
zero-IsNumeral = IsNumeral-parts (b'0' ∷ []) [] [] zero-IsInteger no-IsFraction no-IsExponent

module _ ⦃fl : FloatParser⦄ ⦃fp : FloatPrinter⦄ (law : IsFloatPrinter fp) where
  -- Every number is written as the text of a number, or as null.
  pub format_js_number-IsNumberText : (s : String) → IsNumberText (format_js_number s)
  unfolding format_js_number
  format_js_number-IsNumberText s =
      let value = fl.parse_float s in
      elim (Bool-cases value.failed) [
        | inl failed ↦ rw failed (inl (unfold bytes_of in refl))
        | inr fine ↦ elim (Bool-cases (is_nan value.bits || is_inf value.bits)) [
          | inl odd ↦ rw (fine, odd) (inl (unfold bytes_of in refl))
          | inr finite ↦ elim (Bool-cases (is_zero value.bits)) [
            | inl nought ↦ rw (fine, finite, nought) (inr zero-IsNumeral)
            | inr other ↦
                rw (fine, finite, other)
                  (inr (
                    scientific_text-IsNumeral (fp.format_float value.bits) (
                      law.mantissa value.bits (or-false _ _ finite).0 (or-false _ _ finite).1
                        other)))
          ]
        ]
      ]
