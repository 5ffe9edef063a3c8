-- ===== src/Json/Numbers.antt =====
-- `equalNumbers`: JSON numbers compare as IEEE-754 doubles, with +0 and -0 apart.
use homer_cli.Base.{
  ℕ, ◌%◌, ◌/◌, ◌^◌, String, ◌≡◌, Bool, true, false, not, ◌&&◌, ◌||◌, arith, ltb, ◌==◌, str_eq,
  str_eq_iff, str_eq_refl, if◌then◌else◌,
}

-- What `strconv.ParseFloat` gives for a text: the 64 bits of the double, and whether it failed with
-- an error other than `ErrRange`.
pub record Parsed : Type 0 where
  pub bits : ℕ
  pub failed : Bool

-- `strconv.ParseFloat` is not part of the repository.
pub record FloatParser : Type 0 where
  pub parse_float : String → Parsed

unfoldable pub is_zero : ℕ → Bool
is_zero bits = bits % 2 ^ 63 == 0

unfoldable pub is_nan : ℕ → Bool
is_nan bits = ltb 0x7ff0000000000000 (bits % 2 ^ 63)

unfoldable pub sign_bit : ℕ → ℕ
sign_bit bits = bits / 2 ^ 63

-- `==` on float64
unfoldable pub float_eq : ℕ → ℕ → Bool
float_eq a b = not (is_nan a) && not (is_nan b) && (a == b || is_zero a && is_zero b)

module _ ⦃fl : FloatParser⦄ where
  unfoldable pub equal_numbers : String → String → Bool
  unfolding float_eq
  equal_numbers left right =
      let l = fl.parse_float left in
      let r = fl.parse_float right in
      if l.failed || r.failed
      then str_eq left right
      else if is_zero l.bits && is_zero r.bits
      then sign_bit l.bits == sign_bit r.bits
      else float_eq l.bits r.bits

  -- The text of a number that is not NaN: JSON has none.
  abbrev pub IsNumber : String → Type 0
  IsNumber s = is_nan (fl.parse_float s).bits ≡ false

  pub equal_numbers_refl : (s : String) → IsNumber s → equal_numbers s s ≡ true
  unfolding equal_numbers
  equal_numbers_refl s h = ground (arith, str_eq_refl s)

  pub equal_numbers_sym : (s t : String) → equal_numbers s t ≡ true → equal_numbers t s ≡ true
  unfolding equal_numbers
  equal_numbers_sym s t h = ground (arith, str_eq_iff s t, str_eq_iff t s)

  pub equal_numbers_trans :
      (r s t : String)
      → equal_numbers r s ≡ true
      → equal_numbers s t ≡ true
      → equal_numbers r t ≡ true
  unfolding equal_numbers
  equal_numbers_trans r s t h k = ground (arith, str_eq_iff r s, str_eq_iff s t, str_eq_iff r t)
