-- ===== src/Json/Ending/Numbers.antt =====
-- `parseNumber` leaves no more than it is given.
use homer_cli.Base.{ℕ, suc, ◌≤◌, ◌≡◌, refl, true, [], ◌∷◌, arith, length}
use homer_cli.Base.Bytes.{Bytes}
use homer_cli.Json.Parser.{
  SyntaxError, Result, no_fraction, no_exponent, read, failed, then_read, drop_digits, sign_part,
  integer_part, some_digits, fraction_part, signed_digits, exponent_part, parse_number,
}
use homer_cli.Json.Ending.Strings.{is_real, leaves, leaves_weaken}

pub leaves-then_read {ℓ κ} :
    {A : Type ℓ} {B : Type κ} (n : ℕ) (r : Result A) (f : A → Bytes → Result B)
    → leaves n r ≡ true
    → ((a : A) (rest : Bytes) → length rest ≤ n → leaves n (f a rest) ≡ true)
    → leaves n (then_read r f) ≡ true
leaves-then_read n (read a rest) f h k = k a rest (ground arith)
leaves-then_read n (failed e rest) f h k = h

length-drop_digits : (bs : Bytes) → length (drop_digits bs) ≤ length bs
unfolding drop_digits
length-drop_digits [] = omega arith
length-drop_digits (c ∷ bs) = ground (arith, length-drop_digits bs)

leaves-sign_part : (bs : Bytes) → leaves (length bs) (sign_part bs) ≡ true
unfolding sign_part
leaves-sign_part [] = refl
leaves-sign_part (c ∷ []) = ground arith
leaves-sign_part (c ∷ d ∷ bs) = ground arith

leaves-integer_part : (bs : Bytes) → leaves (length bs) (integer_part bs) ≡ true
unfolding integer_part
leaves-integer_part [] = refl
leaves-integer_part (c ∷ bs) = ground (arith, length-drop_digits bs)

leaves-some_digits :
    (why : SyntaxError) (before bs : Bytes)
    → is_real why ≡ true
    → leaves (length bs) (some_digits why before bs) ≡ true
unfolding some_digits
leaves-some_digits why before bs h = ground (arith, length-drop_digits bs)

leaves-fraction_part : (bs : Bytes) → leaves (length bs) (fraction_part bs) ≡ true
unfolding fraction_part
leaves-fraction_part [] = refl
leaves-fraction_part (c ∷ bs) =
    let inside =
      leaves_weaken (some_digits no_fraction (c ∷ []) bs) (length bs) (suc (length bs))
        (leaves-some_digits no_fraction (c ∷ []) bs refl) (omega arith) in
    ground arith

leaves-signed_digits : (e : ℕ) (bs : Bytes) → leaves (length bs) (signed_digits e bs) ≡ true
unfolding signed_digits
leaves-signed_digits e [] = refl
leaves-signed_digits e (s ∷ bs) =
    let signed =
      leaves_weaken (some_digits no_exponent (e ∷ s ∷ []) bs) (length bs) (suc (length bs))
        (leaves-some_digits no_exponent (e ∷ s ∷ []) bs refl) (omega arith) in
    ground (arith, leaves-some_digits no_exponent (e ∷ []) (s ∷ bs) refl)

leaves-exponent_part : (bs : Bytes) → leaves (length bs) (exponent_part bs) ≡ true
unfolding exponent_part
leaves-exponent_part [] = refl
leaves-exponent_part (c ∷ bs) =
    let inside =
      leaves_weaken (signed_digits c bs) (length bs) (suc (length bs)) (leaves-signed_digits c bs)
        (omega arith) in
    ground arith

pub leaves-parse_number : (bs : Bytes) → leaves (length bs) (parse_number bs) ≡ true
unfolding parse_number
leaves-parse_number bs = leaves-then_read (length bs) _ _ (leaves-sign_part bs) λ s a p.
    leaves-then_read (length bs) _ _ (leaves_weaken (integer_part a) _ _ (leaves-integer_part a) p)
      λ i b q.
        leaves-then_read (length bs) _ _
          (leaves_weaken (fraction_part b) _ _ (leaves-fraction_part b) q)
          λ f c r.
            leaves-then_read (length bs) _ _
              (leaves_weaken (exponent_part c) _ _ (leaves-exponent_part c) r) λ e d t. ground arith
