-- ===== src/Json/Ending/Values.antt =====
-- `Parse` never runs out of fuel: every value leaves no more than it is given.
use homer_cli.Base.{
  ℕ, zero, suc, ◌≤◌, ◌<◌, ◌≡◌, ◌≢◌, ◌⊎◌, refl, Bool, true, false, [], ◌∷◌, arith, length, ltb, some,
  inl, inr, Option-cases,
}
use homer_cli.Base.Bytes.{Bytes, text_of, bytes_of}
use homer_cli.Json.{Value, null, bool, number, text, Object}
use homer_cli.Json.Rebuild.{empty}
use homer_cli.Json.Parser.{
  SyntaxError, exhausted, Result, read, failed, then_read, Reader, Next, last, again, wrong,
  skip_whitespace, consume_literal, after_comma, separated, next, parse_string, parse_number, colon,
  key_at, parse_key, add_member, parse_members, parse_elements, object_at, elements_at,
  parse_object, parse_array, parse_with, parse_value, literal, error, ended, finished, started,
  parse, unclosed_object, unterminated_object, unclosed_array, unterminated_array,
}
use homer_cli.Json.Ending.Strings.{is_real, leaves, leaves_weaken, leaves-parse_string}
use homer_cli.Json.Ending.Numbers.{leaves-then_read, leaves-parse_number}

length-skip_whitespace : (bs : Bytes) → length (skip_whitespace bs) ≤ length bs
unfolding skip_whitespace
length-skip_whitespace [] = omega arith
length-skip_whitespace (c ∷ bs) = ground (arith, length-skip_whitespace bs)

-- A separator takes a byte.
abbrev advances : ℕ → Next → Bool
advances n (last rest) = ltb (length rest) n
advances n (again rest) = ltb (length rest) n
advances n (wrong e rest) = is_real e

advances-after_comma :
    (e : SyntaxError) (bs : Bytes)
    → is_real e ≡ true
    → advances (suc (length bs)) (after_comma e bs) ≡ true
advances-after_comma e [] h = h
advances-after_comma e (c ∷ bs) h = ground arith

advances_weaken : (x : Next) (m n : ℕ) → advances m x ≡ true → m ≤ n → advances n x ≡ true
advances_weaken (last rest) m n h l = ground arith
advances_weaken (again rest) m n h l = ground arith
advances_weaken (wrong e rest) m n h l = h

advances-separated :
    (close : ℕ) (u t : SyntaxError) (bs : Bytes)
    → is_real u ≡ true
    → is_real t ≡ true
    → advances (length bs) (separated close u t bs) ≡ true
advances-separated close u t [] p q = p
advances-separated close u t (c ∷ bs) p q =
    let comma =
      advances_weaken (after_comma t (skip_whitespace bs)) _ (suc (length bs))
        (advances-after_comma t (skip_whitespace bs) q)
        (omega (arith, length-skip_whitespace bs)) in
    ground arith

advances-next :
    (close : ℕ) (u t : SyntaxError) (bs : Bytes)
    → is_real u ≡ true
    → is_real t ≡ true
    → advances (length bs) (next close u t bs) ≡ true
unfolding next
advances-next close u t bs p q =
    advances_weaken (separated close u t (skip_whitespace bs)) _ _
      (advances-separated close u t (skip_whitespace bs) p q) (length-skip_whitespace bs)

leaves-colon : (key bs : Bytes) → leaves (length bs) (colon key bs) ≡ true
leaves-colon key [] = refl
leaves-colon key (c ∷ bs) = ground arith

leaves-key_at : (bs : Bytes) → leaves (length bs) (key_at bs) ≡ true
leaves-key_at [] = refl
leaves-key_at (c ∷ bs) =
    let quoted =
      leaves-then_read (suc (length bs)) (parse_string (c ∷ bs))
        (λ key rest. colon key (skip_whitespace rest)) (leaves-parse_string (c ∷ bs))
        (λ key rest p.
          leaves_weaken (colon key (skip_whitespace rest)) _ _
            (leaves-colon key (skip_whitespace rest))
            (omega (arith, length-skip_whitespace rest))) in
    ground arith

leaves-parse_key : (bs : Bytes) → leaves (length bs) (parse_key bs) ≡ true
unfolding parse_key
leaves-parse_key bs =
    leaves_weaken (key_at (skip_whitespace bs)) _ _ (leaves-key_at (skip_whitespace bs))
      (length-skip_whitespace bs)

-- The reader ends on inputs of at most this length.
abbrev EndsUpTo : ℕ → Reader → Type 0
EndsUpTo size value = (bs : Bytes) → length bs ≤ size → leaves (length bs) (value bs) ≡ true

Next-cases :
    (n : ℕ) (x : Next)
    → advances n x ≡ true
    → ((r : Bytes) × (x ≡ last r) × (length r < n))
      ⊎ (((r : Bytes) × (x ≡ again r) × (length r < n))
          ⊎ ((e : SyntaxError) × (r : Bytes) × (x ≡ wrong e r) × (is_real e ≡ true)))
Next-cases n (last r) h = inl (r, refl, ground arith)
Next-cases n (again r) h = inr (inl (r, refl, ground arith))
Next-cases n (wrong e r) h = inr (inr (e, r, refl, h))

module _ (size : ℕ) (value : Reader) (ends : EndsUpTo size value) where
  value-behind :
      (n : ℕ) (bs : Bytes) → length bs ≤ n → n ≤ size → leaves n (value (skip_whitespace bs)) ≡ true
  value-behind n bs h k =
      leaves_weaken (value (skip_whitespace bs)) (length (skip_whitespace bs)) n
        (ends (skip_whitespace bs) (omega (arith, length-skip_whitespace bs)))
        (omega (arith, length-skip_whitespace bs))

  leaves-parse_members :
      (fuel : ℕ) (out : Object) (bs : Bytes)
      → length bs ≤ size
      → length bs < fuel
      → leaves (length bs) (parse_members value fuel out bs) ≡ true
  unfolding parse_members
  leaves-parse_members zero out bs s h = absurd (omega arith)
  leaves-parse_members (suc fuel) out bs s h =
      leaves-then_read (length bs) (parse_key bs) _ (leaves-parse_key bs) λ key at p.
        leaves-then_read (length bs) (value (skip_whitespace at)) _
          (value-behind (length bs) at p s)
          λ v behind q.
            elim (Next-cases (length behind) (next b'}' unclosed_object unterminated_object behind)
              (advances-next b'}' unclosed_object unterminated_object behind refl refl)) [
                | inl (r, e, l) ↦ rw e (ground arith)
                | inr (inl (r, e, l)) ↦ rw e (
                    leaves_weaken (parse_members value fuel (add_member (text_of key) v out) r) _ _
                      (leaves-parse_members fuel (add_member (text_of key) v out) r (omega arith)
                        (omega arith))
                      (omega arith))
                | inr (inr (why, r, e, l)) ↦ rw e l
              ]

  leaves-parse_elements :
      (fuel : ℕ) (bs : Bytes)
      → length bs ≤ size
      → length bs < fuel
      → leaves (length bs) (parse_elements value fuel bs) ≡ true
  unfolding parse_elements
  leaves-parse_elements zero bs s h = absurd (omega arith)
  leaves-parse_elements (suc fuel) bs s h =
      leaves-then_read (length bs) (value (skip_whitespace bs)) _
        (value-behind (length bs) bs (omega arith) s)
        λ v behind q.
          elim (Next-cases (length behind) (next b']' unclosed_array unterminated_array behind)
            (advances-next b']' unclosed_array unterminated_array behind refl refl)) [
              | inl (r, e, l) ↦ rw e (ground arith)
              | inr (inl (r, e, l)) ↦ rw e (
                  leaves-then_read (length bs) (parse_elements value fuel r) _
                    (leaves_weaken (parse_elements value fuel r) _ _
                      (leaves-parse_elements fuel r (omega arith) (omega arith)) (omega arith))
                    (λ xs rest p. ground arith))
              | inr (inr (why, r, e, l)) ↦ rw e l
            ]

  leaves-object_at :
      (fuel : ℕ) (bs : Bytes)
      → length bs ≤ size
      → length bs < fuel
      → leaves (length bs) (object_at value fuel bs) ≡ true
  leaves-object_at fuel [] s h = leaves-parse_members fuel empty [] s h
  leaves-object_at fuel (c ∷ bs) s h = ground (arith, leaves-parse_members fuel empty (c ∷ bs) s h)

  leaves-elements_at :
      (fuel : ℕ) (bs : Bytes)
      → length bs ≤ size
      → length bs < fuel
      → leaves (length bs) (elements_at value fuel bs) ≡ true
  leaves-elements_at fuel [] s h = leaves-parse_elements fuel [] s h
  leaves-elements_at fuel (c ∷ bs) s h = ground (arith, leaves-parse_elements fuel (c ∷ bs) s h)

  leaves-parse_object :
      (fuel : ℕ) (bs : Bytes)
      → length bs ≤ size
      → length bs < fuel
      → leaves (length bs) (parse_object value fuel bs) ≡ true
  unfolding parse_object
  leaves-parse_object fuel bs s h =
      let shorter = length-skip_whitespace bs in
      leaves_weaken (object_at value fuel (skip_whitespace bs)) _ _
        (leaves-object_at fuel (skip_whitespace bs) (omega arith) (omega arith)) shorter

  leaves-parse_array :
      (fuel : ℕ) (bs : Bytes)
      → length bs ≤ size
      → length bs < fuel
      → leaves (length bs) (parse_array value fuel bs) ≡ true
  unfolding parse_array
  leaves-parse_array fuel bs s h =
      let shorter = length-skip_whitespace bs in
      leaves-then_read (length bs) (elements_at value fuel (skip_whitespace bs)) _
        (leaves_weaken (elements_at value fuel (skip_whitespace bs)) _ _
          (leaves-elements_at fuel (skip_whitespace bs) (omega arith) (omega arith)) shorter)
        (λ xs rest p. ground arith)

length-consume_literal :
    (ls bs rest : Bytes) → consume_literal ls bs ≡ some rest → length rest ≤ length bs
unfolding consume_literal
length-consume_literal [] bs rest e = ground arith
length-consume_literal (l ∷ ls) [] rest e = cc
length-consume_literal (l ∷ ls) (c ∷ bs) rest e = ground (arith, length-consume_literal ls bs rest)

leaves-literal :
    (v : Value) (ls bs : Bytes) → leaves (length bs) (literal v (consume_literal ls bs) bs) ≡ true
leaves-literal v ls bs = elim (Option-cases (consume_literal ls bs)) [
  | inl e ↦ rw e
  | inr (rest, e) ↦ rw e (ground (arith, length-consume_literal ls bs rest e))
]

leaves-read {ℓ κ} :
    {A : Type ℓ} {B : Type κ} (n : ℕ) (r : Result A) (f : A → B)
    → leaves n r ≡ true
    → leaves n (then_read r (λ a rest. read (f a) rest)) ≡ true
leaves-read n (read a rest) f h = h
leaves-read n (failed e rest) f h = h

leaves-parse_with :
    (value : Reader) (fuel : ℕ) (bs : Bytes)
    → ((bs' : Bytes) → length bs' < fuel → leaves (length bs') (value bs') ≡ true)
    → length bs ≤ fuel
    → leaves (length bs) (parse_with value fuel bs) ≡ true
unfolding parse_with
leaves-parse_with value fuel [] ends h = refl
leaves-parse_with value fuel (c ∷ bs) ends h =
    let inside : EndsUpTo (length bs) value = λ bs' l. ends bs' (omega arith) in
    let whole_object =
      leaves_weaken (parse_object value fuel bs) _ (suc (length bs))
        (leaves-parse_object (length bs) value inside fuel bs (omega arith) (omega arith))
        (omega arith) in
    let whole_array =
      leaves_weaken (parse_array value fuel bs) _ (suc (length bs))
        (leaves-parse_array (length bs) value inside fuel bs (omega arith) (omega arith))
        (omega arith) in
    let string =
      leaves-read (suc (length bs)) (parse_string (c ∷ bs)) (λ s. text (text_of s))
        (leaves-parse_string (c ∷ bs)) in
    let digits =
      leaves-read (suc (length bs)) (parse_number (c ∷ bs)) (λ s. number (text_of s))
        (leaves-parse_number (c ∷ bs)) in
    ground (
      arith,
      leaves-literal (bool true) (bytes_of "true") (c ∷ bs),
      leaves-literal (bool false) (bytes_of "false") (c ∷ bs),
      leaves-literal null (bytes_of "null") (c ∷ bs),
    )

leaves-parse_value :
    (fuel : ℕ) (bs : Bytes) → length bs < fuel → leaves (length bs) (parse_value fuel bs) ≡ true
unfolding parse_value
leaves-parse_value zero bs h = absurd (omega arith)
leaves-parse_value (suc fuel) bs h =
    leaves-parse_with (parse_value fuel) fuel bs (λ bs' l. leaves-parse_value fuel bs' l)
      (omega arith)

ended_real : (size : ℕ) (v : Value) (bs : Bytes) (at : ℕ) → ended size v bs ≢ error exhausted at
ended_real size v [] at e = cc
ended_real size v (c ∷ bs) at e = cc

finished_real :
    (size : ℕ) (r : Result Value) (n at : ℕ)
    → leaves n r ≡ true
    → finished size r ≢ error exhausted at
finished_real size (failed exhausted rest) n at h e = cc
finished_real size (failed why rest) n at h e = cc
finished_real size (read v rest) n at h e = ended_real size v (skip_whitespace rest) at e

started_real :
    (size : ℕ) (bs : Bytes) (at : ℕ) → length bs ≤ size → started size bs ≢ error exhausted at
started_real size [] at h e = cc
started_real size (c ∷ bs) at h e =
    finished_real size (parse_value (suc size) (c ∷ bs)) (length (c ∷ bs)) at
      (leaves-parse_value (suc size) (c ∷ bs) (omega arith)) e

-- No input uses up the fuel.
pub parse_ends : (bytes : Bytes) (at : ℕ) → parse bytes ≢ error exhausted at
unfolding parse
parse_ends bytes at e =
    started_real (length bytes) (skip_whitespace bytes) at (length-skip_whitespace bytes) e
