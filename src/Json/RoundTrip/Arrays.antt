-- ===== src/Json/RoundTrip/Arrays.antt =====
-- A written array is read back, if its elements are.
use homer_cli.Base.{
  ℕ, zero, suc, ◌+◌, ◌<◌, ◌≡◌, refl, [], ◌∷◌, ◌++◌, arith, length, length-append, append_assoc,
}
use homer_cli.Base.Bytes.{Bytes}
use homer_cli.Json.{Value, array, Items, nil, item}
use homer_cli.Json.Numbers.{FloatParser}
use homer_cli.Json.Parser.{
  Reader, unclosed_array, unterminated_array, read, skip_whitespace, last, again, next,
  parse_elements, parse_array, parse_with, parse_value,
}
use homer_cli.Json.Printer.{
  FloatPrinter, write_value, write_items, write_array, comma_items, indent,
}
use homer_cli.Json.RoundTrip.Numbers.{ends}
use homer_cli.Json.RoundTrip.Settled.{settle, settle_items}
use homer_cli.Json.RoundTrip.Layout.{
  Opens, skip_whitespace-Opens, skip_whitespace-indented, next-last, next-again,
}
use homer_cli.Json.RoundTrip.Scalars.{IsRead}

parse_elements-last :
    (value : Reader) (k : ℕ) (bs : Bytes) {at behind rest : Bytes} {v : Value}
    → skip_whitespace bs ≡ at
    → value at ≡ read v behind
    → next b']' unclosed_array unterminated_array behind ≡ last rest
    → parse_elements value (suc k) bs ≡ read (item v nil) rest
unfolding parse_elements
parse_elements-last value k bs s e n = ground arith

parse_elements-again :
    (value : Reader) (k : ℕ) (bs : Bytes) {at behind next_at rest : Bytes} {v : Value} {xs : Items}
    → skip_whitespace bs ≡ at
    → value at ≡ read v behind
    → next b']' unclosed_array unterminated_array behind ≡ again next_at
    → parse_elements value k next_at ≡ read xs rest
    → parse_elements value (suc k) bs ≡ read (item v xs) rest
unfolding parse_elements
parse_elements-again value k bs s e n m = ground arith

parse_array_of :
    (value : Reader) (k : ℕ) (w bs tail : Bytes) {rest : Bytes} {xs : Items}
    → Opens w
    → skip_whitespace bs ≡ w ++ tail
    → parse_elements value k (w ++ tail) ≡ read xs rest
    → parse_array value k bs ≡ read (array xs) rest
unfolding parse_array
parse_array_of value k [] bs tail o s e = absurd o
parse_array_of value k (c ∷ w) bs tail o s e = rw (s, o.1, e)

module _ ⦃fl : FloatParser⦄ ⦃fp : FloatPrinter⦄ where
  -- Every element is read back as it is written at a depth.
  abbrev pub AreRead : Items → ℕ → Type 0
  AreRead nil d = Unit
  AreRead (item v xs) d = IsRead (write_value v d) (settle v) × AreRead xs d

  length-items :
      (x : Value) (xs : Items) (d : ℕ)
      → length (write_value x d) + length (write_items xs d) < length (write_items (item x xs) d)
  unfolding write_value
  length-items x xs d = omega (
    arith,
    length-append (indent d) (write_value x d ++ (comma_items xs ++ 10 ∷ write_items xs d)),
    length-append (write_value x d) (comma_items xs ++ 10 ∷ write_items xs d),
    length-append (comma_items xs) (10 ∷ write_items xs d),
  )

  items-append :
      (x : Value) (xs : Items) (d : ℕ) (rest : Bytes)
      → write_items (item x xs) d ++ rest
        ≡ indent d ++ (write_value x d ++ (comma_items xs ++ 10 ∷ (write_items xs d ++ rest)))
  unfolding write_value
  items-append x xs d rest = simp append_assoc

  next_item :
      (x : Value) (xs : Items) (d e : ℕ) (rest : Bytes)
      → Opens (write_value x d)
      → next b']' unclosed_array unterminated_array
          (b',' ∷ 10 ∷ (write_items (item x xs) d ++ (indent e ++ b']' ∷ rest)))
        ≡ again (
            write_value x d
            ++ (comma_items xs ++ 10 ∷ (write_items xs d ++ (indent e ++ b']' ∷ rest))))
  next_item x xs d e rest o =
      rw (items-append x xs d (indent e ++ b']' ∷ rest))
        (next-again b']' unclosed_array unterminated_array d (write_value x d) _ refl o)

  -- From the first byte of an element to the bracket behind the last one.
  parse_elements-items :
      (v : Value) (xs : Items) (d e fuel k : ℕ) (rest : Bytes)
      → AreRead (item v xs) d
      → length (write_value v d) + length (write_items xs d) < fuel
      → length (write_items xs d) < k
      → parse_elements (parse_value fuel) k (
          write_value v d
          ++ (comma_items xs ++ 10 ∷ (write_items xs d ++ (indent e ++ b']' ∷ rest))))
        ≡ read (item (settle v) (settle_items xs)) rest
  unfolding ends settle_items
  parse_elements-items v xs d e fuel zero rest r f g = absurd (omega arith)
  parse_elements-items v nil d e fuel (suc k) rest ((o, r), u) f g =
      unfold write_value settle in
      parse_elements-last (parse_value fuel) k _ (skip_whitespace-Opens (write_value v d) _ o)
        (r fuel _ (omega arith) refl) (next-last b']' unclosed_array unterminated_array e rest refl)
  parse_elements-items v (item x xs) d e fuel (suc k) rest ((o, r), u) f g =
      let sizes = length-items x xs d in
      parse_elements-again (parse_value fuel) k _ (skip_whitespace-Opens (write_value v d) _ o)
        (r fuel _ (omega arith) refl) (next_item x xs d e rest u.0.0)
        (parse_elements-items x xs d e fuel k rest u (omega arith) (omega arith))

  skip_whitespace-items :
      (x : Value) (xs : Items) (d : ℕ) (rest : Bytes)
      → Opens (write_value x d)
      → skip_whitespace (10 ∷ (write_items (item x xs) d ++ rest))
        ≡ write_value x d ++ (comma_items xs ++ 10 ∷ (write_items xs d ++ rest))
  unfolding skip_whitespace
  skip_whitespace-items x xs d rest o =
      rw (items-append x xs d rest) (skip_whitespace-indented d (write_value x d) _ o)

  -- A written array is read back behind its bracket.
  array_body :
      (v : Value) (xs : Items) (d fuel : ℕ) (rest : Bytes)
      → AreRead (item v xs) (suc d)
      → length (write_items (item v xs) (suc d)) < fuel
      → parse_array
          (parse_value fuel)
          fuel
          (10 ∷ (write_items (item v xs) (suc d) ++ (indent d ++ b']' ∷ rest)))
        ≡ read (array (settle_items (item v xs))) rest
  unfolding settle_items
  array_body v xs d fuel rest r f =
      let sizes = length-items v xs (suc d) in
      parse_array_of (parse_value fuel) fuel (write_value v (suc d)) _ _ r.0.0
        (skip_whitespace-items v xs (suc d) (indent d ++ b']' ∷ rest) r.0.0)
        (parse_elements-items v xs (suc d) d fuel fuel rest r (omega arith) (omega arith))

  array_text : (xs : Items) (d : ℕ) → Bytes
  array_text xs d = write_array xs d (write_items xs (suc d))

  array_reads :
      (xs : Items) (d fuel : ℕ) (rest : Bytes)
      → AreRead xs (suc d)
      → length (array_text xs d) < fuel
      → parse_value fuel (array_text xs d ++ rest) ≡ read (array (settle_items xs)) rest
  unfolding array_text write_array parse_value
  array_reads xs d zero rest r f = absurd (omega arith)
  array_reads nil d (suc fuel) rest r f =
      unfold parse_with parse_array skip_whitespace settle_items in refl
  array_reads (item v xs) d (suc fuel) rest r f =
      unfold parse_with in
      rw (append_assoc (write_items (item v xs) (suc d)), append_assoc (indent d))
        (array_body v xs d fuel rest r
          (omega (arith, length-append (write_items (item v xs) (suc d)) (indent d ++ b']' ∷ []))))

  array_text-Opens : (xs : Items) (d : ℕ) → Opens (array_text xs d)
  unfolding array_text write_array
  array_text-Opens nil d = (refl, refl)
  array_text-Opens (item v xs) d = (refl, refl)

  pub array-IsRead :
      (xs : Items) (d : ℕ)
      → AreRead xs (suc d)
      → IsRead (write_array xs d (write_items xs (suc d))) (array (settle_items xs))
  unfolding array_text
  array-IsRead xs d r = (array_text-Opens xs d, λ fuel rest f e. array_reads xs d fuel rest r f)
