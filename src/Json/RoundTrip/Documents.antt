-- ===== src/Json/RoundTrip/Documents.antt =====
-- Every written value is read back as the settled one.
use homer_cli.Base.{
  ℕ, zero, suc, ◌<◌, ◌++◌, append-nil, length, length-append, ◌≡◌, refl, sym, ◌∙◌, true, false,
  String, List, [], ◌∷◌, arith, ◌==◌, ◌||◌, All, contains, str_eq, str_eq_iff, str_eq_refl,
  Bool-cases, inl, inr,
}
use mathlib.Core.Path.{subst}
use homer_cli.Base.Bytes.{Bytes, text_of}
use homer_cli.Base.Dict.{Dict, lookup}
use homer_cli.Base.Counting.{IsNodup}
use homer_cli.Json.{
  Value, null, bool, number, text, array, object, Items, nil, item, Members, end, member, Object,
  value_at, member_keys,
}
use homer_cli.Json.Keys.{has_key, contains-member_keys}
use homer_cli.Json.Numbers.{FloatParser}
use homer_cli.Json.Parser.{is_digit, parse, parsed, skip_whitespace}
use homer_cli.Json.Printer.{
  serialize, serialize_file, FloatPrinter, write_value, write_members, format_js_number, json_keys,
  write_object,
}
use homer_cli.Json.RoundTrip.Settled.{
  IsString, IsDocument, AreDocuments, AreFields, IsNumberText, settle, settle_members, read_number,
}
use homer_cli.Json.RoundTrip.Formats.{IsFloatPrinter, format_js_number-IsNumberText}
use homer_cli.Json.RoundTrip.Layout.{skip_whitespace-Opens}
use homer_cli.Json.RoundTrip.Numbers.{ends}
use homer_cli.Json.RoundTrip.Scalars.{
  IsRead, null-IsRead, bool-IsRead, text-IsRead, number-IsRead, first_of_numeral,
}
use homer_cli.Json.RoundTrip.Distinct.{contains-json_keys, IsNodup-json_keys}
use homer_cli.Json.RoundTrip.Arrays.{AreRead, array-IsRead}
use homer_cli.Json.RoundTrip.Objects.{IsEntry, object-IsRead}
use homer_cli.Json.RoundTrip.Collected.{added-empty}

read_number-first :
    (c : ℕ) (bs : Bytes)
    → (c == b'-' || is_digit c) ≡ true
    → read_number (c ∷ bs) ≡ number (text_of (c ∷ bs))
unfolding read_number
read_number-first c bs h = ground arith

number_text-IsRead : (bs : Bytes) → IsNumberText bs → IsRead bs (read_number bs)
number_text-IsRead bs (inl e) =
    subst (λ w. IsRead w (read_number w)) (sym e) (unfold read_number in null-IsRead)
number_text-IsRead [] (inr n) = absurd ((number-IsRead [] n).0)
number_text-IsRead (c ∷ bs) (inr n) =
    subst (IsRead (c ∷ bs)) (sym (read_number-first c bs (first_of_numeral c bs n.0)))
      (number-IsRead (c ∷ bs) n)

parse_whole :
    (w tail : Bytes) (v : Value)
    → IsRead w v
    → skip_whitespace tail ≡ []
    → ends tail ≡ true
    → parse (w ++ tail) ≡ parsed v
unfolding parse
parse_whole [] tail v (o, r) s e = absurd o
parse_whole (c ∷ w) tail v (o, r) s e =
    let size = length ((c ∷ w) ++ tail) in
    let enough : length (c ∷ w) < suc size = omega (arith, length-append w tail) in
    rw (skip_whitespace-Opens (c ∷ w) tail o, r (suc size) tail enough e, s)

IsEntry-here :
    (j : String) (w : Bytes) (v : Value) (written : Dict Bytes) (m : Members)
    → IsString j
    → IsRead w v
    → IsEntry ((j, w) ∷ written) (member j v m) j
unfolding lookup value_at
IsEntry-here j w v written m s r = rw (str_eq_refl j) (s, r)

IsEntry-there :
    (j k : String) (w : Bytes) (v : Value) (written : Dict Bytes) (m : Members)
    → str_eq j k ≡ false
    → IsEntry written m k
    → IsEntry ((j, w) ∷ written) (member j v m) k
unfolding lookup value_at
IsEntry-there j k w v written m other r = rw other r

has_key-there :
    (j k : String) (v : Value) (m : Members)
    → str_eq j k ≡ false
    → has_key k (member j v m) ≡ true
    → has_key k m ≡ true
unfolding has_key value_at
has_key-there j k v m other h = ground arith

has_key-end : (k : String) → has_key k end ≡ false
unfolding has_key value_at
has_key-end k = refl

All-of :
    {P : String → Type 0} (ks : List String)
    → ((k : String) → contains k ks ≡ true → P k)
    → All P ks
All-of [] h = tt
All-of (k ∷ ks) h = (
  h k (unfold contains in rw (str_eq_refl k)),
  All-of ks (λ j c. h j (unfold contains in ground arith)),
)

IsNodup-fields : (m : Members) → AreFields m → IsNodup (member_keys m)
unfolding IsDocument member_keys
IsNodup-fields end h = tt
IsNodup-fields (member k v m) h = (contains-member_keys k m ∙ h.0, IsNodup-fields m h.3)

module _ ⦃fl : FloatParser⦄ ⦃fp : FloatPrinter⦄ where
  object_entries-IsRead :
      (ks : List String) (m : Members) (d : ℕ)
      → AreFields m
      → ((k : String) → has_key k m ≡ true → IsEntry (write_members m (suc d)) (settle_members m) k)
      → IsRead (write_value (object ks m) d) (settle (object ks m))
  unfolding write_value settle
  object_entries-IsRead ks m d f h =
      let o : Object = record { keys = ks; members = m } in
      let keys = json_keys o in
      let all = All-of keys (λ k c. h k (sym (contains-json_keys k o) ∙ c)) in
      let e = added-empty keys (settle_members m) (IsNodup-json_keys o (IsNodup-fields m f)) in
      subst
        (λ (out : Object).
          IsRead (write_object d keys (write_members m (suc d))) (object out.keys out.members))
        e (object-IsRead d keys (write_members m (suc d)) (settle_members m) all)

module _ ⦃fl : FloatParser⦄ ⦃fp : FloatPrinter⦄ (law : IsFloatPrinter fp) where
  mutual
    unfolding write_value settle IsDocument

    value-IsRead : (v : Value) (d : ℕ) → IsDocument v → IsRead (write_value v d) (settle v)
    value-IsRead null d h = null-IsRead
    value-IsRead (bool b) d h = bool-IsRead b
    value-IsRead (number s) d h =
        number_text-IsRead (format_js_number s) (format_js_number-IsNumberText law s)
    value-IsRead (text s) d h = text-IsRead s h
    value-IsRead (array xs) d h = array-IsRead xs d (items-AreRead xs (suc d) h)
    value-IsRead (object ks m) d h = object_entries-IsRead ks m d h (members-IsEntry m (suc d) h)

    items-AreRead : (xs : Items) (d : ℕ) → AreDocuments xs → AreRead xs d
    items-AreRead nil d h = tt
    items-AreRead (item v xs) d h = (value-IsRead v d h.0, items-AreRead xs d h.1)

    members-IsEntry :
        (m : Members) (d : ℕ)
        → AreFields m
        → (k : String) → has_key k m ≡ true
        → IsEntry (write_members m d) (settle_members m) k
    members-IsEntry end d h k c = absurd (cc (has_key-end k))
    members-IsEntry (member j v m) d h k c = elim (Bool-cases (str_eq j k)) [
      | inl same ↦
          subst (IsEntry (write_members (member j v m) d) (settle_members (member j v m)))
            ((str_eq_iff j k).0 same)
            (IsEntry-here j (write_value v d) (settle v) (write_members m d) (settle_members m) h.1
              (value-IsRead v d h.2))
      | inr other ↦
          IsEntry-there j k (write_value v d) (settle v) (write_members m d) (settle_members m)
            other (members-IsEntry m d h.3 k (has_key-there j k v m other c))
    ]

  -- What is written is read back, from a text and from a file.
  pub parse-serialize :
      (v : Value)
      → IsDocument v
      → (parse (serialize v) ≡ parsed (settle v)) × (parse (serialize_file v) ≡ parsed (settle v))
  unfolding serialize serialize_file
  parse-serialize v h =
      let r = value-IsRead v zero h in
      (
        rw append-nil at (
            parse_whole (write_value v zero) [] (settle v) r (unfold skip_whitespace in refl)
              (unfold ends in refl)),
        parse_whole (write_value v zero) (10 ∷ []) (settle v) r (unfold skip_whitespace in refl)
            (unfold ends in refl),
      )
