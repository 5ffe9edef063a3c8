-- ===== src/Json/RoundTrip/Distinct.antt =====
-- `objectKeys` lists each key of the map once.
use homer_cli.Base.{
  ℕ, String, ◌≡◌, refl, sym, ap, ◌∙◌, true, false, not, ◌&&◌, ◌||◌, Option, none, some, List, [],
  ◌∷◌, ◌++◌, arith, map, str_eq, str_eq_iff, leb, contains, contains-append, contains-sort_strings,
  Bool-cases, Option-cases, inl, inr, sort_strings,
}
use homer_cli.Base.Bytes.{text_of, bytes_of}
use homer_cli.Base.Counting.{IsNodup, IsNodup-append_one, IsNodup-sort_strings}
use homer_cli.Json.{Members, Object, member_keys}
use homer_cli.Json.Keys.{
  is_some, has_key, known_keys, extra_keys, object_keys, contains-object_keys, contains-extra_keys,
}
use homer_cli.Json.Printer.{
  decimal, decimal_value, array_index, in_range, indices_of, non_indices, insert_index,
  sort_indices, property_order, ordered, json_keys,
}

IsNodup-append :
    (xs ys : List String)
    → IsNodup xs
    → IsNodup ys
    → ((k : String) → contains k xs ≡ true → contains k ys ≡ false)
    → IsNodup (xs ++ ys)
unfolding contains
IsNodup-append [] ys n m apart = m
IsNodup-append (x ∷ xs) ys n m apart = (
  ground (arith, contains-append x xs ys, n.0, apart x, str_eq_iff x x),
  IsNodup-append xs ys n.1 m λ k c. ground (arith, apart k),
)

IsNodup-known_keys :
    (acc ks : List String) (m : Members) → IsNodup acc → IsNodup (known_keys acc ks m)
unfolding known_keys
IsNodup-known_keys acc [] m n = n
IsNodup-known_keys acc (k ∷ ks) m n = elim (Bool-cases (has_key k m && not (contains k acc))) [
  | inl new ↦ rw new (IsNodup-known_keys _ ks m (IsNodup-append_one k acc (ground arith) n))
  | inr old ↦ rw old (IsNodup-known_keys acc ks m n)
]

IsNodup-extra_keys : (seen ks : List String) → IsNodup ks → IsNodup (extra_keys seen ks)
unfolding extra_keys
IsNodup-extra_keys seen [] n = tt
IsNodup-extra_keys seen (k ∷ ks) n = elim (Bool-cases (contains k seen)) [
  | inl old ↦ rw old (IsNodup-extra_keys seen ks n.1)
  | inr new ↦
      rw new (ground (arith, contains-extra_keys k seen ks, n.0), IsNodup-extra_keys seen ks n.1)
]

IsNodup-object_keys : (o : Object) → IsNodup (member_keys o.members) → IsNodup (object_keys o)
unfolding object_keys
IsNodup-object_keys o n =
    let keys = known_keys [] o.keys o.members in
    let extra = extra_keys keys (member_keys o.members) in
    IsNodup-append keys (sort_strings extra) (IsNodup-known_keys [] o.keys o.members tt)
      (IsNodup-sort_strings extra (IsNodup-extra_keys keys (member_keys o.members) n))
      λ k c.
        ground
          (arith, contains-sort_strings k extra, contains-extra_keys k keys (member_keys o.members))

-- The names of some indices.
abbrev names : List ℕ → List String
names = map (λ i. text_of (decimal i))

name_in_range :
    (k : String) (o : Option ℕ) (i : ℕ) → in_range k o ≡ some i → text_of (decimal i) ≡ k
name_in_range k none i e = cc
name_in_range k (some v) i e = ground (arith, str_eq_iff (text_of (decimal v)) k)

name_of_index : (k : String) {i : ℕ} → array_index k ≡ some i → text_of (decimal i) ≡ k
unfolding array_index
name_of_index k {i} e = ground (arith, name_in_range k (decimal_value 0 (bytes_of k)) i)

contains-names :
    (j : String) (ks : List String)
    → contains j (names (indices_of ks)) ≡ (contains j ks && is_some (array_index j))
unfolding contains indices_of is_some
contains-names j [] = refl
contains-names j (k ∷ ks) = elim (Option-cases (array_index k)) [
  | inl no_index ↦ rw no_index (ground (arith, contains-names j ks, str_eq_iff k j))
  | inr (i, e) ↦ rw e (rw (name_of_index k e) (ground (arith, contains-names j ks, str_eq_iff k j)))
]

contains-non_indices :
    (j : String) (ks : List String)
    → contains j (non_indices ks) ≡ (contains j ks && not (is_some (array_index j)))
unfolding contains non_indices is_some
contains-non_indices j [] = refl
contains-non_indices j (k ∷ ks) = ground (arith, contains-non_indices j ks, str_eq_iff k j)

contains-insert_index :
    (j : String) (i : ℕ) (is : List ℕ)
    → contains j (names (insert_index i is)) ≡ contains j (names (i ∷ is))
unfolding contains insert_index
contains-insert_index j i [] = refl
contains-insert_index j i (h ∷ is) = ground (arith, contains-insert_index j i is)

contains-sort_indices :
    (j : String) (is : List ℕ) → contains j (names (sort_indices is)) ≡ contains j (names is)
unfolding sort_indices contains
contains-sort_indices j [] = refl
contains-sort_indices j (i ∷ is) =
    contains-insert_index j i (sort_indices is)
    ∙ ap (λ b. str_eq (text_of (decimal i)) j || b) (contains-sort_indices j is)

IsNodup-insert_index :
    (i : ℕ) (is : List ℕ) → IsNodup (names (i ∷ is)) → IsNodup (names (insert_index i is))
unfolding contains insert_index
IsNodup-insert_index i [] n = n
IsNodup-insert_index i (h ∷ is) n = elim (Bool-cases (leb i h)) [
  | inl first ↦ rw first n
  | inr later ↦ rw later (
    ground (
      arith,
      contains-insert_index (text_of (decimal h)) i is,
      n,
      str_eq_iff (text_of (decimal i)) (text_of (decimal h)),
      str_eq_iff (text_of (decimal h)) (text_of (decimal i)),
    ),
    IsNodup-insert_index i is (ground (arith, n)),
  )
]

IsNodup-sort_indices : (is : List ℕ) → IsNodup (names is) → IsNodup (names (sort_indices is))
unfolding sort_indices
IsNodup-sort_indices [] n = n
IsNodup-sort_indices (i ∷ is) n =
    IsNodup-insert_index i (sort_indices is)
      (contains-sort_indices (text_of (decimal i)) is ∙ n.0, IsNodup-sort_indices is n.1)

IsNodup-indices : (ks : List String) → IsNodup ks → IsNodup (names (indices_of ks))
unfolding indices_of
IsNodup-indices [] n = tt
IsNodup-indices (k ∷ ks) n = elim (Option-cases (array_index k)) [
  | inl no_index ↦ rw no_index (IsNodup-indices ks n.1)
  | inr (i, e) ↦ rw (e, name_of_index k e) (contains-names k ks ∙ rw n.0, IsNodup-indices ks n.1)
]

IsNodup-non_indices : (ks : List String) → IsNodup ks → IsNodup (non_indices ks)
unfolding non_indices
IsNodup-non_indices [] n = tt
IsNodup-non_indices (k ∷ ks) n = elim (Option-cases (array_index k)) [
  | inl no_index ↦
      rw no_index (ground (arith, contains-non_indices k ks, n.0), IsNodup-non_indices ks n.1)
  | inr (i, e) ↦ rw e (IsNodup-non_indices ks n.1)
]

IsNodup-ordered :
    (is : List ℕ) (keys : List String)
    → IsNodup keys
    → IsNodup (names is)
    → ((k : String) → contains k (names is) ≡ true → contains k (non_indices keys) ≡ false)
    → IsNodup (ordered is keys)
IsNodup-ordered [] keys n m apart = n
IsNodup-ordered (i ∷ is) keys n m apart =
    IsNodup-append (names (sort_indices (i ∷ is))) (non_indices keys)
      (IsNodup-sort_indices (i ∷ is) m) (IsNodup-non_indices keys n)
      (λ k c. apart k (sym (contains-sort_indices k (i ∷ is)) ∙ c))

contains-ordered :
    (j : String) (is : List ℕ) (keys : List String)
    → (contains j (names is) || contains j (non_indices keys)) ≡ contains j keys
    → contains j (ordered is keys) ≡ contains j keys
contains-ordered j [] keys h = refl
contains-ordered j (i ∷ is) keys h =
    contains-append j (names (sort_indices (i ∷ is))) (non_indices keys)
    ∙ rw (contains-sort_indices j (i ∷ is)) h

-- Each key of the map is listed.
pub contains-json_keys : (j : String) (o : Object) → contains j (json_keys o) ≡ has_key j o.members
unfolding json_keys property_order
contains-json_keys j o =
    let ks = object_keys o in
    contains-ordered j (indices_of ks) ks
      (ground (arith, contains-names j ks, contains-non_indices j ks))
    ∙ contains-object_keys j o

-- No key is listed twice.
pub IsNodup-json_keys : (o : Object) → IsNodup (member_keys o.members) → IsNodup (json_keys o)
unfolding json_keys property_order
IsNodup-json_keys o n =
    let ks = object_keys o in
    let distinct = IsNodup-object_keys o n in
    IsNodup-ordered (indices_of ks) ks distinct (IsNodup-indices ks distinct)
      λ k c. ground (arith, contains-names k ks, contains-non_indices k ks)
