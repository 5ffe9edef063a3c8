-- ===== src/Sync/Exclusion/Omission.antt =====
-- What a pull writes to a tool.
use homer_cli.Base.{
  or-false, String, ◌≡◌, refl, sym, ◌∙◌, true, false, ◌&&◌, Option, none, some, List, [], ◌∷◌,
  arith, includes, ap, ◌↔◌, ◌≢◌, str_eq, str_eq_iff, if◌then◌else◌, contains, Bool-cases,
  Option-cases, inl, inr,
}
use mathlib.Core.Path.{subst}
use homer_cli.Json.{
  Items, array, null, bool, number, Value, text, object, Members, Object, value_at,
}
use homer_cli.Json.Keys.{is_some, has_key, object_keys, contains-object_keys}
use homer_cli.Json.Rebuild.{either, then_keep, value_at-rebuilt}
use homer_cli.Json.Strip.{as_value}
use homer_cli.Sync.Exclusion.{required_placeholder, plant_in_object, plant_excluded_keys}
use homer_cli.Sync.Exclusion.{
  is_unresolved, is_placeholder, keep_resolved, drops_any, drop_in_object,
  drop_unresolved_placeholders, content, panics, omit_from, omit_placeholder_content,
}
use homer_cli.Sync.Exclusion.Planting.{field_at, field_at-plant_excluded_keys}

-- The value, unless it is the placeholder.
unfoldable pub resolved : Option Value → Option Value
resolved none = none
resolved (some v) = if is_placeholder v then none else some v

then_keep-resolved :
    (j : String) (keys : List String) (o : Option Value)
    → then_keep (keep_resolved keys j) o ≡ (if contains j keys then resolved o else o)
unfolding then_keep resolved
then_keep-resolved j keys none = ground arith
then_keep-resolved j keys (some v) = elim (Bool-cases (contains j keys)) [
  | inl c ↦ rw c refl
  | inr c ↦ rw c refl
]

still_there :
    (j : String) (keys : List String) (o : Option Value)
    → (contains j keys && is_unresolved o) ≡ false
    → (if contains j keys then resolved o else o) ≡ o
unfolding resolved
still_there j keys none e = ground arith
still_there j keys (some v) e = elim (Bool-cases (contains j keys)) [
  | inl c ↦ let p : is_placeholder v ≡ false = rw c at e in rw (c, p) refl
  | inr c ↦ rw c refl
]

-- Where the loop drops nothing, no excluded key that it visits has the placeholder.
drops_any-at :
    (j : String) (m : Members) (keys visited : List String)
    → drops_any m keys visited ≡ false
    → contains j visited ≡ true
    → (if contains j keys then resolved (value_at j m) else value_at j m) ≡ value_at j m
unfolding drops_any contains
drops_any-at j m keys [] e c = cc
drops_any-at j m keys (k ∷ visited) e c =
    let (here, later) =
      or-false (contains k keys && is_unresolved (value_at k m)) (drops_any m keys visited) e in
    elim (Bool-cases (str_eq k j)) [
      | inl same ↦ still_there j keys (value_at j m) (
          subst (λ i. (contains i keys && is_unresolved (value_at i m)) ≡ false)
            ((str_eq_iff k j).0 same) here)
      | inr other ↦ drops_any-at j m keys visited later (ground arith)
    ]

nothing_dropped :
    (j : String) (o : Object) (keys : List String)
    → drops_any o.members keys (object_keys o) ≡ false
    → value_at j o.members
      ≡ (if contains j keys then resolved (value_at j o.members) else value_at j o.members)
unfolding has_key is_some resolved
nothing_dropped j o keys e = elim (Option-cases (value_at j o.members)) [
  | inl h ↦ rw h (ground arith)
  | inr (v, h) ↦
      sym (drops_any-at j o.members keys (object_keys o) e (contains-object_keys j o ∙ rw h refl))
]

-- Dropping at a key, whether anything is dropped or not.
field_at-drop :
    (j : String) (o : Object) (keys : List String)
    → field_at j (drop_unresolved_placeholders (as_value o) keys)
      ≡ (if contains j keys then resolved (value_at j o.members) else value_at j o.members)
unfolding drop_unresolved_placeholders drop_in_object field_at contains
field_at-drop j o [] = refl
field_at-drop j o (k ∷ keys) = elim (Bool-cases (drops_any o.members (k ∷ keys) (object_keys o))) [
  | inl e ↦
      rw (drop_unresolved_placeholders, drop_in_object, e, value_at-rebuilt)
        (then_keep-resolved j (k ∷ keys) (value_at j o.members))
  | inr e ↦ rw (drop_unresolved_placeholders, drop_in_object, e) (nothing_dropped j o (k ∷ keys) e)
]

members_form :
    (merged own : Object) (keys : List String)
    → (p : Object) × (plant_excluded_keys (as_value merged) (as_value own) keys ≡ as_value p)
unfolding plant_excluded_keys
members_form merged own [] = (merged, refl)
members_form merged own (k ∷ keys) = (plant_in_object merged own.members (k ∷ keys), refl)

-- For a merged object, the object that the machine has and any excluded keys: in what a pull writes,
-- an excluded key has what the machine has there, or else what the merge gives, but nothing where that
-- is the placeholder; every other key has what the merge gives.
pub drop-plant_excluded_keys :
    (merged own : Object) (keys : List String) (j : String)
    → field_at j (
        drop_unresolved_placeholders
          (plant_excluded_keys (as_value merged) (as_value own) keys)
          keys)
      ≡ (if contains j keys
          then resolved (either (value_at j own.members) (value_at j merged.members))
          else value_at j merged.members)
unfolding field_at
drop-plant_excluded_keys merged own keys j =
    let (p, e) = members_form merged own keys in
    let at : value_at j p.members ≡ (
        if contains j keys
        then either (value_at j own.members) (value_at j merged.members)
        else value_at j merged.members) =
      rw e at (field_at-plant_excluded_keys j merged own keys) in
    rw (e, field_at-drop j p keys, at)
      (elim (Bool-cases (contains j keys)) [ inl c ↦ rw c refl | inr c ↦ rw c refl ])

omit_from_panics :
    (serialize_file : Value → String) (s : String) (keys : List String) (v : Value)
    → omit_from serialize_file s keys v ≡ panics
    → (xs : Items) × (v ≡ array xs)
unfolding omit_from
omit_from_panics f s keys null e = cc
omit_from_panics f s keys (bool b) e = cc
omit_from_panics f s keys (number n) e = cc
omit_from_panics f s keys (text t) e = cc
omit_from_panics f s keys (array xs) e = (xs, refl)
omit_from_panics f s keys (object ks m) e =
    elim (Option-cases (drop_in_object keys (record { keys = ks; members = m }))) [
      | inl d ↦ let q : content s ≡ panics = rw (omit_from, d) at e in cc
      | inr (o, d) ↦ let q : content (f (as_value o)) ≡ panics = rw (omit_from, d) at e in cc
    ]

module _ (parse : String → Option Value) (serialize serialize_file : Value → String) where
  -- Dropping the placeholders from a text panics exactly if there are excluded keys, the text has the
  -- placeholder in it, and it parses as an array.
  pub omit_placeholder_content_panics :
      (s : String) (keys : List String)
      → (omit_placeholder_content parse serialize serialize_file s keys ≡ panics) ↔ (
          (keys ≢ [])
          × (includes s required_placeholder ≡ true)
          × ((xs : Items) × (parse s ≡ some (array xs))))
  unfolding omit_placeholder_content omit_from
  omit_placeholder_content_panics s [] = (λ e. cc, λ h. absurd (h.0 refl))
  omit_placeholder_content_panics s (k ∷ keys) = (
    λ e. elim (Bool-cases (includes s required_placeholder)) [
      | inl i ↦ elim (Option-cases (parse s)) [
        | inl none_parsed ↦
            let q : content s ≡ panics = rw (omit_placeholder_content, i, none_parsed) at e in cc
        | inr (v, parsed) ↦
            let q : omit_from serialize_file s (k ∷ keys) v ≡ panics =
              rw (omit_placeholder_content, i, parsed) at e in
            let (xs, is_array) = omit_from_panics serialize_file s (k ∷ keys) v q in
            (λ n. cc, i, (xs, parsed ∙ ap (λ w. some w) is_array))
      ]
      | inr i ↦ let q : content s ≡ panics = rw (omit_placeholder_content, i) at e in cc
    ],
    λ (n, i, (xs, parsed)). rw (omit_placeholder_content, i, parsed) refl,
  )
