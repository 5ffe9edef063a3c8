-- ===== src/Sync/Exclusion/Planting.antt =====
-- Excluded keys on the way to the store and back.
use homer_cli.Base.{
  String, ◌≡◌, refl, sym, ◌∙◌, Bool, true, false, not, ◌&&◌, ◌||◌, Option, none, some, List, [],
  ◌∷◌, arith, str_eq, str_eq_iff, str_eq_refl, if◌then◌else◌, contains, Bool-cases, Option-cases,
  inl, inr,
}
use mathlib.Core.Path.{subst}
use homer_cli.Json.{Value, object, Members, Object, value_at}
use homer_cli.Json.Keys.{is_some, has_key, object_keys, contains-object_keys}
use homer_cli.Json.Rebuild.{
  rebuilt, append_key, either, then_keep, value_at-rebuilt, value_at-append_key,
}
use homer_cli.Json.Strip.{as_value}
use homer_cli.Sync.Exclusion.{
  keep_local, replaces_any, adds_any, add_missing, plant_in_object, plant_excluded_keys,
}

-- What an object has at a key; nothing for other values.
unfoldable pub field_at : String → Value → Option Value
field_at k (object ks m) = value_at k m
field_at k v = none

contains-replaces_any :
    (j : String) (own : Members) (keys visited : List String)
    → contains j visited ≡ true
    → contains j keys ≡ true
    → has_key j own ≡ true
    → replaces_any own keys visited ≡ true
unfolding replaces_any contains
contains-replaces_any j own keys [] v c h = cc
contains-replaces_any j own keys (k ∷ visited) v c h = elim (Bool-cases (str_eq k j)) [
  | inl e ↦
      subst (λ i. (contains i keys && has_key i own || replaces_any own keys visited) ≡ true)
        (sym ((str_eq_iff k j).0 e)) (ground arith)
  | inr e ↦ ground (arith, contains-replaces_any j own keys visited)
]

contains-adds_any :
    (j : String) (merged own : Members) (keys : List String)
    → contains j keys ≡ true
    → has_key j merged ≡ false
    → has_key j own ≡ true
    → adds_any merged own keys ≡ true
unfolding adds_any contains
contains-adds_any j merged own [] c g h = cc
contains-adds_any j merged own (k ∷ keys) c g h = elim (Bool-cases (str_eq k j)) [
  | inl e ↦
      subst (λ i. (not (has_key i merged) && has_key i own || adds_any merged own keys) ≡ true)
        (sym ((str_eq_iff k j).0 e)) (ground arith)
  | inr e ↦ ground (arith, contains-adds_any j merged own keys)
]

-- One round of the second loop.
value_at-round :
    (j k : String) (merged own : Members) (out : Object)
    → value_at j (if has_key k merged then out else append_key k (value_at k own) out).members ≡ (
        if str_eq k j && not (has_key j merged)
        then either (value_at j own) (value_at j out.members)
        else value_at j out.members)
value_at-round j k merged own out = elim (Bool-cases (str_eq k j)) [
  | inl e ↦ rw e (
      subst
        (λ i.
          value_at j (if has_key i merged then out else append_key i (value_at i own) out).members
          ≡ (if not (has_key j merged)
              then either (value_at j own) (value_at j out.members)
              else value_at j out.members))
        (sym ((str_eq_iff k j).0 e))
        (elim (Bool-cases (has_key j merged)) [
          | inl h ↦ rw h refl
          | inr h ↦ rw (h, value_at-append_key j j, str_eq_refl j) refl
        ]))
  | inr e ↦ elim (Bool-cases (has_key k merged)) [
    | inl h ↦ rw (e, h) refl
    | inr h ↦ rw (h, value_at-append_key, e) refl
  ]
]

either-twice : (a b : Option Value) → either a (either a b) ≡ either a b
either-twice none b = refl
either-twice (some v) b = refl

value_at-add_missing :
    (j : String) (merged own : Members) (keys : List String) (out : Object)
    → value_at j (add_missing merged own keys out).members ≡ (
        if contains j keys && not (has_key j merged)
        then either (value_at j own) (value_at j out.members)
        else value_at j out.members)
unfolding add_missing contains
value_at-add_missing j merged own [] out = refl
value_at-add_missing j merged own (k ∷ keys) out =
    rw
      (
        value_at-add_missing j merged own keys
            (if has_key k merged then out else append_key k (value_at k own) out),
        value_at-round j k merged own out,
      )
      (merge (str_eq k j) (contains j keys) (not (has_key j merged)) (value_at j own)
        (value_at j out.members))
  where
    merge :
        (a b c : Bool) (x y : Option Value)
        → (if b && c
            then either x (if a && c then either x y else y)
            else (if a && c then either x y else y))
          ≡ (if (a || b) && c then either x y else y)
    merge true true true x y = either-twice x y
    merge true false c x y = refl
    merge false b c x y = refl
    merge true true false x y = refl

then_keep-local :
    (j : String) (own : Members) (keys : List String) (o : Option Value)
    → then_keep (keep_local own keys j) o
      ≡ (if contains j keys && is_some o then either (value_at j own) o else o)
unfolding then_keep is_some
then_keep-local j own keys none = ground arith
then_keep-local j own keys (some v) = elim (Option-cases (value_at j own)) [
  | inl e ↦ rw e (ground arith)
  | inr (w, e) ↦ rw e (ground arith)
]

-- Where planting changes nothing, the machine has no excluded key.
not_there :
    (j : String) (merged : Object) (own : Members) (keys : List String)
    → (replaces_any own keys (object_keys merged) || adds_any merged.members own keys) ≡ false
    → contains j keys ≡ true
    → value_at j own ≡ none
unfolding has_key is_some
not_there j merged own keys e c = elim (Option-cases (value_at j own)) [
  | inl h ↦ h
  | inr (v, h) ↦ elim (Bool-cases (has_key j merged.members)) [
    | inl m ↦
        let r =
          contains-replaces_any j own keys (object_keys merged) (contains-object_keys j merged ∙ m)
            c (rw h refl) in
        absurd (ground arith)
    | inr m ↦
        let a = contains-adds_any j merged.members own keys c m (rw h refl) in absurd (ground arith)
  ]
]

-- What planting gives at a key, whether it changes anything or not.
value_at-plant_in_object :
    (j : String) (merged : Object) (own : Members) (keys : List String)
    → value_at j (plant_in_object merged own keys).members ≡ (
        if contains j keys
        then either (value_at j own) (value_at j merged.members)
        else value_at j merged.members)
unfolding plant_in_object has_key is_some
value_at-plant_in_object j merged own keys =
    elim (Bool-cases
      (replaces_any own keys (object_keys merged) || adds_any merged.members own keys)) [
        | inl e ↦
            rw
              (
                plant_in_object,
                e,
                value_at-add_missing j merged.members own keys
                    (rebuilt (keep_local own keys) merged),
                value_at-rebuilt (keep_local own keys) j merged,
                then_keep-local j own keys (value_at j merged.members),
              )
              (join (contains j keys) (value_at j own) (value_at j merged.members))
        | inr e ↦
            rw (plant_in_object, e)
              (elim (Bool-cases (contains j keys)) [
                | inl c ↦ rw (c, not_there j merged own keys e c) refl
                | inr c ↦ rw c refl
              ])
      ]
  where
    join :
        (b : Bool) (x y : Option Value)
        → (if b && not (is_some y)
            then either x (if b && is_some y then either x y else y)
            else (if b && is_some y then either x y else y))
          ≡ (if b then either x y else y)
    join true x none = refl
    join true x (some v) = refl
    join false x y = refl

pub field_at-plant_excluded_keys :
    (j : String) (merged own : Object) (keys : List String)
    → field_at j (plant_excluded_keys (as_value merged) (as_value own) keys) ≡ (
        if contains j keys
        then either (value_at j own.members) (value_at j merged.members)
        else value_at j merged.members)
unfolding plant_excluded_keys field_at contains
field_at-plant_excluded_keys j merged own [] = refl
field_at-plant_excluded_keys j merged own (k ∷ keys) =
    value_at-plant_in_object j merged own.members (k ∷ keys)
