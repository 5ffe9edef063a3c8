-- ===== src/Engine/Merge/Keywise.antt =====
-- The merge of two objects, key by key.
use homer_cli.Base.{
  String, ◌≡◌, refl, sym, ◌∙◌, ap, Bool, true, false, ◌||◌, ◌↔◌, none, some, List, [], ◌∷◌, ◌++◌,
  arith, str_eq, str_eq_iff, if◌then◌else◌, Bool-cases, inl, inr, contains, contains-append_new,
  append_new,
}
use mathlib.Core.Path.{subst}
use homer_cli.Json.{object, Object, value_at}
use homer_cli.Json.SetValue.{value_at-set_value}
use homer_cli.Json.Keys.{is_some, has_key, contains-object_keys}
use homer_cli.Engine.Merge.{
  Slot, Merged, child_slot, child_path, slot_keys, union_object_keys, empty_object, put_object,
  put_resolved, merge_keys, merge_object,
}

abbrev override : Slot → Slot → Slot
override none s = s
override (some v) s = some v

value_at-put_resolved :
    (j key : String) (o : Slot) (out : Object)
    → value_at j (put_resolved out key o).members
      ≡ (if str_eq key j then override o (value_at j out.members) else value_at j out.members)
unfolding put_object
value_at-put_resolved j key none out = ground arith
value_at-put_resolved j key (some v) out = value_at-set_value j key v out.members

contains-slot_keys : (j : String) (s : Slot) → contains j (slot_keys s) ≡ is_some (child_slot s j)
unfolding contains child_slot has_key
contains-slot_keys j none = refl
contains-slot_keys j (some (object ks m)) =
    contains-object_keys j (record { keys = ks; members = m })
contains-slot_keys j (some _) = refl

-- The keys that the loop visits are those at which some side has a child.
pub contains-union_object_keys :
    (j : String) (b l r : Slot)
    → contains j (union_object_keys b l r)
      ≡ (is_some (child_slot b j) || (is_some (child_slot l j) || is_some (child_slot r j)))
unfolding union_object_keys contains
contains-union_object_keys j b l r =
    let bs = append_new [] (slot_keys b) in
    let ls = append_new bs (slot_keys l) in
    ground (
      arith,
      contains-append_new j ls (slot_keys r),
      contains-append_new j bs (slot_keys l),
      contains-append_new j [] (slot_keys b),
      contains-slot_keys j b,
      contains-slot_keys j l,
      contains-slot_keys j r,
    )

override_twice : (o x : Slot) → override o (override o x) ≡ override o x
override_twice none x = refl
override_twice (some v) x = refl

-- One round of the loop: `same` says that its key is the one that is asked for.
override_round :
    (same inside : Bool) (o p x : Slot)
    → (same ≡ true → p ≡ o)
    → (let y = if same then override p x else x in if inside then override o y else y)
      ≡ (if same || inside then override o x else x)
override_round true true o p x h = rw (h refl) (override_twice o x)
override_round true false o p x h = rw (h refl) refl
override_round false inside o p x h = refl

append-nil_parts {ℓ} : {A : Type ℓ} (xs ys : List A) → xs ++ ys ≡ [] → (xs ≡ []) × (ys ≡ [])
append-nil_parts [] ys h = (refl, h)
append-nil_parts (x ∷ xs) ys h = cc

all_missing :
    (b l r : Slot)
    → (is_some b || (is_some l || is_some r)) ≡ false
    → (b ≡ none) × (l ≡ none) × (r ≡ none)
unfolding is_some
all_missing b l r h = ground arith

override-none : (o : Slot) → override o none ≡ o
override-none none = refl
override-none (some v) = refl

module _ (f : String → Slot → Slot → Slot → Merged) (path : String) (b l r : Slot) where
  -- The call on the children at a key.
  abbrev pub at_key : String → Merged
  at_key j = f (child_path path j) (child_slot b j) (child_slot l j) (child_slot r j)

  value_at-merge_keys :
      (j : String) (keys : List String) (out : Object)
      → value_at j (merge_keys f path b l r keys out).0.members ≡ (
          if contains j keys
          then override (at_key j).0 (value_at j out.members)
          else value_at j out.members)
  unfolding merge_keys contains
  value_at-merge_keys j [] out = refl
  value_at-merge_keys j (key ∷ keys) out =
      value_at-merge_keys j keys (put_resolved out key (at_key key).0)
      ∙ rw (value_at-put_resolved j key (at_key key).0 out) (
          override_round (str_eq key j) (contains j keys) (at_key j).0 (at_key key).0
            (value_at j out.members) λ same. ap (λ k. (at_key k).0) ((str_eq_iff key j).0 same))

  -- A loop that leaves no conflict had none at any of its keys.
  conflicts_at :
      (j : String) (keys : List String) (out : Object)
      → (merge_keys f path b l r keys out).1 ≡ []
      → contains j keys ≡ true
      → (at_key j).1 ≡ []
  unfolding merge_keys contains
  conflicts_at j [] out e c = cc
  conflicts_at j (key ∷ keys) out e c =
      let (here, later) = append-nil_parts (at_key key).1 _ e in
      elim (Bool-cases (str_eq key j)) [
        | inl same ↦ subst (λ k. (at_key k).1 ≡ []) ((str_eq_iff key j).0 same) here
        | inr other ↦
            conflicts_at j keys (put_resolved out key (at_key key).0) later (rw other at c)
      ]

  no_conflicts :
      (keys : List String) (out : Object)
      → ((j : String) → (at_key j).1 ≡ [])
      → (merge_keys f path b l r keys out).1 ≡ []
  unfolding merge_keys
  no_conflicts [] out h = refl
  no_conflicts (key ∷ keys) out h = rw (h key) (no_conflicts keys _ h)

  -- The merge of missing children is missing and leaves no conflict.
  abbrev pub MergesNothing : Type 0
  MergesNothing = (p : String) → f p none none none ≡ (none, [])

  nothing_at :
      (j : String)
      → MergesNothing
      → contains j (union_object_keys b l r) ≡ false
      → at_key j ≡ (none, [])
  nothing_at j h c =
      let (eb, el, er) = all_missing _ _ _ (sym (contains-union_object_keys j b l r) ∙ c) in
      rw (eb, el, er) (h (child_path path j))

  -- The merged object has, at every key, what the merge of the three children gives.
  pub child-merge_object :
      (j : String) → MergesNothing → child_slot (merge_object f path b l r).0 j ≡ (at_key j).0
  unfolding merge_object child_slot
  child-merge_object j h =
      value_at-merge_keys j (union_object_keys b l r) empty_object
      ∙ elim (Bool-cases (contains j (union_object_keys b l r))) [
        | inl visited ↦ rw visited (override-none (at_key j).0)
        | inr missed ↦ rw missed (sym (ap (λ m. m.0) (nothing_at j h missed)))
      ]

  -- The merge of two objects is free of conflicts exactly if it is at every key.
  pub merge_object_clean :
      MergesNothing → ((merge_object f path b l r).1 ≡ []) ↔ ((j : String) → (at_key j).1 ≡ [])
  unfolding merge_object
  merge_object_clean h = (
    λ e j. elim (Bool-cases (contains j (union_object_keys b l r))) [
      | inl visited ↦ conflicts_at j (union_object_keys b l r) empty_object e visited
      | inr missed ↦ ap (λ m. m.1) (nothing_at j h missed)
    ],
    λ all. no_conflicts (union_object_keys b l r) empty_object all,
  )
