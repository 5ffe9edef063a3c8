-- ===== src/Json/Strip/Exact.antt =====
-- What the strip leaves.
use homer_cli.Base.{
  String, ◌≡◌, refl, ◌∙◌, sym, ◌↔◌, true, false, Option, none, some, List, arith, if◌then◌else◌,
  Bool-cases, inl, inr, contains,
}
use homer_cli.Json.{Value, object, Members, Object, value_at}
use homer_cli.Json.Numbers.{FloatParser}
use homer_cli.Json.Equal.{deep_equal, same_slot}
use homer_cli.Json.Pointwise.{IsJson, IsMap}
use homer_cli.Json.Rebuild.{rebuilt, then_keep, value_at-rebuilt}
use homer_cli.Json.Strip.{keep_others, copy_value, copy_members, strip_top_keys}
use homer_cli.Json.Strip.Copy.{
  mapped_slot, value_at-copy_members, agree, IsMap-kept_copy, copy_members-AreCopies, copies_agree,
}

module _ ⦃fl : FloatParser⦄ where
  keep_others-same :
      (keys : List String) (k : String) (v w : Value) → keep_others keys k v ≡ some w → v ≡ w
  keep_others-same keys k v w e = elim (Bool-cases (contains k keys)) [
    | inl c ↦ let q : none ≡ some w = rw c at e in cc
    | inr c ↦ let q : some v ≡ some w = rw c at e in cc
  ]

  then_keep-others :
      (k : String) (keys : List String) (o : Option Value)
      → then_keep (keep_others keys k) o ≡ (if contains k keys then none else o)
  unfolding then_keep
  then_keep-others k keys none = ground arith
  then_keep-others k keys (some v) = refl

  stripped : List String → List String → Members → Object
  unfolding rebuilt contains
  stripped keys ks m = rebuilt (keep_others keys) (record { keys = ks; members = copy_members m })

  value_at-stripped :
      (k : String) (keys ks : List String) (m : Members)
      → value_at k (stripped keys ks m).members
        ≡ (if contains k keys then none else mapped_slot copy_value (value_at k m))
  unfolding stripped
  value_at-stripped k keys ks m =
      rw (value_at-rebuilt, then_keep-others, value_at-copy_members) refl

  IsMap-stripped :
      (keys ks : List String) (m : Members) → IsMap m → IsMap (stripped keys ks m).members
  unfolding stripped
  IsMap-stripped keys ks m h =
      IsMap-kept_copy (keep_others keys) ks m (keep_others-same keys) (copy_members-AreCopies m h).0

  pub strip_top_keys-IsJson :
      (ks keys : List String) (m : Members) → IsMap m → IsJson (strip_top_keys (object ks m) keys)
  unfolding strip_top_keys stripped IsJson
  strip_top_keys-IsJson ks keys m h = IsMap-stripped keys ks m h

  -- For two objects of JSON values, with no key twice, and any keys: what is left after stripping the
  -- keys from both is equal exactly if, at every other key, both objects have no value or equal ones.
  pub strip_top_keys_exact :
      (ks ls keys : List String) (m n : Members)
      → IsMap m
      → IsMap n
      → (deep_equal (strip_top_keys (object ks m) keys) (strip_top_keys (object ls n) keys) ≡ true)
        ↔ ((k : String) → contains k keys ≡ false → same_slot (value_at k m) (value_at k n) ≡ true)
  unfolding strip_top_keys stripped
  strip_top_keys_exact ks ls keys m n hm hn =
      let (to, from) =
        agree (stripped keys ks m) (stripped keys ls n) (IsMap-stripped keys ks m hm)
          (IsMap-stripped keys ls n hn) in
      (
        λ e k c.
            sym (copies_agree k m n hm hn)
            ∙ rw (value_at-stripped k keys ks m, value_at-stripped k keys ls n, c) at (to e k),
        λ h. from λ k.
            rw (value_at-stripped k keys ks m, value_at-stripped k keys ls n)
              (elim (Bool-cases (contains k keys)) [
                | inl c ↦ rw c (unfold same_slot in refl)
                | inr c ↦ rw c (copies_agree k m n hm hn ∙ h k c)
              ]),
      )
