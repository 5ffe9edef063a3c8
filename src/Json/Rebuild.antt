-- ===== src/Json/Rebuild.antt =====
-- The loop over the keys of an object that makes a new object of those that it keeps.
use homer_cli.Base.{
  String, ◌≡◌, refl, Bool, true, false, ◌||◌, Option, none, some, List, [], ◌∷◌, ◌++◌, arith,
  str_eq, str_eq_iff, if◌then◌else◌, Bool-cases, Option-cases, inl, inr, contains, ap,
}
use homer_cli.Json.{Value, null, Members, end, Object, value_at, set_value}
use homer_cli.Json.Numbers.{FloatParser}
use homer_cli.Json.Keys.{is_some, has_key, object_keys, contains-object_keys}
use homer_cli.Json.Pointwise.{IsJson, IsMap, IsJson-value_at}
use homer_cli.Json.SetValue.{value_at-set_value, IsMap-set_value}

-- object.M[key], where a missing key reads as nil
abbrev pub value_or_null : Option Value → Value
value_or_null none = null
value_or_null (some v) = v

abbrev pub empty : Object
empty = record { keys = []; members = end }

-- out.Keys = append(out.Keys, key); out.M[key] = value
abbrev pub append_key : String → Option Value → Object → Object
append_key k none out = out
append_key k (some v) out = record {
  keys = out.keys ++ k ∷ [];
  members = set_value k v out.members;
}

-- `keep` says what the new object has at a key; none where the loop skips it.
unfoldable pub rebuild : (String → Value → Option Value) → List String → Members → Object → Object
unfolding value_at set_value
rebuild keep [] m out = out
rebuild keep (k ∷ ks) m out =
    rebuild keep ks m (append_key k (keep k (value_or_null (value_at k m))) out)

unfoldable pub rebuilt : (String → Value → Option Value) → Object → Object
unfolding rebuild object_keys
rebuilt keep o = rebuild keep (object_keys o) o.members empty

abbrev pub either : Option Value → Option Value → Option Value
either none b = b
either (some a) b = some a

unfoldable pub then_keep : (Value → Option Value) → Option Value → Option Value
then_keep f none = none
then_keep f (some v) = f v

pub value_at-append_key :
    (j k : String) (o : Option Value) (out : Object)
    → value_at j (append_key k o out).members
      ≡ (if str_eq k j then either o (value_at j out.members) else value_at j out.members)
value_at-append_key j k none out = ground arith
value_at-append_key j k (some v) out = value_at-set_value j k v out.members

absorb :
    (b : Bool) (x y o : Option Value)
    → y ≡ x
    → either (if b then x else none) (either y o) ≡ either (if true || b then x else none) o
absorb true none y o e = rw e refl
absorb true (some v) y o e = refl
absorb false x y o e = rw e refl

pub either-none : (o : Option Value) → either o none ≡ o
either-none none = refl
either-none (some v) = refl

value_at-rebuild :
    (keep : String → Value → Option Value) (j : String) (ks : List String) (m : Members)
    (out : Object)
    → value_at j (rebuild keep ks m out).members
      ≡ either
          (if contains j ks then keep j (value_or_null (value_at j m)) else none)
          (value_at j out.members)
unfolding rebuild contains
value_at-rebuild keep j [] m out = refl
value_at-rebuild keep j (k ∷ ks) m out =
    rw
      (
        value_at-rebuild keep j ks m (append_key k (keep k (value_or_null (value_at k m))) out),
        value_at-append_key j k (keep k (value_or_null (value_at k m))) out,
      )
      (elim (Bool-cases (str_eq k j)) [
        | inl e ↦ rw e (
            absorb (contains j ks) _ _ (value_at j out.members)
              (ap (λ i. keep i (value_or_null (value_at i m))) ((str_eq_iff k j).0 e)))
        | inr e ↦ rw e refl
      ])

-- At a key the new object has what the loop keeps of the old one.
pub value_at-rebuilt :
    (keep : String → Value → Option Value) (j : String) (o : Object)
    → value_at j (rebuilt keep o).members ≡ then_keep (keep j) (value_at j o.members)
unfolding rebuilt then_keep has_key is_some
value_at-rebuilt keep j o =
    rw (value_at-rebuild keep j (object_keys o) o.members empty, contains-object_keys j o)
      (elim (Option-cases (value_at j o.members)) [
        | inl e ↦ rw e refl
        | inr (v, e) ↦ rw e (either-none (keep j v))
      ])

module _ ⦃fl : FloatParser⦄ where
  IsMap-append_key :
      (k : String) (o : Option Value) (out : Object)
      → ((w : Value) → o ≡ some w → IsJson w)
      → IsMap out.members
      → IsMap (append_key k o out).members
  IsMap-append_key k none out h g = g
  IsMap-append_key k (some v) out h g = IsMap-set_value k v out.members (h v refl) g

  value_or_null-IsJson :
      (k : String) (m : Members) → IsMap m → IsJson (value_or_null (value_at k m))
  unfolding IsJson
  value_or_null-IsJson k m h = elim (Option-cases (value_at k m)) [
    | inl e ↦ rw e tt
    | inr (v, e) ↦ rw e (IsJson-value_at k m h e)
  ]

  IsMap-rebuild :
      (keep : String → Value → Option Value) (ks : List String) (m : Members) (out : Object)
      → ((k : String) (v w : Value) → IsJson v → keep k v ≡ some w → IsJson w)
      → IsMap m
      → IsMap out.members
      → IsMap (rebuild keep ks m out).members
  unfolding rebuild
  IsMap-rebuild keep [] m out f h g = g
  IsMap-rebuild keep (k ∷ ks) m out f h g = IsMap-rebuild keep ks m _ f h (
      IsMap-append_key k _ out
        (λ w. f k (value_or_null (value_at k m)) w (value_or_null-IsJson k m h)) g)

  -- The new object has no key twice, whatever the old order of the keys is.
  pub IsMap-rebuilt :
      (keep : String → Value → Option Value) (o : Object)
      → ((k : String) (v w : Value) → IsJson v → keep k v ≡ some w → IsJson w)
      → IsMap o.members
      → IsMap (rebuilt keep o).members
  unfolding rebuilt IsJson
  IsMap-rebuilt keep o f h = IsMap-rebuild keep (object_keys o) o.members empty f h tt
