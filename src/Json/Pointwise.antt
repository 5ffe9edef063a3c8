-- ===== src/Json/Pointwise.antt =====
-- Equality of objects against their members, key by key, and what a JSON value is.
use homer_cli.Base.{
  String, ◌≡◌, true, false, ◌&&◌, some, arith, ◌==◌, ==_iff, str_eq, str_eq_iff, length, List,
  and-elim, Bool-cases, Option-cases, inl, inr, ◌↔◌, ◌∙◌, sym, str_eq_refl,
}
use mathlib.Core.Path.{subst}
use homer_cli.Base.Counting.{IsNodup, Included, length-le_of_Included, Included-back}
use homer_cli.Json.{
  Value, number, array, object, Items, nil, item, Members, end, member, value_at, member_keys,
}
use homer_cli.Json.Numbers.{FloatParser, IsNumber}
use homer_cli.Json.Keys.{has_key, contains-member_keys}
use homer_cli.Json.Equal.{
  deep_equal, equal_members, same_slot, deep_equal-object, equal_members-member, equal_members-end,
}

module _ ⦃fl : FloatParser⦄ where
  -- `IsJson`: no map has a key twice, and no number is NaN, at any depth.
  unfoldable mutual
    pub IsJson : Value → Type 0
    IsJson (number s) = IsNumber s
    IsJson (array xs) = AreJson xs
    IsJson (object ks m) = IsMap m
    IsJson _ = Unit {0}

    pub AreJson : Items → Type 0
    AreJson nil = Unit {0}
    AreJson (item v xs) = IsJson v × AreJson xs

    pub IsMap : Members → Type 0
    IsMap end = Unit {0}
    IsMap (member k v m) = (has_key k m ≡ false) × IsJson v × IsMap m

  IsNodup-member_keys : (m : Members) → IsMap m → IsNodup (member_keys m)
  unfolding IsJson member_keys
  IsNodup-member_keys end h = tt
  IsNodup-member_keys (member k v m) h = (contains-member_keys k m ∙ h.0, IsNodup-member_keys m h.2)

  pub IsJson-value_at :
      (k : String) (m : Members) {v : Value} → IsMap m → value_at k m ≡ some v → IsJson v
  unfolding IsJson value_at
  IsJson-value_at k end h e = cc
  IsJson-value_at k (member j w m) {v} h e = elim (Bool-cases (str_eq j k)) [
    | inl same ↦ subst IsJson (cc) h.1
    | inr other ↦ IsJson-value_at k m h.2 (rw other at e)
  ]

  equal_members_at :
      (m m' : Members) (k : String) (v : Value)
      → equal_members m m' ≡ true
      → value_at k m ≡ some v
      → same_slot (some v) (value_at k m') ≡ true
  unfolding value_at
  equal_members_at end m' k v h e = cc
  equal_members_at (member j w m) m' k v h e =
      ground (arith, equal_members-member j w m m', str_eq_iff j k, equal_members_at m m' k v)

  equal_members_of :
      (m m' : Members)
      → IsMap m
      → ((k : String) (v : Value)
          → value_at k m ≡ some v
          → same_slot (some v) (value_at k m') ≡ true)
      → equal_members m m' ≡ true
  unfolding value_at IsJson has_key
  equal_members_of end m' u h = equal_members-end m'
  equal_members_of (member j w m) m' u h = rw (equal_members-member j w m m') (
      ground (
        arith,
        h j w,
        str_eq_refl j,
        equal_members_of m m' u.2 (λ k v e. h k v (ground (arith, u.0, str_eq_iff j k))),
      ))

  Included-of :
      (m m' : Members)
      → ((k : String) → has_key k m ≡ true → has_key k m' ≡ true)
      → Included (member_keys m) (member_keys m')
  Included-of m m' h k c = contains-member_keys k m' ∙ h k (sym (contains-member_keys k m) ∙ c)

  has_key_of_same :
      (k : String) (m m' : Members)
      → same_slot (value_at k m) (value_at k m') ≡ true
      → has_key k m ≡ has_key k m'
  unfolding same_slot has_key
  has_key_of_same k m m' h = ground arith

  has_key_of_members :
      (k : String) (m m' : Members)
      → equal_members m m' ≡ true
      → has_key k m ≡ true
      → has_key k m' ≡ true
  unfolding same_slot has_key
  has_key_of_members k m m' e h = elim (Option-cases (value_at k m)) [
    | inl missing ↦ ground arith
    | inr (v, there) ↦ ground (arith, equal_members_at m m' k v e there)
  ]

  agree_at :
      (m m' : Members) (k : String)
      → equal_members m m' ≡ true
      → (has_key k m' ≡ true → has_key k m ≡ true)
      → same_slot (value_at k m) (value_at k m') ≡ true
  unfolding same_slot has_key
  agree_at m m' k e back = elim (Option-cases (value_at k m)) [
    | inl missing ↦ ground (arith, back)
    | inr (v, there) ↦ rw there (equal_members_at m m' k v e there)
  ]

  length_of_agree :
      (m m' : Members)
      → IsMap m
      → IsMap m'
      → ((k : String) → same_slot (value_at k m) (value_at k m') ≡ true)
      → length (member_keys m) ≡ length (member_keys m')
  length_of_agree m m' u u' h = omega (
    arith,
    length-le_of_Included _ _ (IsNodup-member_keys m u)
        (Included-of m m' λ k c. sym (has_key_of_same k m m' (h k)) ∙ c),
    length-le_of_Included _ _ (IsNodup-member_keys m' u')
        (Included-of m' m λ k c. has_key_of_same k m m' (h k) ∙ c),
  )

  -- Two objects of JSON values, with no key twice, are equal exactly if, at every key, both have no
  -- value or equal ones. The order of the keys plays no part.
  pub deep_equal_pointwise :
      (ks ks' : List String) (m m' : Members)
      → IsMap m
      → IsMap m'
      → (deep_equal (object ks m) (object ks' m') ≡ true)
        ↔ ((k : String) → same_slot (value_at k m) (value_at k m') ≡ true)
  deep_equal_pointwise ks ks' m m' u u' = rw (deep_equal-object ks ks' m m') (to, from)
    where
      back :
          (length (member_keys m) == length (member_keys m')) ≡ true
          → equal_members m m' ≡ true
          → (k : String) → has_key k m' ≡ true
          → has_key k m ≡ true
      back l e k c =
          sym (contains-member_keys k m)
          ∙ Included-back _ _ (IsNodup-member_keys m u)
              (Included-of m m' λ j d. has_key_of_members j m m' e d) ((==_iff _ _).0 l) k
              (contains-member_keys k m' ∙ c)

      to :
          (length (member_keys m) == length (member_keys m') && equal_members m m') ≡ true
          → (k : String) → same_slot (value_at k m) (value_at k m') ≡ true
      to h k = let (l, e) = and-elim _ _ h in agree_at m m' k e (back l e k)

      from :
          ((k : String) → same_slot (value_at k m) (value_at k m') ≡ true)
          → (length (member_keys m) == length (member_keys m') && equal_members m m') ≡ true
      from h =
          rw ((==_iff _ _).1 (length_of_agree m m' u u' h))
            (equal_members_of m m' u λ k v e. rw e at (h k))
