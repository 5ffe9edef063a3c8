-- ===== src/Json/Equivalence.antt =====
-- Reflexivity, symmetry and transitivity of `DeepEqual`.
use homer_cli.Base.{
  String, ◌≡◌, refl, true, false, Option, none, some, arith, str_eq, str_eq_iff, str_eq_refl,
  Bool-cases, inl, inr, and-elim, and-intro,
}
use mathlib.Core.Path.{subst}
use homer_cli.Json.{
  Value, null, bool, number, text, array, object, Items, nil, item, Members, end, member, value_at,
}
use homer_cli.Json.Numbers.{FloatParser, equal_numbers_refl, equal_numbers_sym, equal_numbers_trans}
use homer_cli.Json.Equal.{deep_equal, equal_items, same_slot}
use homer_cli.Json.Pointwise.{IsJson, AreJson, IsMap, deep_equal_pointwise, IsJson-value_at}

module _ ⦃fl : FloatParser⦄ where
  same_slot_refl_of :
      (o : Option Value) → ((v : Value) → o ≡ some v → deep_equal v v ≡ true) → same_slot o o ≡ true
  unfolding same_slot
  same_slot_refl_of none h = refl
  same_slot_refl_of (some v) h = h v refl

  mutual
    unfolding deep_equal IsJson value_at

    refl_value : (v : Value) → IsJson v → deep_equal v v ≡ true
    refl_value null h = refl
    refl_value (bool true) h = refl
    refl_value (bool false) h = refl
    refl_value (number s) h = equal_numbers_refl s h
    refl_value (text s) h = str_eq_refl s
    refl_value (array xs) h = refl_items xs h
    refl_value (object ks m) h =
        (deep_equal_pointwise ks ks m m h h).1
          λ k. same_slot_refl_of (value_at k m) (refl_members m h k)

    refl_items : (xs : Items) → AreJson xs → equal_items xs xs ≡ true
    refl_items nil h = refl
    refl_items (item v xs) h = and-intro (refl_value v h.0) (refl_items xs h.1)

    refl_members :
        (m : Members)
        → IsMap m
        → (k : String) (v : Value) → value_at k m ≡ some v
        → deep_equal v v ≡ true
    refl_members end h k v e = cc
    refl_members (member j w m) h k v e = elim (Bool-cases (str_eq j k)) [
      | inl same ↦ let p : w ≡ v = cc in subst (λ x. deep_equal x x ≡ true) p (refl_value w h.1)
      | inr other ↦ refl_members m h.2 k v (rw other at e)
    ]

  -- Every JSON value equals itself.
  pub deep_equal_refl : (v : Value) → IsJson v → deep_equal v v ≡ true
  deep_equal_refl = refl_value

  same_slot_sym_of :
      (o p : Option Value)
      → ((v w : Value) → o ≡ some v → p ≡ some w → deep_equal v w ≡ true → deep_equal w v ≡ true)
      → same_slot o p ≡ true
      → same_slot p o ≡ true
  unfolding same_slot
  same_slot_sym_of none none h e = refl
  same_slot_sym_of (some v) none h e = e
  same_slot_sym_of none (some w) h e = e
  same_slot_sym_of (some v) (some w) h e = h v w refl refl e

  mutual
    unfolding deep_equal IsJson value_at

    sym_value : (v w : Value) → IsJson v → IsJson w → deep_equal v w ≡ true → deep_equal w v ≡ true
    sym_value null null h h' e = refl
    sym_value (bool a) (bool b) h h' e = ground arith
    sym_value (number s) (number t) h h' e = equal_numbers_sym s t e
    sym_value (text s) (text t) h h' e = ground (arith, str_eq_iff s t, str_eq_iff t s)
    sym_value (array xs) (array ys) h h' e = sym_items xs ys h h' e
    sym_value (object ks m) (object ks' m') h h' e = (deep_equal_pointwise ks' ks m' m h' h).1 λ k.
        same_slot_sym_of (value_at k m) (value_at k m')
          (λ v w p q. sym_members m h k v p w (IsJson-value_at k m' h' q))
          ((deep_equal_pointwise ks ks' m m' h h').0 e k)
    sym_value _ _ h h' e = cc

    sym_items :
        (xs ys : Items)
        → AreJson xs
        → AreJson ys
        → equal_items xs ys ≡ true
        → equal_items ys xs ≡ true
    sym_items nil nil h h' e = refl
    sym_items (item v xs) (item w ys) h h' e =
        let (a, b) = and-elim _ _ e in
        and-intro (sym_value v w h.0 h'.0 a) (sym_items xs ys h.1 h'.1 b)
    sym_items _ _ h h' e = cc

    sym_members :
        (m : Members)
        → IsMap m
        → (k : String) (v : Value) → value_at k m ≡ some v
        → (w : Value) → IsJson w
        → deep_equal v w ≡ true
        → deep_equal w v ≡ true
    sym_members end h k v e w hw d = cc
    sym_members (member j x m) h k v e w hw d = elim (Bool-cases (str_eq j k)) [
      | inl same ↦
          let p : x ≡ v = cc in
          subst (λ y. deep_equal y w ≡ true → deep_equal w y ≡ true) p (sym_value x w h.1 hw) d
      | inr other ↦ sym_members m h.2 k v (rw other at e) w hw d
    ]

  -- Equality of JSON values is symmetric.
  pub deep_equal_sym :
      (v w : Value) → IsJson v → IsJson w → deep_equal v w ≡ true → deep_equal w v ≡ true
  deep_equal_sym = sym_value

  same_slot_trans_of :
      (o p q : Option Value)
      → ((u v w : Value)
          → o ≡ some u
          → p ≡ some v
          → q ≡ some w
          → deep_equal u v ≡ true
          → deep_equal v w ≡ true
          → deep_equal u w ≡ true)
      → same_slot o p ≡ true
      → same_slot p q ≡ true
      → same_slot o q ≡ true
  unfolding same_slot
  same_slot_trans_of none none q h d e = e
  same_slot_trans_of (some u) (some v) (some w) h d e = h u v w refl refl refl d e
  same_slot_trans_of none (some v) q h d e = cc
  same_slot_trans_of (some u) none q h d e = cc
  same_slot_trans_of (some u) (some v) none h d e = cc

  mutual
    unfolding deep_equal IsJson value_at

    trans_value :
        (u v w : Value)
        → IsJson u
        → IsJson v
        → IsJson w
        → deep_equal u v ≡ true
        → deep_equal v w ≡ true
        → deep_equal u w ≡ true
    trans_value null null w hu hv hw d e = e
    trans_value (bool a) (bool b) (bool c) hu hv hw d e = ground arith
    trans_value (number r) (number s) (number t) hu hv hw d e = equal_numbers_trans r s t d e
    trans_value (text r) (text s) (text t) hu hv hw d e =
        ground (arith, str_eq_iff r s, str_eq_iff s t, str_eq_iff r t)
    trans_value (array xs) (array ys) (array zs) hu hv hw d e = trans_items xs ys zs hu hv hw d e
    trans_value (object ks m) (object ks' m') (object ks'' m'') hu hv hw d e =
        (deep_equal_pointwise ks ks'' m m'' hu hw).1 λ k.
          same_slot_trans_of (value_at k m) (value_at k m') (value_at k m'')
            (λ u v w p q r.
              trans_members m hu k u p v w (IsJson-value_at k m' hv q) (IsJson-value_at k m'' hw r))
            ((deep_equal_pointwise ks ks' m m' hu hv).0 d k)
            ((deep_equal_pointwise ks' ks'' m' m'' hv hw).0 e k)
    trans_value _ _ _ hu hv hw d e = cc

    trans_items :
        (xs ys zs : Items)
        → AreJson xs
        → AreJson ys
        → AreJson zs
        → equal_items xs ys ≡ true
        → equal_items ys zs ≡ true
        → equal_items xs zs ≡ true
    trans_items nil nil nil hu hv hw d e = refl
    trans_items (item u xs) (item v ys) (item w zs) hu hv hw d e =
        let (a, b) = and-elim _ _ d in
        let (a', b') = and-elim _ _ e in
        and-intro (trans_value u v w hu.0 hv.0 hw.0 a a') (trans_items xs ys zs hu.1 hv.1 hw.1 b b')
    trans_items _ _ _ hu hv hw d e = cc

    trans_members :
        (m : Members)
        → IsMap m
        → (k : String) (u : Value) → value_at k m ≡ some u
        → (v w : Value) → IsJson v
        → IsJson w
        → deep_equal u v ≡ true
        → deep_equal v w ≡ true
        → deep_equal u w ≡ true
    trans_members end h k u p v w hv hw d e = cc
    trans_members (member j x m) h k u p v w hv hw d e = elim (Bool-cases (str_eq j k)) [
      | inl same ↦
          let q : x ≡ u = cc in
          subst (λ y. deep_equal y v ≡ true → deep_equal v w ≡ true → deep_equal y w ≡ true) q
            (trans_value x v w h.1 hv hw) d e
      | inr other ↦ trans_members m h.2 k u (rw other at p) v w hv hw d e
    ]

  -- Equality of JSON values is transitive.
  pub deep_equal_trans :
      (u v w : Value)
      → IsJson u
      → IsJson v
      → IsJson w
      → deep_equal u v ≡ true
      → deep_equal v w ≡ true
      → deep_equal u w ≡ true
  deep_equal_trans = trans_value
