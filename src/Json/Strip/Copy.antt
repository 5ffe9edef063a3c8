-- ===== src/Json/Strip/Copy.antt =====
-- The copies that the strip makes.
use homer_cli.Base.{
  String, ◌≡◌, refl, ◌∙◌, ◌↔◌, true, false, Option, none, some, List, Bool-ext, Bool-cases,
  Option-cases, inl, inr, str_eq, and-intro,
}
use mathlib.Core.Path.{subst}
use homer_cli.Json.{
  Value, null, bool, number, text, array, object, Items, nil, item, Members, end, member, Object,
  value_at,
}
use homer_cli.Json.Numbers.{FloatParser}
use homer_cli.Json.Keys.{has_key, is_some}
use homer_cli.Json.Equal.{deep_equal, equal_items, same_slot}
use homer_cli.Json.Pointwise.{IsJson, AreJson, IsMap, IsJson-value_at, deep_equal_pointwise}
use homer_cli.Json.Equivalence.{deep_equal_refl, deep_equal_sym, deep_equal_trans}
use homer_cli.Json.Rebuild.{rebuilt, then_keep, value_at-rebuilt, IsMap-rebuilt}
use homer_cli.Json.Strip.{keep_all, as_value, copy_value, copy_items, copy_members}

unfoldable pub mapped_slot : (Value → Value) → Option Value → Option Value
mapped_slot f none = none
mapped_slot f (some v) = some (f v)

pub value_at-copy_members :
    (k : String) (m : Members) → value_at k (copy_members m) ≡ mapped_slot copy_value (value_at k m)
unfolding copy_members value_at mapped_slot
value_at-copy_members k end = refl
value_at-copy_members k (member j v m) = elim (Bool-cases (str_eq j k)) [
  | inl e ↦ rw (copy_members, e) refl
  | inr e ↦ rw (copy_members, e) (value_at-copy_members k m)
]

module _ ⦃fl : FloatParser⦄ where
  -- A copy is a value that equals the original.
  abbrev IsCopy : Value → Value → Type 0
  IsCopy w v = IsJson w × (deep_equal w v ≡ true)

  has_key-copy_members : (k : String) (m : Members) → has_key k (copy_members m) ≡ has_key k m
  unfolding has_key is_some mapped_slot
  has_key-copy_members k m = elim (Option-cases (value_at k m)) [
    | inl e ↦ rw (value_at-copy_members, e) refl
    | inr (v, e) ↦ rw (value_at-copy_members, e) refl
  ]

  same_slot-copied :
      (o : Option Value)
      → ((v : Value) → o ≡ some v → deep_equal (copy_value v) v ≡ true)
      → same_slot (mapped_slot copy_value o) o ≡ true
  unfolding mapped_slot same_slot
  same_slot-copied none h = refl
  same_slot-copied (some v) h = h v refl

  then_keep-all : (k : String) (o : Option Value) → then_keep (keep_all k) o ≡ o
  unfolding then_keep
  then_keep-all k none = refl
  then_keep-all k (some v) = refl

  pub agree :
      (o p : Object)
      → IsMap o.members
      → IsMap p.members
      → (deep_equal (as_value o) (as_value p) ≡ true)
        ↔ ((k : String) → same_slot (value_at k o.members) (value_at k p.members) ≡ true)
  agree o p = deep_equal_pointwise o.keys p.keys o.members p.members

  -- A rebuilt copy of the members has no key twice.
  pub IsMap-kept_copy :
      (keep : String → Value → Option Value) (ks : List String) (m : Members)
      → ((k : String) (v w : Value) → keep k v ≡ some w → v ≡ w)
      → IsMap (copy_members m)
      → IsMap (rebuilt keep (record { keys = ks; members = copy_members m })).members
  IsMap-kept_copy keep ks m same = IsMap-rebuilt keep _ λ k v w h e. subst IsJson (same k v w e) h

  mutual
    unfolding copy_value IsJson deep_equal value_at

    copy_value-IsCopy : (v : Value) → IsJson v → IsCopy (copy_value v) v
    copy_value-IsCopy null h = (h, refl)
    copy_value-IsCopy (bool true) h = (h, refl)
    copy_value-IsCopy (bool false) h = (h, refl)
    copy_value-IsCopy (number s) h = (h, deep_equal_refl (number s) h)
    copy_value-IsCopy (text s) h = (h, deep_equal_refl (text s) h)
    copy_value-IsCopy (array xs) h = copy_items-AreCopies xs h
    copy_value-IsCopy (object ks m) h =
        let (i, e) = copy_members-AreCopies m h in
        let u = IsMap-kept_copy keep_all ks m (λ k v w e. cc) i in
        (
          u,
          (agree (rebuilt keep_all (record { keys = ks; members = copy_members m }))
                (record { keys = ks; members = m }) u h).1
              λ k.
                rw (value_at-rebuilt, then_keep-all, value_at-copy_members)
                  (same_slot-copied (value_at k m) (e k)),
        )

    copy_items-AreCopies :
        (xs : Items)
        → AreJson xs
        → AreJson (copy_items xs) × (equal_items (copy_items xs) xs ≡ true)
    copy_items-AreCopies nil h = (tt, refl)
    copy_items-AreCopies (item v xs) h =
        let (i, e) = copy_value-IsCopy v h.0 in
        let (is, es) = copy_items-AreCopies xs h.1 in ((i, is), and-intro e es)

    pub copy_members-AreCopies :
        (m : Members)
        → IsMap m
        → IsMap (copy_members m)
          × ((k : String) (v : Value) → value_at k m ≡ some v → deep_equal (copy_value v) v ≡ true)
    copy_members-AreCopies end h = (tt, λ k v e. cc)
    copy_members-AreCopies (member j w m) h =
        let (i, e) = copy_value-IsCopy w h.1 in
        let (is, es) = copy_members-AreCopies m h.2 in
        (
          (has_key-copy_members j m ∙ h.0, i, is),
          λ k v at. elim (Bool-cases (str_eq j k)) [
            | inl same ↦ let p : w ≡ v = cc in subst (λ x. deep_equal (copy_value x) x ≡ true) p e
            | inr other ↦ es k v (rw other at at)
          ],
        )

  deep_equal-copies :
      (v w : Value)
      → IsJson v
      → IsJson w
      → deep_equal (copy_value v) (copy_value w) ≡ deep_equal v w
  deep_equal-copies v w h k =
      let (hv, v_same) = copy_value-IsCopy v h in
      let (hw, w_same) = copy_value-IsCopy w k in
      Bool-ext _ _
        (λ e.
          deep_equal_trans v (copy_value v) w h hv k (deep_equal_sym _ _ hv h v_same)
            (deep_equal_trans (copy_value v) (copy_value w) w hv hw k e w_same))
        (λ e.
          deep_equal_trans (copy_value v) v (copy_value w) hv h hw v_same
            (deep_equal_trans v w (copy_value w) h k hw e (deep_equal_sym _ _ hw k w_same)))

  same_slot-copies :
      (o p : Option Value)
      → ((v : Value) → o ≡ some v → IsJson v)
      → ((v : Value) → p ≡ some v → IsJson v)
      → same_slot (mapped_slot copy_value o) (mapped_slot copy_value p) ≡ same_slot o p
  unfolding mapped_slot same_slot
  same_slot-copies none none h g = refl
  same_slot-copies none (some w) h g = refl
  same_slot-copies (some v) none h g = refl
  same_slot-copies (some v) (some w) h g = deep_equal-copies v w (h v refl) (g w refl)

  pub copies_agree :
      (k : String) (m n : Members)
      → IsMap m
      → IsMap n
      → same_slot (mapped_slot copy_value (value_at k m)) (mapped_slot copy_value (value_at k n))
        ≡ same_slot (value_at k m) (value_at k n)
  copies_agree k m n hm hn =
      same_slot-copies (value_at k m) (value_at k n) (λ v e. IsJson-value_at k m hm e)
        (λ v e. IsJson-value_at k n hn e)
