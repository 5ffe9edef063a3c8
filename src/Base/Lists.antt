-- ===== src/Base/Lists.antt =====
-- Lists measured by native numbers, and membership of texts as a test.
use Prim.Native.Nat.{ℕ, suc, ◌+◌}
use Prim.Native.String.{String}
use mathlib.Core.Path.{◌≡◌, refl}
use mathlib.Core.Bool.{Bool, false, ◌||◌}
use mathlib.Core.List.{List, [], ◌∷◌, ◌++◌}
use native.Mathlib.Omega.{arith}
use homer_cli.Base.Tests.{if◌then◌else◌}
use homer_cli.Base.Texts.{str_eq, str_eq_iff, insert_sorted, sort_strings}

module _ {ℓ} {A : Type ℓ} where
  abbrev pub length : List A → ℕ
  length [] = 0
  length (x ∷ xs) = suc (length xs)

  pub length-append : (xs ys : List A) → length (xs ++ ys) ≡ length xs + length ys
  length-append [] ys = omega arith
  length-append (x ∷ xs) ys = omega (arith, length-append xs ys)

-- a Go `map[string]struct{}` that is only tested and added to
unfoldable pub contains : String → List String → Bool
contains s [] = false
contains s (t ∷ ts) = str_eq t s || contains s ts

pub contains-append :
    (s : String) (xs ys : List String) → contains s (xs ++ ys) ≡ (contains s xs || contains s ys)
unfolding contains
contains-append s [] ys = refl
contains-append s (x ∷ xs) ys = ground (arith, contains-append s xs ys)

-- The loop that adds each text of a list that `seen` does not have yet; `acc` is both `seen` and
-- the list that grows.
unfoldable pub append_new : List String → List String → List String
unfolding contains
append_new acc [] = acc
append_new acc (k ∷ ks) = append_new (if contains k acc then acc else acc ++ k ∷ []) ks

pub contains-append_new :
    (j : String) (acc ks : List String)
    → contains j (append_new acc ks) ≡ (contains j acc || contains j ks)
unfolding append_new contains
contains-append_new j acc [] = ground arith
contains-append_new j acc (k ∷ ks) = ground (
  arith,
  contains-append_new j (if contains k acc then acc else acc ++ k ∷ []) ks,
  contains-append j acc (k ∷ []),
  str_eq_iff k j,
)

pub contains-insert_sorted :
    (j s : String) (ss : List String)
    → contains j (insert_sorted s ss) ≡ (str_eq s j || contains j ss)
unfolding contains insert_sorted
contains-insert_sorted j s [] = refl
contains-insert_sorted j s (t ∷ ts) = ground (arith, contains-insert_sorted j s ts)

pub contains-sort_strings :
    (j : String) (ss : List String) → contains j (sort_strings ss) ≡ contains j ss
unfolding contains sort_strings
contains-sort_strings j [] = refl
contains-sort_strings j (s ∷ ss) =
    ground (arith, contains-insert_sorted j s (sort_strings ss), contains-sort_strings j ss)

-- Every element of a list has the property.
abbrev pub All {ℓ κ} : {A : Type ℓ} → (A → Type κ) → List A → Type κ
All P [] = Unit
All P (x ∷ xs) = P x × All P xs

pub All-append {ℓ κ} :
    {A : Type ℓ} (P : A → Type κ) (xs : List A) (x : A) → All P xs → P x → All P (xs ++ x ∷ [])
All-append P [] x h p = (p, tt)
All-append P (y ∷ xs) x (q, h) p = (q, All-append P xs x h p)
