-- ===== src/Base/Counting.antt =====
-- Lists of texts with no repetition, and counting by inclusion.
use homer_cli.Base.Tests.{if◌then◌else◌, Bool-cases}
use homer_cli.Base.Lists.{
  length, contains, append_new, contains-append, contains-insert_sorted, contains-sort_strings,
}
use homer_cli.Base.Texts.{str_eq, str_eq_iff, insert_sorted, sort_strings, str_leb}
use Prim.Native.Nat.{suc, ◌≤◌}
use Prim.Native.String.{String}
use mathlib.Core.Path.{◌≡◌, refl}
use mathlib.Core.Logic.{inl, inr}
use mathlib.Core.Bool.{true, false}
use mathlib.Core.List.{List, [], ◌∷◌, ◌++◌}
use native.Mathlib.Omega.{arith}

abbrev pub IsNodup : List String → Type 0
IsNodup [] = Unit {0}
IsNodup (x ∷ xs) = (contains x xs ≡ false) × IsNodup xs

-- Every text of the one is a text of the other.
abbrev pub Included : List String → List String → Type 0
Included xs ys = (k : String) → contains k xs ≡ true → contains k ys ≡ true

-- The list without the first occurrence of a text.
unfoldable pub drop_one : String → List String → List String
drop_one k [] = []
drop_one k (x ∷ xs) = if str_eq x k then xs else x ∷ drop_one k xs

pub length-drop_one :
    (k : String) (xs : List String)
    → contains k xs ≡ true
    → length xs ≡ suc (length (drop_one k xs))
unfolding contains drop_one
length-drop_one k [] h = ground arith
length-drop_one k (x ∷ xs) h = ground (arith, length-drop_one k xs)

contains-drop_one :
    (j k : String) (xs : List String)
    → str_eq k j ≡ false
    → contains j xs ≡ true
    → contains j (drop_one k xs) ≡ true
unfolding contains drop_one
contains-drop_one j k [] d h = h
contains-drop_one j k (x ∷ xs) d h =
    ground (arith, contains-drop_one j k xs, str_eq_iff x k, str_eq_iff x j, str_eq_iff k j)

pub length-le_of_Included :
    (xs ys : List String) → IsNodup xs → Included xs ys → length xs ≤ length ys
unfolding contains
length-le_of_Included [] ys n h = omega arith
length-le_of_Included (x ∷ xs) ys n h = omega (
  arith,
  length-drop_one x ys (h x (ground (arith, str_eq_iff x x))),
  length-le_of_Included xs (drop_one x ys) n.1
      λ k c. contains-drop_one k x ys (ground (arith, str_eq_iff x k)) (h k (ground arith)),
)

-- A list with no repetition that is included in another of its length has all its texts.
pub Included-back :
    (xs ys : List String) → IsNodup xs → Included xs ys → length xs ≡ length ys → Included ys xs
unfolding contains
Included-back xs ys n h same k c = elim (Bool-cases (contains k xs)) [
  | inl there ↦ there
  | inr missing ↦ absurd (
      omega (
        arith,
        length-le_of_Included (k ∷ xs) ys (missing, n)
            λ j d. ground (arith, h j, str_eq_iff k j, c),
      ))
]

pub IsNodup-append_one :
    (k : String) (xs : List String) → contains k xs ≡ false → IsNodup xs → IsNodup (xs ++ k ∷ [])
unfolding contains
IsNodup-append_one k [] h n = (refl, tt)
IsNodup-append_one k (x ∷ xs) h n = (
  ground (arith, contains-append x xs (k ∷ []), str_eq_iff x k, str_eq_iff k x, n.0),
  IsNodup-append_one k xs (ground arith) n.1,
)

pub IsNodup-append_new : (acc ks : List String) → IsNodup acc → IsNodup (append_new acc ks)
unfolding append_new
IsNodup-append_new acc [] n = n
IsNodup-append_new acc (k ∷ ks) n = elim (Bool-cases (contains k acc)) [
  | inl old ↦ rw old (IsNodup-append_new acc ks n)
  | inr new ↦ rw new (IsNodup-append_new (acc ++ k ∷ []) ks (IsNodup-append_one k acc new n))
]

IsNodup-insert_sorted :
    (s : String) (ss : List String)
    → contains s ss ≡ false
    → IsNodup ss
    → IsNodup (insert_sorted s ss)
unfolding contains insert_sorted
IsNodup-insert_sorted s [] h n = (refl, tt)
IsNodup-insert_sorted s (t ∷ ts) h n = elim (Bool-cases (str_leb s t)) [
  | inl first ↦ rw first (h, n)
  | inr later ↦ rw later (
    ground (arith, contains-insert_sorted t s ts, str_eq_iff s t, str_eq_iff t s, n.0),
    IsNodup-insert_sorted s ts (ground arith) n.1,
  )
]

pub IsNodup-sort_strings : (ss : List String) → IsNodup ss → IsNodup (sort_strings ss)
unfolding sort_strings
IsNodup-sort_strings [] n = tt
IsNodup-sort_strings (s ∷ ss) n =
    IsNodup-insert_sorted s (sort_strings ss) (rw (contains-sort_strings s ss) n.0)
      (IsNodup-sort_strings ss n.1)
