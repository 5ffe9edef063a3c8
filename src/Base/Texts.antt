-- ===== src/Base/Texts.antt =====
-- Texts that the program only compares, joins and sorts.
use Prim.Native.String.{String, compare, ◌++◌, [] as blank, ◌∷◌ as ◌∷ₜ◌}
use Prim.Native.Nat.{Ordering}
use mathlib.Core.Path.{◌≡◌, refl}
use mathlib.Core.Logic.{◌↔◌}
use mathlib.Core.Bool.{Bool, true, ◌||◌}
use mathlib.Core.List.{List, [], ◌∷◌}
use text.Mathlib.Text.{◌==◌ as text_eq, is_le, is_eq, starts_with}
use text.Mathlib.TextEquality.{eq_iff}
use text.Mathlib.TextPositions.{eq_refl}
use homer_cli.Base.Tests.{if◌then◌else◌}

abbrev pub str_eq : String → String → Bool
str_eq s t = text_eq s t

abbrev pub str_leb : String → String → Bool
str_leb s t = is_le (compare s t)

pub str_eq_iff : (s t : String) → (str_eq s t ≡ true) ↔ (s ≡ t)
str_eq_iff = eq_iff

pub str_eq_refl : (s : String) → str_eq s s ≡ true
str_eq_refl = eq_refl

-- s + t of Go
infixl 65 ◌+++◌
abbrev pub ◌+++◌ : String → String → String
s +++ t = s ++ t

-- sort.Strings, as an insertion sort
unfoldable pub insert_sorted : String → List String → List String
insert_sorted s [] = s ∷ []
insert_sorted s (t ∷ ts) = if str_leb s t then s ∷ t ∷ ts else t ∷ insert_sorted s ts

unfoldable pub sort_strings : List String → List String
unfolding insert_sorted
sort_strings [] = []
sort_strings (s ∷ ss) = insert_sorted s (sort_strings ss)

-- strings.Contains(s, t)
unfoldable pub includes : String → String → Bool
includes blank t = starts_with blank t
includes (c ∷ₜ s) t = starts_with (c ∷ₜ s) t || includes s t

pub str_leb_refl : (s : String) → str_leb s s ≡ true
str_leb_refl s = equal (compare s s) (str_eq_refl s)
  where
    equal : (o : Ordering) → is_eq o ≡ true → is_le o ≡ true
    equal Ordering.lt e = refl
    equal Ordering.eq e = refl
    equal Ordering.gt e = cc
