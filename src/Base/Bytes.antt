-- ===== src/Base/Bytes.antt =====
-- Go's strings as sequences of bytes, and as the texts that the other modules use: each character of
-- such a text is one byte.
use Prim.Native.String.{String, [] as blank, ◌∷◌ as ◌∷ₜ◌}
use Prim.Native.Char.{Char, char, code, nul, IsScalar}
use Prim.Native.Nat.{ℕ, ◌<◌}
use mathlib.Core.Path.{◌≡◌, refl}
use mathlib.Core.Bool.{Bool, true, false}
use mathlib.Core.List.{List, [], ◌∷◌}
use native.Mathlib.Omega.{arith}
use text.Mathlib.TextEquality.{Char-path}
use homer_cli.Base.Tests.{ltb}
use homer_cli.Base.Lists.{All}

abbrev pub Bytes : Type 0
Bytes = List ℕ

scalar_of : (n : ℕ) → ltb n 55296 ≡ true → IsScalar n
scalar_of n h = ground arith

char_if : (n : ℕ) (small : Bool) → (small ≡ true → IsScalar n) → Char
char_if n true h = char n (h refl)
char_if n false h = nul

unfoldable pub char_of : ℕ → Char
unfolding char_if scalar_of
char_of n = char_if n (ltb n 55296) (scalar_of n)

-- string(bytes)
unfoldable pub text_of : Bytes → String
unfolding char_of
text_of [] = blank
text_of (b ∷ bs) = char_of b ∷ₜ text_of bs

-- []byte(text)
unfoldable pub bytes_of : String → Bytes
bytes_of blank = []
bytes_of (c ∷ₜ s) = code c ∷ bytes_of s

abbrev pub IsByte : ℕ → Type 0
IsByte b = b < 256

code-char_if :
    (n : ℕ) (small : Bool) (h : small ≡ true → IsScalar n)
    → small ≡ true
    → code (char_if n small h) ≡ n
unfolding char_if
code-char_if n true h e = refl
code-char_if n false h e = cc

char_of-code : (c : Char) → IsByte (code c) → char_of (code c) ≡ c
unfolding char_of
char_of-code c h =
    Char-path _ c (code-char_if (code c) (ltb (code c) 55296) (scalar_of (code c)) (ground arith))

-- Bytes stay themselves as a text.
pub text_of-bytes_of : (s : String) → All IsByte (bytes_of s) → text_of (bytes_of s) ≡ s
unfolding text_of bytes_of
text_of-bytes_of blank h = refl
text_of-bytes_of (c ∷ₜ s) h = rw (char_of-code c h.0, text_of-bytes_of s h.1)
