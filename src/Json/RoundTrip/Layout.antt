-- ===== src/Json/RoundTrip/Layout.antt =====
-- The white space, commas and brackets between written values.
use homer_cli.Base.{ℕ, zero, suc, ◌≡◌, refl, ◌∙◌, false, [], ◌∷◌, ◌++◌, arith, ◌==◌}
use homer_cli.Base.Bytes.{Bytes}
use homer_cli.Json.Parser.{SyntaxError, skip_whitespace, is_space, last, again, next}
use homer_cli.Json.Printer.{indent}

-- Bytes that begin with neither white space nor a closing bracket.
abbrev pub Opens : Bytes → Type 0
Opens [] = ⊥
Opens (c ∷ bs) = (is_space c ≡ false) × ((c == b']') ≡ false)

pub skip_whitespace-Opens : (w rest : Bytes) → Opens w → skip_whitespace (w ++ rest) ≡ w ++ rest
unfolding skip_whitespace
skip_whitespace-Opens [] rest o = absurd o
skip_whitespace-Opens (c ∷ w) rest o = rw (o.0)

pub skip_whitespace-space :
    (w rest : Bytes) → Opens w → skip_whitespace (b' ' ∷ (w ++ rest)) ≡ w ++ rest
unfolding skip_whitespace
skip_whitespace-space w rest o = skip_whitespace-Opens w rest o

pub skip_whitespace-indent :
    (d : ℕ) (bs : Bytes) → skip_whitespace (indent d ++ bs) ≡ skip_whitespace bs
unfolding skip_whitespace indent
skip_whitespace-indent zero bs = refl
skip_whitespace-indent (suc d) bs = skip_whitespace-indent d bs

-- A written value behind its indentation.
pub skip_whitespace-indented :
    (d : ℕ) (w rest : Bytes) → Opens w → skip_whitespace (indent d ++ (w ++ rest)) ≡ w ++ rest
skip_whitespace-indented d w rest o =
    skip_whitespace-indent d (w ++ rest) ∙ skip_whitespace-Opens w rest o

-- The end of the last line of an array or an object.
pub next-last :
    (close : ℕ) (unclosed unterminated : SyntaxError) (d : ℕ) (rest : Bytes)
    → is_space close ≡ false
    → next close unclosed unterminated (10 ∷ (indent d ++ close ∷ rest)) ≡ last rest
unfolding next skip_whitespace
next-last close unclosed unterminated d rest s =
    rw (skip_whitespace-indent d (close ∷ rest)) (ground arith)

again_of :
    (close : ℕ) (unclosed unterminated : SyntaxError) (d : ℕ) (w bs rest : Bytes)
    → (b',' == close) ≡ false
    → Opens w
    → skip_whitespace bs ≡ w ++ rest
    → next close unclosed unterminated (b',' ∷ 10 ∷ bs) ≡ again (w ++ rest)
unfolding next skip_whitespace
again_of close unclosed unterminated d [] bs rest c o e = absurd o
again_of close unclosed unterminated d (x ∷ w) bs rest c o e = rw (c, e)

-- The end of any other line.
pub next-again :
    (close : ℕ) (unclosed unterminated : SyntaxError) (d : ℕ) (w rest : Bytes)
    → (b',' == close) ≡ false
    → Opens w
    → next close unclosed unterminated (b',' ∷ 10 ∷ (indent d ++ (w ++ rest))) ≡ again (w ++ rest)
next-again close unclosed unterminated d w rest c o =
    again_of close unclosed unterminated d w _ rest c o (skip_whitespace-indented d w rest o)
