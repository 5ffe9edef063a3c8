-- ===== src/Json/RoundTrip/Objects.antt =====
-- A written object is read back, if its values are.
use homer_cli.Base.{
  ℕ, zero, suc, ◌+◌, ◌<◌, ◌≤◌, ◌≡◌, refl, ◌∙◌, String, List, [], ◌∷◌, ◌++◌, arith, ◌==◌, false,
  length, length-append, append_assoc, All,
}
use homer_cli.Base.Bytes.{Bytes, bytes_of, text_of, text_of-bytes_of}
use homer_cli.Base.Dict.{Dict, lookup}
use homer_cli.Json.{Value, object, Members, Object, value_at}
use homer_cli.Json.Rebuild.{empty, value_or_null}
use homer_cli.Json.Parser.{
  Reader, unclosed_object, unterminated_object, read, skip_whitespace, last, again, next,
  add_member, parse_key, parse_string, parse_members, parse_object, parse_with, parse_value,
}
use homer_cli.Json.Printer.{write_string, write_lines, write_object, comma, indent, or_null}
use homer_cli.Json.RoundTrip.Numbers.{ends}
use homer_cli.Json.RoundTrip.Settled.{IsString}
use homer_cli.Json.RoundTrip.Layout.{
  Opens, skip_whitespace-space, skip_whitespace-indented, next-last, next-again,
}
use homer_cli.Json.RoundTrip.Scalars.{IsRead}
use homer_cli.Json.RoundTrip.Strings.{parse_string-write_string}

-- What the loop of `parseObject` makes of members with these keys.
unfoldable pub added : List String → Members → Object → Object
added [] m out = out
added (k ∷ ks) m out = added ks m (add_member k (value_or_null (value_at k m)) out)

parse_members-last :
    (value : Reader) (k : ℕ) (out : Object) (bs : Bytes) (name : String)
    {key at_value at behind rest : Bytes} {v : Value}
    → parse_key bs ≡ read key at_value
    → text_of key ≡ name
    → skip_whitespace at_value ≡ at
    → value at ≡ read v behind
    → next b'}' unclosed_object unterminated_object behind ≡ last rest
    → let out' = add_member name v out in
      parse_members value (suc k) out bs ≡ read (object out'.keys out'.members) rest
unfolding parse_members
parse_members-last value k out bs name p t s e n = ground arith

parse_members-again :
    (value : Reader) (k : ℕ) (out : Object) (bs : Bytes) (name : String)
    {key at_value at behind next_at : Bytes} {v : Value}
    → parse_key bs ≡ read key at_value
    → text_of key ≡ name
    → skip_whitespace at_value ≡ at
    → value at ≡ read v behind
    → next b'}' unclosed_object unterminated_object behind ≡ again next_at
    → parse_members value (suc k) out bs ≡ parse_members value k (add_member name v out) next_at
unfolding parse_members
parse_members-again value k out bs name p t s e n = ground arith

parse_key-quote :
    (key bs rest : Bytes)
    → parse_string (b'"' ∷ bs) ≡ read key (b':' ∷ rest)
    → parse_key (b'"' ∷ bs) ≡ read key rest
unfolding parse_key skip_whitespace
parse_key-quote key bs rest e = ground arith

parse_key-write_string :
    (k : String) (rest : Bytes)
    → IsString k
    → parse_key (write_string (bytes_of k) ++ (b':' ∷ rest)) ≡ read (bytes_of k) rest
unfolding write_string
parse_key-write_string k rest (b, t) =
    parse_key-quote (bytes_of k) _ rest (parse_string-write_string (bytes_of k) (b':' ∷ rest) t)

-- Bytes that begin with a member.
abbrev OpensMember : Bytes → Type 0
OpensMember [] = ⊥
OpensMember (c ∷ bs) = (c == b'}') ≡ false

parse_object_of :
    (value : Reader) (k : ℕ) (bs at : Bytes) {rest : Bytes} {v : Value}
    → OpensMember at
    → skip_whitespace bs ≡ at
    → parse_members value k empty at ≡ read v rest
    → parse_object value k bs ≡ read v rest
unfolding parse_object
parse_object_of value k bs [] o s e = absurd o
parse_object_of value k bs (c ∷ at) o s e = rw (s, o, e)

-- A key is a string, and its value is read back as it is written.
abbrev pub IsEntry : Dict Bytes → Members → String → Type 0
IsEntry written m k =
    IsString k × IsRead (or_null (lookup k written)) (value_or_null (value_at k m))

module _ (written : Dict Bytes) (m : Members) (d : ℕ) where
  -- A line without its indentation, and the lines behind it.
  line : String → List String → Bytes → Bytes
  line k ks tail =
      write_string (bytes_of k)
      ++ (b':'
          ∷ b' '
          ∷ (or_null (lookup k written) ++ (comma ks ++ 10 ∷ (write_lines d ks written ++ tail))))

  entries-append :
      (k : String) (ks : List String) (tail : Bytes)
      → write_lines d (k ∷ ks) written ++ tail ≡ indent d ++ line k ks tail
  unfolding write_lines line
  entries-append k ks tail = simp append_assoc

  length-entries :
      (k : String) (ks : List String)
      → length (or_null (lookup k written)) + length (write_lines d ks written)
        < length (write_lines d (k ∷ ks) written)
  unfolding write_lines
  length-entries k ks =
      let value = or_null (lookup k written) in
      let behind = comma ks ++ 10 ∷ write_lines d ks written in
      let quoted = write_string (bytes_of k) in
      omega (
        arith,
        length-append (indent d) (quoted ++ (b':' ∷ b' ' ∷ (value ++ behind))),
        length-append quoted (b':' ∷ b' ' ∷ (value ++ behind)),
        length-append value behind,
        length-append (comma ks) (10 ∷ write_lines d ks written),
      )

  next_line :
      (k : String) (ks : List String) (tail : Bytes)
      → next b'}' unclosed_object unterminated_object
          (b',' ∷ 10 ∷ (write_lines d (k ∷ ks) written ++ tail))
        ≡ again (line k ks tail)
  unfolding line
  next_line k ks tail = rw (entries-append k ks tail) (
      next-again b'}' unclosed_object unterminated_object d (write_string (bytes_of k)) _ refl
        (unfold write_string in (refl, refl)))

  lines_end :
      (e : ℕ) (rest : Bytes)
      → next b'}' unclosed_object unterminated_object
          (10 ∷ (write_lines d [] written ++ (indent e ++ b'}' ∷ rest)))
        ≡ last rest
  unfolding write_lines
  lines_end e rest = next-last b'}' unclosed_object unterminated_object e rest refl

  parse_members-lines :
      (k : String) (ks : List String) (e fuel n : ℕ) (out : Object) (rest : Bytes)
      → All (IsEntry written m) (k ∷ ks)
      → length (write_lines d (k ∷ ks) written) ≤ fuel
      → length (write_lines d ks written) < n
      → let out' = added (k ∷ ks) m out in
        parse_members (parse_value fuel) n out (line k ks (indent e ++ b'}' ∷ rest))
        ≡ read (object out'.keys out'.members) rest
  unfolding added line ends
  parse_members-lines k ks e fuel zero out rest h f g = absurd (omega arith)
  parse_members-lines k [] e fuel (suc n) out rest ((s, (o, r)), u) f g =
      let size = length-entries k [] in
      parse_members-last (parse_value fuel) n out _ k (parse_key-write_string k _ s)
        (text_of-bytes_of k s.0) (skip_whitespace-space (or_null (lookup k written)) _ o)
        (r fuel _ (omega arith) refl) (lines_end e rest)
  parse_members-lines k (j ∷ ks) e fuel (suc n) out rest ((s, (o, r)), u) f g =
      let size = length-entries k (j ∷ ks) in
      let more = length-entries j ks in
      parse_members-again (parse_value fuel) n out _ k (parse_key-write_string k _ s)
        (text_of-bytes_of k s.0) (skip_whitespace-space (or_null (lookup k written)) _ o)
        (r fuel _ (omega arith) refl) (next_line j ks (indent e ++ b'}' ∷ rest))
      ∙ parse_members-lines j ks e fuel n (add_member k (value_or_null (value_at k m)) out) rest u
          (omega arith) (omega arith)

  line-OpensMember : (k : String) (ks : List String) (tail : Bytes) → OpensMember (line k ks tail)
  unfolding line write_string
  line-OpensMember k ks tail = refl

  skip_whitespace-lines :
      (k : String) (ks : List String) (tail : Bytes)
      → skip_whitespace (10 ∷ (write_lines d (k ∷ ks) written ++ tail)) ≡ line k ks tail
  unfolding skip_whitespace line
  skip_whitespace-lines k ks tail = rw (entries-append k ks tail) (
      skip_whitespace-indented d (write_string (bytes_of k)) _
        (unfold write_string in (refl, refl)))

  object_body :
      (k : String) (ks : List String) (e fuel : ℕ) (rest : Bytes)
      → All (IsEntry written m) (k ∷ ks)
      → length (write_lines d (k ∷ ks) written) < fuel
      → let out = added (k ∷ ks) m empty in
        parse_object
          (parse_value fuel)
          fuel
          (10 ∷ (write_lines d (k ∷ ks) written ++ (indent e ++ b'}' ∷ rest)))
        ≡ read (object out.keys out.members) rest
  object_body k ks e fuel rest h f =
      let size = length-entries k ks in
      parse_object_of (parse_value fuel) fuel _ (line k ks (indent e ++ b'}' ∷ rest))
        (line-OpensMember k ks (indent e ++ b'}' ∷ rest))
        (skip_whitespace-lines k ks (indent e ++ b'}' ∷ rest))
        (parse_members-lines k ks e fuel fuel empty rest h (omega arith) (omega arith))

object_text-Opens :
    (e : ℕ) (ks : List String) (written : Dict Bytes) → Opens (write_object e ks written)
unfolding write_object
object_text-Opens e [] written = (refl, refl)
object_text-Opens e (k ∷ ks) written = (refl, refl)

object_reads :
    (e : ℕ) (ks : List String) (written : Dict Bytes) (m : Members) (fuel : ℕ) (rest : Bytes)
    → All (IsEntry written m) ks
    → length (write_object e ks written) < fuel
    → let out = added ks m empty in
      parse_value fuel (write_object e ks written ++ rest) ≡ read (object out.keys out.members) rest
unfolding write_object parse_value parse_with
object_reads e ks written m zero rest h f = absurd (omega arith)
object_reads e [] written m (suc fuel) rest h f = unfold parse_object skip_whitespace added in refl
object_reads e (k ∷ ks) written m (suc fuel) rest h f =
    rw (append_assoc (write_lines (suc e) (k ∷ ks) written), append_assoc (indent e))
      (object_body written m (suc e) k ks e fuel rest h (
        omega
          (arith, length-append (write_lines (suc e) (k ∷ ks) written) (indent e ++ b'}' ∷ []))))

-- A written object is read back with its written keys.
pub object-IsRead :
    (e : ℕ) (ks : List String) (written : Dict Bytes) (m : Members)
    → All (IsEntry written m) ks
    → let out = added ks m empty in IsRead (write_object e ks written) (object out.keys out.members)
object-IsRead e ks written m h =
    (object_text-Opens e ks written, λ fuel rest f x. object_reads e ks written m fuel rest h f)
