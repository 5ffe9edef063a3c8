-- ===== src/Json/Printer/Values.antt =====
-- `writeValue`, `writeObject`, `writeArray` and `Serialize` of internal/orderedjson/orderedjson.go.
use homer_cli.Base.{
  ℕ, zero, suc, String, Bool, true, false, Option, none, some, List, [], ◌∷◌, ◌++◌,
}
use homer_cli.Base.Bytes.{Bytes, bytes_of}
use homer_cli.Base.Dict.{Dict, lookup}
use homer_cli.Json.{
  Value, null, bool, number, text, array, object, Items, nil, item, Members, end, member,
}
use homer_cli.Json.Numbers.{FloatParser}
use homer_cli.Json.Printer.Strings.{write_string}
use homer_cli.Json.Printer.Numbers.{FloatPrinter, format_js_number}
use homer_cli.Json.Printer.Keys.{json_keys}

unfoldable pub indent : ℕ → Bytes
indent zero = []
indent (suc depth) = b' ' ∷ b' ' ∷ indent depth

-- if i+1 != len(keys)
abbrev pub comma {ℓ} : {A : Type ℓ} → List A → Bytes
comma [] = []
comma (k ∷ ks) = b',' ∷ []

abbrev pub comma_items : Items → Bytes
comma_items nil = []
comma_items (item v xs) = b',' ∷ []

-- A key without a value reads as nil.
abbrev pub or_null : Option Bytes → Bytes
or_null none = b'n' ∷ b'u' ∷ b'l' ∷ b'l' ∷ []
or_null (some written) = written

-- The loop of `writeObject` at depth + 1; `written` has each value of the map as it is written.
unfoldable pub write_lines : ℕ → List String → Dict Bytes → Bytes
write_lines depth [] written = []
write_lines depth (k ∷ ks) written =
    indent depth
    ++ (write_string (bytes_of k)
        ++ (b':'
            ∷ b' '
            ∷ (or_null (lookup k written) ++ (comma ks ++ 10 ∷ write_lines depth ks written))))

unfoldable pub write_object : ℕ → List String → Dict Bytes → Bytes
write_object depth [] written = b'{' ∷ b'}' ∷ []
write_object depth (k ∷ ks) written =
    b'{' ∷ 10 ∷ (write_lines (suc depth) (k ∷ ks) written ++ (indent depth ++ b'}' ∷ []))

-- `writeArray`; `written` are the elements at depth + 1, as they are written.
unfoldable pub write_array : Items → ℕ → Bytes → Bytes
write_array nil depth written = b'[' ∷ b']' ∷ []
write_array (item v xs) depth written = b'[' ∷ 10 ∷ (written ++ (indent depth ++ b']' ∷ []))

abbrev pub write_bool : Bool → Bytes
write_bool true = b't' ∷ b'r' ∷ b'u' ∷ b'e' ∷ []
write_bool false = b'f' ∷ b'a' ∷ b'l' ∷ b's' ∷ b'e' ∷ []

module _ ⦃fl : FloatParser⦄ ⦃fp : FloatPrinter⦄ where
  unfoldable mutual
    pub write_value : Value → ℕ → Bytes
    write_value null depth = b'n' ∷ b'u' ∷ b'l' ∷ b'l' ∷ []
    write_value (bool b) depth = write_bool b
    write_value (number s) depth = format_js_number s
    write_value (text s) depth = write_string (bytes_of s)
    write_value (array xs) depth = write_array xs depth (write_items xs (suc depth))
    write_value (object ks m) depth =
        write_object depth (json_keys (record { keys = ks; members = m }))
          (write_members m (suc depth))

    pub write_items : Items → ℕ → Bytes
    write_items nil depth = []
    write_items (item v xs) depth =
        indent depth ++ (write_value v depth ++ (comma_items xs ++ 10 ∷ write_items xs depth))

    pub write_members : Members → ℕ → Dict Bytes
    write_members end depth = []
    write_members (member k v m) depth = (k, write_value v depth) ∷ write_members m depth

  unfoldable pub serialize : Value → Bytes
  serialize v = write_value v zero

  unfoldable pub serialize_file : Value → Bytes
  serialize_file v = serialize v ++ 10 ∷ []
