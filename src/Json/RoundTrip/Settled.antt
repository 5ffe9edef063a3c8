-- ===== src/Json/RoundTrip/Settled.antt =====
-- The value that is read from what `Serialize` writes: keys in the order of `objectKeys`, numbers as
-- `formatJSNumber` spells them.
use homer_cli.Base.{◌≡◌, String, List, [], ◌∷◌, ◌==◌, ◌⊎◌, false, if◌then◌else◌}
use homer_cli.Base.{All}
use homer_cli.Base.Bytes.{Bytes, text_of, bytes_of, IsByte}
use homer_cli.Json.{
  Value, null, bool, number, text, array, object, Items, nil, item, Members, end, member, value_at,
}
use homer_cli.Json.Numbers.{FloatParser}
use homer_cli.Json.Keys.{has_key}
use homer_cli.Json.Rebuild.{value_or_null}
use homer_cli.Json.Parser.{parse_number, read}
use homer_cli.Json.Printer.{FloatPrinter, format_js_number, json_keys}
use homer_cli.Json.RoundTrip.Codes.{IsText}

-- The members at some keys, in their order.
unfoldable pub pick : List String → Members → Members
pick [] m = end
pick (k ∷ ks) m = member k (value_or_null (value_at k m)) (pick ks m)

-- The value of a written number: JSON has neither NaN nor infinities.
unfoldable pub read_number : Bytes → Value
read_number [] = null
read_number (c ∷ bs) = if c == b'n' then null else number (text_of (c ∷ bs))

-- The text of a number, whole.
abbrev pub IsNumeral : Bytes → Type 0
IsNumeral bs = (parse_number bs ≡ read bs []) × All IsByte bs

module _ ⦃fl : FloatParser⦄ ⦃fp : FloatPrinter⦄ where
  unfoldable mutual
    pub settle : Value → Value
    settle null = null
    settle (bool b) = bool b
    settle (number s) = read_number (format_js_number s)
    settle (text s) = text s
    settle (array xs) = array (settle_items xs)
    settle (object ks m) =
        let keys = json_keys (record { keys = ks; members = m }) in
        object keys (pick keys (settle_members m))

    pub settle_items : Items → Items
    settle_items nil = nil
    settle_items (item v xs) = item (settle v) (settle_items xs)

    pub settle_members : Members → Members
    settle_members end = end
    settle_members (member k v m) = member k (settle v) (settle_members m)

-- A Go string without broken UTF-8.
abbrev pub IsString : String → Type 0
IsString s = All IsByte (bytes_of s) × IsText (bytes_of s)

-- All texts and keys are such strings, and no map has a key twice.
unfoldable mutual
  pub IsDocument : Value → Type 0
  IsDocument (text s) = IsString s
  IsDocument (array xs) = AreDocuments xs
  IsDocument (object ks m) = AreFields m
  IsDocument _ = Unit {0}

  pub AreDocuments : Items → Type 0
  AreDocuments nil = Unit {0}
  AreDocuments (item v xs) = IsDocument v × AreDocuments xs

  pub AreFields : Members → Type 0
  AreFields end = Unit {0}
  AreFields (member k v m) = (has_key k m ≡ false) × IsString k × IsDocument v × AreFields m

-- What `formatJSNumber` gives: "null", or the text of a number.
abbrev pub IsNumberText : Bytes → Type 0
IsNumberText bs = (bs ≡ b'n' ∷ b'u' ∷ b'l' ∷ b'l' ∷ []) ⊎ IsNumeral bs
