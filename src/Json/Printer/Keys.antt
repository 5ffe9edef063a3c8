-- ===== src/Json/Printer/Keys.antt =====
-- `objectKeys`, `javascriptPropertyOrder` and `arrayIndex` of internal/orderedjson/orderedjson.go.
use homer_cli.Base.{
  ℕ, ◌+◌, ◌-◌, ◌*◌, String, Bool, false, Option, none, some, List, [], ◌∷◌, ◌++◌, ltb, leb, ◌==◌,
  str_eq, map, if◌then◌else◌,
}
use homer_cli.Base.Bytes.{Bytes, text_of, bytes_of}
use homer_cli.Json.{Object}
use homer_cli.Json.Keys.{object_keys}
use homer_cli.Json.Parser.{is_digit}
use homer_cli.Json.Printer.Numbers.{decimal}

-- The loop over the digits, with the value that strconv.ParseUint gives; n is what it has so far.
unfoldable pub decimal_value : ℕ → Bytes → Option ℕ
decimal_value n [] = some n
decimal_value n (c ∷ bs) =
    let rest = decimal_value (n * 10 + (c - b'0')) bs in if is_digit c then rest else none

abbrev leading_zero : Bytes → Bool
leading_zero (c ∷ d ∷ bs) = c == b'0'
leading_zero (c ∷ []) = false
leading_zero [] = false

abbrev pub in_range : String → Option ℕ → Option ℕ
in_range key none = none
in_range key (some value) =
    if ltb value 0xffffffff
    then if str_eq (text_of (decimal value)) key then some value else none
    else none

-- `arrayIndex`; math.MaxUint32 is no index, and beyond it `ParseUint` fails.
unfoldable pub array_index : String → Option ℕ
array_index key =
    if str_eq key ""
    then none
    else if leading_zero (bytes_of key)
    then none
    else in_range key (decimal_value 0 (bytes_of key))

abbrev if_index : Option ℕ → List ℕ → List ℕ
if_index none indices = indices
if_index (some i) indices = i ∷ indices

abbrev if_no_index : Option ℕ → String → List String → List String
if_no_index none key keys = key ∷ keys
if_no_index (some i) key keys = keys

unfoldable pub indices_of : List String → List ℕ
indices_of [] = []
indices_of (k ∷ ks) = if_index (array_index k) (indices_of ks)

unfoldable pub non_indices : List String → List String
non_indices [] = []
non_indices (k ∷ ks) = if_no_index (array_index k) k (non_indices ks)

-- sort.Slice(indices, ...), as an insertion sort
unfoldable pub insert_index : ℕ → List ℕ → List ℕ
insert_index i [] = i ∷ []
insert_index i (j ∷ js) = if leb i j then i ∷ j ∷ js else j ∷ insert_index i js

unfoldable pub sort_indices : List ℕ → List ℕ
sort_indices [] = []
sort_indices (i ∷ is) = insert_index i (sort_indices is)

abbrev pub ordered : List ℕ → List String → List String
ordered [] keys = keys
ordered (i ∷ is) keys = map (λ i. text_of (decimal i)) (sort_indices (i ∷ is)) ++ non_indices keys

-- `javascriptPropertyOrder`
unfoldable pub property_order : List String → List String
property_order keys = ordered (indices_of keys) keys

-- `objectKeys`
unfoldable pub json_keys : Object → List String
json_keys o = property_order (object_keys o)
