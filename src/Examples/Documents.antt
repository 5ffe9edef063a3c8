-- ===== src/Examples/Documents.antt =====
-- JSON documents for the runs. The sample parser knows two numbers; every other text reads as zero.
use homer_cli.Base.{String, false, refl, [], ◌∷◌, str_eq, if◌then◌else◌}
use homer_cli.Json.{Value, text, number, object, end, member, Object, value_at}
use homer_cli.Json.Keys.{has_key}
use homer_cli.Json.Numbers.{Parsed, FloatParser, is_nan}
use homer_cli.Json.Pointwise.{IsJson}

abbrev sample_bits : String → Parsed
sample_bits s =
    if str_eq s "1"
    then record { bits = 0x3ff0000000000000; failed = false }
    else if str_eq s "2"
    then record { bits = 0x4000000000000000; failed = false }
    else record { bits = 0; failed = false }

instance abbrev pub sample_parser : FloatParser
sample_parser = record { parse_float = sample_bits }

-- {"a": first, "b": second}
abbrev pub two_keys : Value → Value → Object
two_keys first second = record {
  keys = "a" ∷ "b" ∷ [];
  members = member "a" first (member "b" second end);
}

abbrev pub as_value : Object → Value
as_value o = object o.keys o.members

abbrev pub base_doc : Object
base_doc = two_keys (number "1") (number "2")

-- The local side changes "a", the remote side "b".
abbrev pub local_doc : Object
local_doc = two_keys (text "x") (number "2")

abbrev pub remote_doc : Object
remote_doc = two_keys (number "1") (text "y")

-- The same members in another order.
abbrev pub reordered_doc : Object
reordered_doc = record {
  keys = "b" ∷ "a" ∷ [];
  members = member "b" (number "2") (member "a" (number "1") end);
}

pub base-IsJson : IsJson (as_value base_doc)
unfolding IsJson has_key value_at is_nan
base-IsJson = (refl, refl, (refl, refl, tt))

pub local-IsJson : IsJson (as_value local_doc)
unfolding IsJson has_key value_at is_nan
local-IsJson = (refl, tt, (refl, refl, tt))

pub remote-IsJson : IsJson (as_value remote_doc)
unfolding IsJson has_key value_at is_nan
remote-IsJson = (refl, refl, (refl, tt, tt))

pub reordered-IsJson : IsJson (as_value reordered_doc)
unfolding IsJson has_key value_at is_nan
reordered-IsJson = (refl, refl, (refl, refl, tt))
