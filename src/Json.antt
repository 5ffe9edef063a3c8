-- ===== src/Json.antt =====
-- internal/orderedjson: JSON values with an explicit property order.
pub mod Numbers
pub mod Keys
pub mod Equal
pub mod Pointwise
pub mod Equivalence
pub mod SetValue
pub mod Rebuild
pub mod Strip
pub mod Utf8
pub mod Parser
pub mod Printer
pub mod RoundTrip
pub mod Ending
use homer_cli.Base.{
  ℕ, suc, max, String, Bool, true, false, Option, none, some, List, [], ◌∷◌, str_eq, if◌then◌else◌,
}

-- `Object` is its explicit key order and its map. A number keeps its source text, as `json.Number`
-- does. A nil `*Object` behaves as JSON null in every function of the package, and is `null` here.
mutual
  pub data Value : Type 0 where
    null : Value
    bool : Bool → Value
    number : String → Value
    text : String → Value
    array : Items → Value
    object : List String → Members → Value

  pub data Items : Type 0 where
    nil : Items
    item : Value → Items → Items

  pub data Members : Type 0 where
    end : Members
    member : String → Value → Members → Members

pub record Object : Type 0 where
  pub keys : List String
  pub members : Members

-- object.M[key]
unfoldable pub value_at : String → Members → Option Value
value_at k end = none
value_at k (member j v m) = if str_eq j k then some v else value_at k m

-- the keys that a `range` over the map visits
unfoldable pub member_keys : Members → List String
member_keys end = []
member_keys (member k v m) = k ∷ member_keys m

-- object.M[key] = value
unfoldable pub set_value : String → Value → Members → Members
set_value k v end = member k v end
set_value k v (member j w m) = if str_eq j k then member j v m else member j w (set_value k v m)

-- How deep objects nest; 1 for whatever is no object.
unfoldable mutual
  pub height : Value → ℕ
  height null = 1
  height (bool b) = 1
  height (number s) = 1
  height (text s) = 1
  height (array xs) = 1
  height (object ks m) = suc (height_members m)

  pub height_members : Members → ℕ
  height_members end = 1
  height_members (member k v m) = max (height v) (height_members m)
