-- ===== src/Daemon/Json.antt =====
-- JSON values as crates/logfence-daemon/src/validator.rs reads them: the variants it matches on,
-- their lookups, and the functions of serde_json and jsonschema, which are parameters. The members
-- of an object are in the order of its map.
use logfence.Prelude.{Bool, true, false, Option, none, some, Bytes, bytes_eq, if◌then◌else◌, ◌⊎◌}

mutual
  -- A number is its text; nothing reads it.
  pub data Value : Type 0 where
    null : Value
    bool : Bool → Value
    number : Bytes → Value
    string : Bytes → Value
    array : Values → Value
    object : Members → Value

  pub data Values : Type 0 where
    no_values : Values
    item : Value → Values → Values

  pub data Members : Type 0 where
    no_members : Members
    member : Bytes → Value → Members → Members

unfoldable pub member_of : Bytes → Members → Option Value
member_of key no_members = none
member_of key (member k v ms) =
    let later = member_of key ms in if bytes_eq k key then some v else later

-- `value.get(key)`
unfoldable pub get : Bytes → Value → Option Value
get key (object ms) = member_of key ms
get key _ = none

abbrev pub as_str : Value → Option Bytes
as_str (string s) = some s
as_str _ = none

abbrev pub is_object : Value → Bool
is_object (object ms) = true
is_object _ = false

-- `serde_json::from_str` with the message of its error, `serde_json::to_string`, and what the
-- jsonschema crate compiles a document to, with the message of its error, and checks.
pub record JsonLibrary : Type 1 where
  pub Schema : Type 0
  pub from_str : Bytes → Bytes ⊎ Value
  pub to_string : Value → Option Bytes
  pub validator_for : Value → Bytes ⊎ Schema
  pub is_valid : Schema → Value → Bool
