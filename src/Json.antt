-- ===== src/Json.antt =====
-- A JSON document, as `serde_json::Value` holds one. A number is kept by its text: the program
-- passes numbers on and never computes with one.
pub mod Same
use litellm_relay.Common.{
  String, Bool, Option, none, some, List, [], ◌∷◌, if◌then◌else◌, ◌==◌, string_eq,
}

mutual
  pub data Value : Type 0 where
    null : Value
    bool : Bool → Value
    number : String → Value
    string : String → Value
    array : Items → Value
    object : Fields → Value

  pub data Items : Type 0 where
    nil : Items
    cons : Value → Items → Items

  pub data Fields : Type 0 where
    end : Fields
    field : String → Value → Fields → Fields

-- Map::get
unfoldable pub get_field : String → Fields → Option Value
get_field key end = none
get_field key (field name value rest) = if name == key then some value else get_field key rest

-- Value::get with a text for its index
unfoldable pub get : String → Value → Option Value
unfolding get_field
get key (object fields) = get_field key fields
get key _ = none

-- Value::is_object
abbrev pub is_object : Value → Bool
is_object (object _) = Bool.true
is_object _ = Bool.false

abbrev pub items : Items → List Value
items nil = []
items (cons value rest) = value ∷ items rest
