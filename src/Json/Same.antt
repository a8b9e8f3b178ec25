-- ===== src/Json/Same.antt =====
-- Equality of JSON documents, as `serde_json::Value: PartialEq` decides it on maps in key order.
use litellm_relay.Common.{Bool, true, false, ◌&&◌, Option, none, some, ◌==◌, string_eq}
use litellm_relay.Json.{
  Value, null, bool, number, string, array, object, Items, nil, cons, Fields, end, field,
}

abbrev pub same_bool : Bool → Bool → Bool
same_bool true b = b
same_bool false true = false
same_bool false false = true

unfoldable mutual
  pub same : Value → Value → Bool
  same null null = true
  same (bool a) (bool b) = same_bool a b
  same (number a) (number b) = a == b
  same (string a) (string b) = a == b
  same (array a) (array b) = same_items a b
  same (object a) (object b) = same_fields a b
  same _ _ = false

  pub same_items : Items → Items → Bool
  same_items nil nil = true
  same_items (cons a xs) (cons b ys) = same a b && same_items xs ys
  same_items _ _ = false

  pub same_fields : Fields → Fields → Bool
  same_fields end end = true
  same_fields (field k a xs) (field l b ys) = k == l && same a b && same_fields xs ys
  same_fields _ _ = false

abbrev pub same_arguments : Option Fields → Option Fields → Bool
same_arguments none none = true
same_arguments (some a) (some b) = same_fields a b
same_arguments (some a) none = false
same_arguments none (some b) = false
