-- ===== src/Mcp/Catalog/Names.antt =====
-- The split of a Gateway name into a server and the server's own name for the tool
-- (src/mcp/catalog.rs).
use Prim.Native.String.{◌++◌ as ◌<>◌, count}
use litellm_relay.Common.{
  String, ◌≡◌, ◌≢◌, ◌≤◌, ◌⊎◌, inl, inr, refl, Bool-cases, Option-cases, ◌==◌, ==_iff, string_eq,
}
use litellm_relay.Common.Text.{split_once, split_once-eq-some, split_once-first, split_once-eq-none}
use litellm_relay.Mcp.Catalog.{split_gateway_name, ungrouped_server}

-- The name is cut at the separator's first occurrence.
pub record CutAtFirst (name separator server own_name : String) : Type 0 where
  pub rejoined : server <> (separator <> own_name) ≡ name
  pub first :
      (before after : String) → before <> (separator <> after) ≡ name → count server ≤ count before

-- The name holds no separator, and stands whole under "ungrouped".
pub record Uncut (name separator server own_name : String) : Type 0 where
  pub server_is_ungrouped : server ≡ ungrouped_server
  pub own_name_is_name : own_name ≡ name
  pub absent : (before after : String) → before <> (separator <> after) ≢ name

-- With a separator that is not empty, a Gateway name is cut at the first separator, or it holds
-- none and is grouped as "ungrouped" under its whole name.
pub split_gateway_name_cases :
    (name separator : String)
    → separator ≢ ""
    → CutAtFirst name separator
        (split_gateway_name name separator).0
        (split_gateway_name name separator).1
      ⊎ Uncut name separator
          (split_gateway_name name separator).0
          (split_gateway_name name separator).1
unfolding split_gateway_name
split_gateway_name_cases name separator h = elim (Bool-cases (separator == "")) [
  | inl e ↦ absurd (h ((==_iff separator "").0 e))
  | inr e ↦ rw e (elim (Option-cases (split_once name separator)) [
    | inl f ↦ rw f (
        inr (record {
          server_is_ungrouped = refl;
          own_name_is_name = refl;
          absent = λ before after. split_once-eq-none name separator before after f;
        }))
    | inr ((server, own_name), f) ↦ rw f (
        inl (record {
          rejoined = split_once-eq-some name separator server own_name f;
          first = λ before after. split_once-first name separator server own_name before after f;
        }))
  ])
]
