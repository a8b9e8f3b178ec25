-- ===== src/AiTools/Idp.antt =====
-- The identity provider's settings (`IdpSection` in src/config.rs) and what is read of an ID token
-- (src/ai_tools/idp.rs).
use litellm_relay.Common.{
  String, Char, code, ℕ, Bool, not, ◌&&◌, Option, none, some, List, [], ◌∷◌, reverse, if◌then◌else◌,
  eq_ℕ, ◌==◌, string_eq,
}
use litellm_relay.Json.{Value, get}
use litellm_relay.Mcp.Verdict.Words.{CharClasses, chars}

abbrev pub of_chars : List Char → String
of_chars [] = ""
of_chars (c ∷ cs) = String.◌∷◌ c (of_chars cs)

-- str::trim_start_matches, on the characters
abbrev pub skip : (Char → Bool) → List Char → List Char
skip p [] = []
skip p (c ∷ cs) = let rest = skip p cs in if p c then rest else c ∷ cs

abbrev pub skip_end : (Char → Bool) → List Char → List Char
skip_end p cs = reverse (skip p (reverse cs))

-- str::trim
unfoldable pub trim : CharClasses → String → List Char
trim classes text = skip_end classes.is_whitespace (skip classes.is_whitespace (chars text))

pub record IdpSection : Type 0 where
  pub issuer : String
  pub client_id : String
  pub scopes : Option String
  pub redirect_port : Option ℕ
  pub authorize_url : String

unfoldable pub normalized_issuer : CharClasses → IdpSection → String
normalized_issuer classes idp =
    of_chars (skip_end (λ c. eq_ℕ (code c) b'/') (trim classes idp.issuer))

abbrev pub trimmed_client_id : CharClasses → IdpSection → String
trimmed_client_id classes idp = of_chars (trim classes idp.client_id)

unfoldable pub is_configured : CharClasses → IdpSection → Bool
is_configured classes idp =
    not (normalized_issuer classes idp == "") && not (trimmed_client_id classes idp == "")

-- `Session`
pub record Session : Type 0 where
  pub id_token : String
  pub refresh_token : Option String

-- What serde_json and base64 read: the claims in the payload of a token, and a number as a whole number
-- of seconds, or as a fraction rounded down.
pub record Decoder : Type 0 where
  pub claims_of : (payload : String) → Option Value
  pub as_i64 : Value → Option ℕ
  pub as_f64_floor : Value → Option ℕ

-- jwt.split('.').nth(1)
abbrev pub is_dot : Char → Bool
is_dot c = eq_ℕ (code c) b'.'

abbrev pub until_dot : List Char → List Char
until_dot [] = []
until_dot (c ∷ cs) = let rest = until_dot cs in if is_dot c then [] else c ∷ rest

abbrev pub second_part : List Char → Option (List Char)
second_part [] = none
second_part (c ∷ cs) = let rest = second_part cs in if is_dot c then some (until_dot cs) else rest

abbrev pub first_some : {A : Type 0} → Option A → Option A → Option A
first_some (some a) _ = some a
first_some none o = o

module _ (decoder : Decoder) where
  unfoldable pub token_claims : String → Option Value
  token_claims jwt = elim (second_part (chars jwt)) [
    | none ↦ none
    | some payload ↦ decoder.claims_of (of_chars (skip_end (λ c. eq_ℕ (code c) b'=') payload))
  ]

  abbrev pub seconds : Option Value → Option ℕ
  seconds none = none
  seconds (some exp) = first_some (decoder.as_i64 exp) (decoder.as_f64_floor exp)

  unfoldable pub token_expiry : String → Option ℕ
  token_expiry jwt = elim (token_claims jwt) [
    | none ↦ none
    | some claims ↦ seconds (get "exp" claims)
  ]
