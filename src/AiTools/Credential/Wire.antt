-- ===== src/AiTools/Credential/Wire.antt =====
-- What the Gateway's replies are read as, and the form of a token request (`parse_discovery` to
-- `parse_token_reply` and `token_form` in src/ai_tools/gateway_credential.rs). serde_json and the url crate
-- are parameters.
use litellm_relay.Common.{
  String, ℕ, Bool, ◌&&◌, ◌||◌, Option, none, some, List, [], ◌∷◌, if◌then◌else◌, ◌==◌, string_eq,
  any, leb, eq_ℕ, unwrap_or,
}
use litellm_relay.Common.Action.{Result, ok, err}
use litellm_relay.AiTools.Credential.Types.{
  AuthorizationServerDocument, Discovery, IssuedTokens, OauthError, TokenReply, refused, Grant,
  exchange, refresh, Error, other,
}

abbrev pub token_exchange_grant : String
token_exchange_grant = "urn:ietf:params:oauth:grant-type:token-exchange"

abbrev pub jwt_token_type : String
jwt_token_type = "urn:ietf:params:oauth:token-type:jwt"

-- `Reply`
pub record HttpReply : Type 0 where
  pub status : ℕ
  pub body : String

pub record DiscoveryDocument : Type 0 where
  pub token_endpoint : String
  pub registration_endpoint : Option String
  pub resource : Option String
  pub grant_types_supported : List String

-- serde_json on the documents that are read.
pub record Bodies : Type 0 where
  pub discovery_document : String → Option DiscoveryDocument
  pub client_id : String → Option String
  pub issued_tokens : String → Option IssuedTokens
  pub oauth_error : String → Option OauthError

-- url::Url
pub record UrlParser : Type 1 where
  pub Url : Type 0
  pub parse : String → Option Url
  pub path : Url → String
  pub query : Url → Option String
  pub set_path : String → Url → Url
  pub set_query : Option String → Url → Url
  pub text : Url → String

abbrev pub or_other : {A : Type 0} → String → Option A → Result Error A
or_other message (some a) = ok a
or_other message none = err (other message)

abbrev pub result_then : {A B : Type 0} → Result Error A → (A → Result Error B) → Result Error B
result_then (ok a) f = f a
result_then (err e) f = err e

abbrev pub resource_pair : Option String → List (String × String)
resource_pair (some resource) = ("resource", resource) ∷ []
resource_pair none = []

unfoldable pub token_form :
    AuthorizationServerDocument → Grant → List (String × String) × Option String
token_form document (exchange client_id subject_token team) = (
  ("grant_type", token_exchange_grant)
      ∷ ("client_id", client_id)
      ∷ ("subject_token", subject_token)
      ∷ ("subject_token_type", jwt_token_type)
      ∷ resource_pair document.resource,
  team,
)
token_form document (refresh client_id refresh_token) = (
  ("grant_type", "refresh_token")
      ∷ ("client_id", client_id)
      ∷ ("refresh_token", refresh_token)
      ∷ resource_pair document.resource,
  none,
)

module _ (urls : UrlParser) where
  open urls use {Url}

  abbrev pub moved_onto : Url → Url → String
  moved_onto endpoint advertised =
      urls.text
        (urls.set_query (urls.query advertised) (urls.set_path (urls.path advertised) endpoint))

  unfoldable pub on_gateway_origin : String → String → Result Error String
  on_gateway_origin gateway_url advertised =
      result_then (or_other "the gateway URL is not a valid URL" (urls.parse gateway_url))
        λ endpoint.
          result_then
            (or_other "the gateway advertised an invalid endpoint" (urls.parse advertised))
            λ a. ok (moved_onto endpoint a)

  -- `?` on each of the two endpoints
  abbrev pub both_endpoints :
      Option String → Result Error String → Result Error String → Result Error Discovery
  both_endpoints resource (ok token_endpoint) (ok registration_endpoint) = ok (
      Discovery.supported (record {
        token_endpoint = token_endpoint;
        registration_endpoint = registration_endpoint;
        resource = resource;
      }))
  both_endpoints resource (ok token_endpoint) (err e) = err e
  both_endpoints resource (err e) registration_endpoint = err e

  abbrev pub endpoints_of : String → DiscoveryDocument → String → Result Error Discovery
  endpoints_of gateway_url document registration =
      both_endpoints document.resource (on_gateway_origin gateway_url document.token_endpoint)
        (on_gateway_origin gateway_url registration)

  unfoldable pub supported_document : String → DiscoveryDocument → Result Error Discovery
  supported_document gateway_url document =
      result_then
        (or_other "the gateway's authorization server offers no registration endpoint"
          document.registration_endpoint)
        (endpoints_of gateway_url document)

  unfoldable pub discovery_of : String → DiscoveryDocument → Result Error Discovery
  discovery_of gateway_url document =
      if any (λ grant. grant == token_exchange_grant) document.grant_types_supported
      then supported_document gateway_url document
      else ok Discovery.unsupported

  unfoldable pub parse_discovery : Bodies → HttpReply → String → Result Error Discovery
  parse_discovery bodies reply gateway_url =
      if eq_ℕ reply.status 404
      then ok Discovery.unsupported
      else if eq_ℕ reply.status 200
      then result_then
          (or_other "the gateway's authorization server document is not valid JSON"
            (bodies.discovery_document reply.body))
          (discovery_of gateway_url)
      else err (other "gateway discovery failed")

unfoldable pub parse_registration : Bodies → HttpReply → Result Error String
parse_registration bodies reply =
    if eq_ℕ reply.status 200 || eq_ℕ reply.status 201
    then or_other "the gateway's registration reply is not valid JSON" (bodies.client_id reply.body)
    else err (other "gateway client registration failed")

abbrev pub no_oauth_error : OauthError
no_oauth_error = record { error = ""; error_description = "" }

abbrev pub between : ℕ → ℕ → ℕ → Bool
between low high n = leb low n && leb n high

abbrev pub issued_reply : Option IssuedTokens → Result Error TokenReply
issued_reply (some tokens) = ok (TokenReply.issued tokens)
issued_reply none = err (other "the gateway's token reply is not valid JSON")

unfoldable pub parse_token_reply : Bodies → HttpReply → Result Error TokenReply
parse_token_reply bodies reply =
    if eq_ℕ reply.status 200
    then issued_reply (bodies.issued_tokens reply.body)
    else if between 400 499 reply.status
    then ok (refused reply.status (unwrap_or no_oauth_error (bodies.oauth_error reply.body)))
    else if between 300 399 reply.status
    then err (other "the gateway redirected the token request")
    else err (other "gateway token request failed")
