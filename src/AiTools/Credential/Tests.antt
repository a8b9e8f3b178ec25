-- ===== src/AiTools/Credential/Tests.antt =====
-- Runs of src/ai_tools/gateway_credential.rs: a credential that ran out is exchanged for anew.
use litellm_relay.Common.{
  String, ℕ, ◌+◌, ◌≤◌, ◌≡◌, ◌↔◌, refl, true, Option, none, some, [], ◌∷◌, if◌then◌else◌, find,
}
use litellm_relay.Common.Action.{ok, Action, pure, lift, attempt, ◌>>=◌}
use litellm_relay.AiTools.Token.{Failure}
use litellm_relay.AiTools.Credential.Types.{
  CredentialRequest, half_life, AuthorizationServerDocument, Discovery, IssuedTokens, OauthError,
  TokenReply, refused, CachedCredential, Resolved, AuthorizationServer, is_fresh, dead, matches,
}
use litellm_relay.AiTools.Credential.Resolve.{
  cached_for, fresh, refreshed_or_exchanged, refresh_with, renew_with, renew, resolve_stale,
  resolve,
}
use litellm_relay.AiTools.Credential.Fresh.{is_fresh-dead_iff}
use litellm_relay.AiTools.Credential.Resolved.{Answer, resolve-Answer}
use litellm_relay.AiTools.Credential.Store.{upsert}
use litellm_relay.AiTools.Credential.Upsert.{Distinct, cached_for-upsert, upsert-Distinct}
use litellm_relay.AiTools.Credential.Wire.{
  HttpReply, Bodies, UrlParser, on_gateway_origin, supported_document, discovery_of,
  parse_discovery, parse_token_reply,
}
use litellm_relay.AiTools.Credential.Replies.{
  IsOnOrigin, parse_token_reply-cases, parse_discovery-IsOnOrigin,
}

abbrev request : CredentialRequest
request = record {
  gateway_url = "https://gateway.example";
  team = some "core";
  renewal = half_life;
}

abbrev held : CachedCredential
held = record {
  gateway_url = "https://gateway.example";
  team = some "core";
  client_id = "relay";
  access_token = "old";
  refresh_token = some "r1";
  expires_at = 9000;
  issued_at = 5400;
  user_id = none;
  team_id = none;
}

abbrev other_team : CachedCredential
other_team = record held { team = some "qa"; access_token = "qa" }

abbrev tokens : IssuedTokens
tokens = record {
  access_token = "new";
  refresh_token = none;
  expires_in = some 60;
  user_id = some "ada";
  team_id = none;
}

abbrev document : AuthorizationServerDocument
document = record {
  token_endpoint = "https://gateway.example/token";
  registration_endpoint = "https://gateway.example/register";
  resource = none;
}

abbrev server : AuthorizationServer (Unit {0})
server = record {
  discover = λ _. pure (Discovery.supported document);
  register = λ _. pure "relay";
  token = λ _ _. pure (TokenReply.issued tokens);
}

abbrev identity_token : Action (Unit {0}) Failure String
identity_token = pure "id"

resolve_test :
    (resolve server identity_token (other_team ∷ held ∷ []) request 10000 tt).0
    ≡ ok (
        Resolved.issued
          (record held {
            access_token = "new";
            expires_at = 10060;
            issued_at = 10000;
            user_id = some "ada";
          })
          true)
unfolding resolve resolve_stale renew renew_with refresh_with refreshed_or_exchanged cached_for
    fresh find is_fresh ◌>>=◌ pure attempt lift
resolve_test = refl

resolve-Answer_example :
    Answer server
      (other_team ∷ held ∷ [])
      request
      10000
      (resolve server identity_token (other_team ∷ held ∷ []) request 10000 tt).0
resolve-Answer_example =
    resolve-Answer server identity_token (other_team ∷ held ∷ []) request 10000 tt

is_fresh-dead_iff_example :
    (is_fresh (dead held 5000) 5000 half_life ≡ true) ↔ (5000 + 2 ≤ held.issued_at)
is_fresh-dead_iff_example = is_fresh-dead_iff held 5000

cached_for-upsert_example :
    cached_for (upsert (other_team ∷ held ∷ []) held) request
    ≡ (if matches held request then some held else cached_for (other_team ∷ held ∷ []) request)
cached_for-upsert_example = cached_for-upsert (other_team ∷ held ∷ []) held request

upsert-Distinct_example : Distinct (upsert (other_team ∷ held ∷ []) held)
upsert-Distinct_example = upsert-Distinct (other_team ∷ held ∷ []) held ((refl, tt), (tt, tt))

abbrev bodies : Bodies
bodies = record {
  discovery_document = λ _. some (record {
    token_endpoint = "http://internal/token";
    registration_endpoint = some "http://internal/register";
    resource = none;
    grant_types_supported = "urn:ietf:params:oauth:grant-type:token-exchange" ∷ [];
  });
  client_id = λ _. some "relay";
  issued_tokens = λ _. some tokens;
  oauth_error = λ _. none;
}

abbrev refusal : HttpReply
refusal = record { status = 403; body = "no" }

parse_token_reply-cases_example :
    (((status : ℕ) × (error : OauthError) × (parse_token_reply bodies refusal
          ≡ ok (refused status error)))
      ↔ ((400 ≤ refusal.status) × (refusal.status ≤ 499)))
    × ((t : IssuedTokens)
        → (parse_token_reply bodies refusal ≡ ok (TokenReply.issued t))
          ↔ ((refusal.status ≡ 200) × (bodies.issued_tokens refusal.body ≡ some t)))
parse_token_reply-cases_example = parse_token_reply-cases bodies refusal

-- A URL as its origin, its path and its query.
abbrev urls : UrlParser
urls = record {
  Url = String × String × Option String;
  parse = λ text. some (text, "", none);
  path = λ u. u.1;
  query = λ u. u.2;
  set_path = λ path u. (u.0, path, u.2);
  set_query = λ query u. (u.0, u.1, query);
  text = λ u. u.0;
}

abbrev found : HttpReply
found = record { status = 200; body = "{}" }

abbrev on_gateway : AuthorizationServerDocument
on_gateway = record {
  token_endpoint = "https://gateway.example";
  registration_endpoint = "https://gateway.example";
  resource = none;
}

parse_discovery-IsOnOrigin_example :
    IsOnOrigin urls
      (λ u. u.0)
      (λ path u. refl)
      (λ query u. refl)
      "https://gateway.example"
      on_gateway.token_endpoint
    × IsOnOrigin urls
        (λ u. u.0)
        (λ path u. refl)
        (λ query u. refl)
        "https://gateway.example"
        on_gateway.registration_endpoint
unfolding parse_discovery discovery_of supported_document on_gateway_origin
parse_discovery-IsOnOrigin_example =
    parse_discovery-IsOnOrigin urls (λ u. u.0) (λ path u. refl) (λ query u. refl) bodies found
      "https://gateway.example" on_gateway refl
