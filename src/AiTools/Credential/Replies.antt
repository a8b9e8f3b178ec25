-- ===== src/AiTools/Credential/Replies.antt =====
-- What a Gateway's reply may be read as (src/ai_tools/gateway_credential.rs).
use litellm_relay.Common.{
  String, ℕ, ◌≡◌, ◌≤◌, ◌↔◌, refl, Option, some, unwrap_or, Option-cases, inl, inr, arith, ◌∙◌,
  string_eq,
}
use litellm_relay.Common.Action.{Result, ok, err}
use litellm_relay.AiTools.Credential.Types.{
  AuthorizationServerDocument, Discovery, IssuedTokens, OauthError, TokenReply, refused, Error,
}
use litellm_relay.AiTools.Credential.Wire.{
  HttpReply, DiscoveryDocument, Bodies, UrlParser, or_other, result_then, on_gateway_origin,
  both_endpoints, endpoints_of, supported_document, discovery_of, parse_discovery, no_oauth_error,
  parse_token_reply,
}

-- A token request counts as refused exactly if the Gateway answered it with a status of 400 to 499, and it
-- gives tokens exactly if it was answered with 200 and a body that holds them. Every other answer is an error.
pub parse_token_reply-cases :
    (bodies : Bodies) (reply : HttpReply)
    → (((status : ℕ) × (error : OauthError) × (parse_token_reply bodies reply
            ≡ ok (refused status error)))
        ↔ ((400 ≤ reply.status) × (reply.status ≤ 499)))
      × ((tokens : IssuedTokens)
          → (parse_token_reply bodies reply ≡ ok (TokenReply.issued tokens))
            ↔ ((reply.status ≡ 200) × (bodies.issued_tokens reply.body ≡ some tokens)))
unfolding parse_token_reply
parse_token_reply-cases bodies reply = (
  (
    λ x. let (status, error, e) = x in ground arith,
    λ x. (reply.status, unwrap_or no_oauth_error (bodies.oauth_error reply.body), ground arith),
  ),
  λ tokens. ground arith,
)

result_then-eq-ok :
    {A B : Type 0} (r : Result Error A) (f : A → Result Error B) {b : B}
    → result_then r f ≡ ok b
    → (a : A) × (r ≡ ok a) × (f a ≡ ok b)
result_then-eq-ok (ok a) f e = (a, refl, e)
result_then-eq-ok (err error) f e = cc

module _ (urls : UrlParser) {Origin : Type 0} (origin : urls.Url → Origin)
    (origin-set_path : (path : String) (u : urls.Url) → origin (urls.set_path path u) ≡ origin u)
    (origin-set_query : (query : Option String) (u : urls.Url)
      → origin (urls.set_query query u) ≡ origin u) where
  -- The text of a URL that has the origin of the configured Gateway.
  abbrev pub IsOnOrigin : String → String → Type 0
  IsOnOrigin gateway_url endpoint =
      (configured : urls.Url) × (u : urls.Url) × (urls.parse gateway_url ≡ some configured)
      × (endpoint ≡ urls.text u)
      × (origin u ≡ origin configured)

  on_gateway_origin-IsOnOrigin :
      (gateway_url advertised endpoint : String)
      → on_gateway_origin urls gateway_url advertised ≡ ok endpoint
      → IsOnOrigin gateway_url endpoint
  unfolding on_gateway_origin
  on_gateway_origin-IsOnOrigin gateway_url advertised endpoint e =
      elim (Option-cases (urls.parse gateway_url)) [
        | inl absent ↦ ground arith
        | inr (configured, found) ↦ elim (Option-cases (urls.parse advertised)) [
          | inl absent ↦ ground arith
          | inr (a, read) ↦ (
            configured,
            urls.set_query (urls.query a) (urls.set_path (urls.path a) configured),
            found,
            ground arith,
            origin-set_query (urls.query a) (urls.set_path (urls.path a) configured)
                ∙ origin-set_path (urls.path a) configured,
          )
        ]
      ]

  both_endpoints-eq-ok :
      (resource : Option String) (t r : Result Error String)
      (document : AuthorizationServerDocument)
      → both_endpoints urls resource t r ≡ ok (Discovery.supported document)
      → (t ≡ ok document.token_endpoint) × (r ≡ ok document.registration_endpoint)
  both_endpoints-eq-ok resource (ok t) (ok r) document e = ground arith
  both_endpoints-eq-ok resource (ok t) (err _) document e = ground arith
  both_endpoints-eq-ok resource (err _) r document e = ground arith

  supported_document-IsOnOrigin :
      (read : DiscoveryDocument) (gateway_url : String) (document : AuthorizationServerDocument)
      → supported_document urls gateway_url read ≡ ok (Discovery.supported document)
      → IsOnOrigin gateway_url document.token_endpoint
        × IsOnOrigin gateway_url document.registration_endpoint
  unfolding supported_document
  supported_document-IsOnOrigin read gateway_url document e =
      let (registration, _, found) =
        result_then-eq-ok
          (or_other "the gateway's authorization server offers no registration endpoint"
            read.registration_endpoint)
          (endpoints_of urls gateway_url read) e in
      let (t, r) = both_endpoints-eq-ok read.resource _ _ document found in
      (
        on_gateway_origin-IsOnOrigin gateway_url read.token_endpoint document.token_endpoint t,
        on_gateway_origin-IsOnOrigin gateway_url registration document.registration_endpoint r,
      )

  discovery_of-IsOnOrigin :
      (gateway_url : String) (read : DiscoveryDocument) (document : AuthorizationServerDocument)
      → discovery_of urls gateway_url read ≡ ok (Discovery.supported document)
      → IsOnOrigin gateway_url document.token_endpoint
        × IsOnOrigin gateway_url document.registration_endpoint
  unfolding discovery_of
  discovery_of-IsOnOrigin gateway_url read document e =
      supported_document-IsOnOrigin read gateway_url document (ground arith)

  -- If a new path or query leaves the origin of a URL, the endpoints that a supported Gateway is asked at
  -- have the origin of the configured Gateway, whatever its document advertised.
  pub parse_discovery-IsOnOrigin :
      (bodies : Bodies) (reply : HttpReply) (gateway_url : String)
      (document : AuthorizationServerDocument)
      → parse_discovery urls bodies reply gateway_url ≡ ok (Discovery.supported document)
      → IsOnOrigin gateway_url document.token_endpoint
        × IsOnOrigin gateway_url document.registration_endpoint
  unfolding parse_discovery
  parse_discovery-IsOnOrigin bodies reply gateway_url document e =
      let (read, _, found) =
        result_then-eq-ok
          (or_other "the gateway's authorization server document is not valid JSON"
            (bodies.discovery_document reply.body))
          (discovery_of urls gateway_url) (ground arith) in
      discovery_of-IsOnOrigin gateway_url read document found
