-- ===== src/Broker/Key.antt =====
-- What the answers of the Gateway's key routes are read as (src/broker/key.rs). serde_json, chrono and
-- str::contains are parameters; the excerpts of a refusal's text are left out.
use litellm_relay.Common.{
  String, ℕ, Bool, ◌&&◌, ◌||◌, Option, none, some, if◌then◌else◌, leb, ltb, eq_ℕ, and_then,
  or_option,
}
use litellm_relay.Common.Action.{Result, ok, err}
use litellm_relay.Broker.Types.{
  MintRefusal, team_permission, unauthorized, MintOutcome, minted, refused, ExtendOutcome, extended,
}

abbrev pub team_permission_marker : String
team_permission_marker = "team_member_permission"

-- `Reply`
pub record KeyRouteReply : Type 0 where
  pub status : ℕ
  pub body : String

pub record KeyReply : Type 0 where
  pub key : String
  pub expires : Option String

pub record UpdateReply : Type 0 where
  pub expires : Option String

pub data KeyError : Type 0 where
  not_json refused_with_status : KeyError

pub record Readers : Type 0 where
  pub key_reply : String → Option KeyReply
  pub update_reply : String → Option UpdateReply
  pub parse_from_rfc3339 : String → Option ℕ
  pub parse_naive : String → Option ℕ
  pub contains : String → String → Bool

abbrev pub is_success : ℕ → Bool
is_success status = leb 200 status && ltb status 300

module _ (readers : Readers) where
  unfoldable pub parse_expiry : String → Option ℕ
  parse_expiry value = or_option (readers.parse_from_rfc3339 value) (readers.parse_naive value)

  abbrev pub minted_from : Option KeyReply → Result KeyError MintOutcome
  minted_from none = err not_json
  minted_from (some reply) =
      ok (minted (record { token = reply.key; expires_at = and_then reply.expires parse_expiry }))

  unfoldable pub mint_refusal : KeyRouteReply → MintRefusal
  mint_refusal reply =
      if (eq_ℕ reply.status 401 || eq_ℕ reply.status 403)
        && readers.contains reply.body team_permission_marker
      then team_permission
      else if eq_ℕ reply.status 401
      then unauthorized
      else MintRefusal.other

  unfoldable pub parse_mint : KeyRouteReply → Result KeyError MintOutcome
  parse_mint reply =
      if is_success reply.status
      then minted_from (readers.key_reply reply.body)
      else ok (refused (mint_refusal reply))

  abbrev pub extended_from : Option UpdateReply → Result KeyError ExtendOutcome
  extended_from none = err not_json
  extended_from (some reply) = ok (extended (and_then reply.expires parse_expiry))

  unfoldable pub parse_extension : KeyRouteReply → Result KeyError ExtendOutcome
  parse_extension reply =
      if leb 200 reply.status && leb reply.status 299
      then extended_from (readers.update_reply reply.body)
      else if eq_ℕ reply.status 401
      then ok ExtendOutcome.unauthorized
      else err refused_with_status
