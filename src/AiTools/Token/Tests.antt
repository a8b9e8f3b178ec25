-- ===== src/AiTools/Token/Tests.antt =====
-- Runs of src/ai_tools/token.rs: a token with five minutes left is refreshed.
use litellm_relay.Common.{String, ◌+◌, ◌<◌, ◌≤◌, ◌≡◌, ◌↔◌, refl, Option, none, some, [], ◌∷◌}
use litellm_relay.Json.{number, object, field, end}
use litellm_relay.Mcp.Verdict.Tests.{ascii}
use litellm_relay.Common.Action.{ok, err}
use litellm_relay.AiTools.Idp.{
  IdpSection, is_configured, normalized_issuer, trim, token_claims, token_expiry,
}
use litellm_relay.AiTools.Token.{
  CachedSession, cached_only, refresh, next_step, refreshed, wrote, Device, Env, file, provider,
  ◌>>=◌, from_session, take_step, after_refresh, advance, read_cache, write_cache, keep,
  renew_under_lock, ensure_with,
}
use litellm_relay.AiTools.Token.Steps.{fallback, fallback-next_step_iff, next_step-refresh_iff}
use litellm_relay.AiTools.Token.Renewal.{Ended, ensure_with-Ended}

abbrev idp : IdpSection
idp = record {
  issuer = " https://idp.example// ";
  client_id = "relay";
  scopes = none;
  redirect_port = none;
  authorize_url = "";
}

abbrev held : CachedSession
held = record {
  issuer = "https://idp.example";
  client_id = "relay";
  token = "old";
  exp = 10300;
  refresh_token = some "r1";
}

abbrev fresh : CachedSession
fresh = record held { token = "h.p.s"; exp = 13600; refresh_token = some "r2" }

abbrev device : Device
device = record {
  World = Unit;
  classes = ascii;
  decoder = record {
    claims_of = λ _. some (object (field "exp" (number "13600") end));
    as_i64 = λ _. some 13600;
    as_f64_floor = λ _. none;
  };
  sign_in = λ _ w. (err "no browser", w);
  refresh = λ _ _ w. (ok (record { id_token = "h.p.s"; refresh_token = some "r2" }), w);
  read_file = λ w. (ok (some "cache"), w);
  write_file = λ _ w. (ok tt, w);
  lock_file = λ w. (ok tt, w);
  parse = λ _. some held;
  print = λ _. "cache";
}

abbrev start : Env device
start = record { world = tt; events = [] }

ensure_test : ensure_with device idp 10000 cached_only start ≡ (
  ok "h.p.s",
  record {
    world = tt;
    events =
        wrote fresh
        ∷ refreshed "r1" (some (record { id_token = "h.p.s"; refresh_token = some "r2" }))
        ∷ [];
  },
)
unfolding ensure_with is_configured normalized_issuer trim read_cache next_step renew_under_lock
    file ◌>>=◌ advance take_step provider after_refresh from_session token_expiry token_claims
    litellm_relay.Json.get keep write_cache
ensure_test = refl

ensure_with-Ended_example :
    Ended device idp 10000 cached_only []
      (ensure_with device idp 10000 cached_only start).0
      (ensure_with device idp 10000 cached_only start).1.events
ensure_with-Ended_example = ensure_with-Ended device idp 10000 cached_only start

fallback-next_step_iff_example :
    (fallback (next_step (some held) 10000) ≡ some "old")
    ↔ (("old" ≡ held.token) × (10000 + 60 < held.exp))
fallback-next_step_iff_example = fallback-next_step_iff held 10000 "old"

next_step-refresh_iff_example :
    ((r : String) × (v : Option String) × (next_step (some held) 10000 ≡ refresh r v))
    ↔ (((r : String) × (held.refresh_token ≡ some r)) × (held.exp ≤ 10000 + 600))
next_step-refresh_iff_example = next_step-refresh_iff held 10000
