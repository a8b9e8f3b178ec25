-- ===== src/AiTools/Token.antt =====
-- The ID token that the onboarded tools share, and its cache on disk (src/ai_tools/token.rs).
--
-- The identity provider, the cache file with its lock, and serde_json are parameters. Errors are kept
-- apart where the code tells them apart; their texts are not. Times are seconds since the epoch.
use litellm_relay.Common.{
  String, ℕ, ◌+◌, Bool, true, false, ◌&&◌, not, Option, none, some, List, [], ◌∷◌, if◌then◌else◌,
  ltb, ◌==◌, string_eq, filter_option,
}
use litellm_relay.Mcp.Verdict.Words.{CharClasses}
use litellm_relay.Common.Action.{Result, ok, err}
use litellm_relay.AiTools.Idp.{
  IdpSection, Session, Decoder, is_configured, normalized_issuer, trimmed_client_id, token_expiry,
}
pub mod Steps
pub mod Renewal
pub mod Reusing
pub mod Tests

abbrev pub refresh_ahead_seconds : ℕ
refresh_ahead_seconds = 600

abbrev pub expiry_margin_seconds : ℕ
expiry_margin_seconds = 60

pub record CachedSession : Type 0 where
  pub issuer : String
  pub client_id : String
  pub token : String
  pub exp : ℕ
  pub refresh_token : Option String

pub data Advanced : Type 0 where
  reused : String → Advanced
  renewed : CachedSession → Advanced

pub data SignIn : Type 0 where
  allowed cached_only : SignIn

pub data Step : Type 0 where
  reuse : String → Step
  refresh : (refresh_token : String) (still_valid : Option String) → Step
  sign_in : Step

pub data Failure : Type 0 where
  not_configured sign_in_required no_readable_expiry : Failure
  provider_failed file_failed : String → Failure

-- exp - now > seconds
abbrev pub lasts : ℕ → ℕ → ℕ → Bool
lasts exp now seconds = ltb (now + seconds) exp

unfoldable pub next_step : Option CachedSession → ℕ → Step
next_step none now = sign_in
next_step (some cached) now = elim cached.refresh_token [
  | some refresh_token ↦
      if lasts cached.exp now refresh_ahead_seconds
      then reuse cached.token
      else refresh refresh_token
          (if lasts cached.exp now expiry_margin_seconds then some cached.token else none)
  | none ↦ if lasts cached.exp now expiry_margin_seconds then reuse cached.token else sign_in
]

-- What the run did: a refresh and a browser sign-in with the session each gave, if it gave one, and a
-- session written to the cache.
pub data Event : Type 0 where
  refreshed : String → Option Session → Event
  signed_in : Option Session → Event
  wrote : CachedSession → Event

pub record Device : Type 1 where
  pub World : Type 0
  pub classes : CharClasses
  pub decoder : Decoder
  -- the identity provider, and the browser it opens
  pub sign_in : IdpSection → World → Result String Session × World
  pub refresh : IdpSection → String → World → Result String Session × World
  -- the cache file: no file, its text, or why it cannot be read
  pub read_file : World → Result String (Option String) × World
  pub write_file : String → World → Result String (Unit {0}) × World
  -- waits for the lock; other processes run meanwhile
  pub lock_file : World → Result String (Unit {0}) × World
  -- serde_json
  pub parse : String → Option CachedSession
  pub print : CachedSession → String

abbrev pub failed_as : {A : Type 0} → (String → Failure) → Result String A → Result Failure A
failed_as f (ok a) = ok a
failed_as f (err e) = err (f e)

abbrev pub session_of : {A : Type 0} → Result String A → Option A
session_of (ok a) = some a
session_of (err e) = none

module _ (d : Device) where
  open d use {World}

  pub record Env : Type 0 where
    pub world : World
    pub events : List Event

  abbrev pub Run : Type 0 → Type 0
  Run A = Env → Result Failure A × Env

module _ {d : Device} {A : Type 0} where
  abbrev pub pure : A → Run d A
  pure a env = (ok a, env)

  abbrev pub fail : Failure → Run d A
  fail f env = (err f, env)

  -- An operation of the file system.
  unfoldable pub file : (d.World → Result String A × d.World) → Run d A
  file f env = let (r, w) = f env.world in (failed_as file_failed r, record env { world = w })

module _ {d : Device} where
  abbrev pub note : Event → Run d (Unit {0})
  note e env = (ok tt, record env { events = e ∷ env.events })

  -- A call of the identity provider, noted with what it gave.
  unfoldable pub provider :
      (d.World → Result String Session × d.World)
      → (Option Session → Event)
      → Run d (Result String Session)
  provider f event env =
      let (r, w) = f env.world in
      (ok r, record { world = w; events = event (session_of r) ∷ env.events })

module _ {d : Device} {A B : Type 0} where
  abbrev pub continue : Result Failure A → (A → Run d B) → Run d B
  continue (ok a) f env = f a env
  continue (err e) f env = (err e, env)

  infixl 10 ◌>>=◌ ◌>>◌
  unfoldable pub ◌>>=◌ : Run d A → (A → Run d B) → Run d B
  unfolding file provider
  ◌>>=◌ m f env = let (r, env') = m env in continue r f env'

  abbrev pub ◌>>◌ : Run d A → Run d B → Run d B
  m >> n = m >>= λ _. n

module _ (d : Device) (idp : IdpSection) where
  -- `CachedSession::from_session`
  unfoldable pub from_session : Session → Result Failure CachedSession
  from_session session = elim (token_expiry d.decoder session.id_token) [
    | none ↦ err no_readable_expiry
    | some exp ↦ ok (record {
      issuer = normalized_issuer d.classes idp;
      client_id = trimmed_client_id d.classes idp;
      token = session.id_token;
      exp = exp;
      refresh_token = session.refresh_token;
    })
  ]

  abbrev pub renewal : Result Failure CachedSession → Result Failure Advanced
  renewal (ok cached) = ok (renewed cached)
  renewal (err e) = err e

  -- `renewed`
  abbrev pub renewed_from : Session → Run d Advanced
  renewed_from session env = (renewal (from_session session), env)

  unfoldable pub browser_sign_in : SignIn → Run d Session
  browser_sign_in cached_only = fail sign_in_required
  browser_sign_in allowed = do
    r ← provider (d.sign_in idp) signed_in
    λ env. (failed_as provider_failed r, env)

  unfoldable pub sign_in_again : SignIn → Run d Advanced
  sign_in_again mode = do session ← browser_sign_in mode; renewed_from session

  unfoldable pub after_refresh : SignIn → Result String Session → Option String → Run d Advanced
  after_refresh mode (ok session) _ = renewed_from session
  after_refresh mode (err e) (some token) = pure (reused token)
  after_refresh mode (err e) none = sign_in_again mode

  unfoldable pub take_step : SignIn → Step → Run d Advanced
  take_step mode (reuse token) = pure (reused token)
  take_step mode sign_in = sign_in_again mode
  take_step mode (refresh refresh_token still_valid) = do
    r ← provider (d.refresh idp refresh_token) (refreshed refresh_token)
    after_refresh mode r still_valid

  unfoldable pub advance : Option CachedSession → ℕ → SignIn → Run d Advanced
  advance cached now mode = take_step mode (next_step cached now)

  abbrev pub is_for : CachedSession → Bool
  is_for cached =
      cached.issuer == normalized_issuer d.classes idp
      && cached.client_id == trimmed_client_id d.classes idp

  abbrev pub parsed : Option String → Option CachedSession
  parsed none = none
  parsed (some contents) = filter_option is_for (d.parse contents)

  unfoldable pub read_cache : Run d (Option CachedSession)
  read_cache = do contents ← file d.read_file; pure (parsed contents)

  unfoldable pub write_cache : CachedSession → Run d (Unit {0})
  write_cache cached = do file (d.write_file (d.print cached)); note (wrote cached)

  unfoldable pub keep : Advanced → Run d String
  keep (reused token) = pure token
  keep (renewed cached) = do write_cache cached; pure cached.token

  unfoldable pub renew_under_lock : ℕ → SignIn → Run d String
  renew_under_lock now mode = do
    file d.lock_file
    cached ← read_cache
    advanced ← advance cached now mode
    keep advanced

  abbrev pub or_renew : ℕ → SignIn → Step → Run d String
  or_renew now mode (reuse token) = pure token
  or_renew now mode (refresh _ _) = renew_under_lock now mode
  or_renew now mode sign_in = renew_under_lock now mode

  -- `ensure_with`
  unfoldable pub ensure_with : ℕ → SignIn → Run d String
  ensure_with now mode =
      if not (is_configured d.classes idp)
      then fail not_configured
      else (do cached ← read_cache; or_renew now mode (next_step cached now))
