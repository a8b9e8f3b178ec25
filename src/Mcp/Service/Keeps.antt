-- ===== src/Mcp/Service/Keeps.antt =====
-- Invariants of the service's actions, one rule for each way to build an action.
use litellm_relay.Common.{Bool, true, false, if◌then◌else◌}
use litellm_relay.Mcp.Service.Types.{McpRefusal, State}
use litellm_relay.Common.Action.{Result, ok, err}
use litellm_relay.Mcp.Service.Host.{Host, Env, Exec, pure, refuse, lift, gets, continue, ◌>>=◌}

-- `m` keeps `P`, whether it succeeds or refuses.
pub record Keeps {h : Host} {A : Type 0} (P : Env h → Type 0) (m : Exec h A) : Type 0 where
  pub at : (env : Env h) → P env → P (m env).1

module _ {h : Host} {A : Type 0} {P : Env h → Type 0} where
  pub Keeps-pure : (a : A) → Keeps P (pure {h = h} a)
  unfolding pure
  Keeps-pure a = record { at = λ env v. v }

  pub Keeps-refuse : (r : McpRefusal) → Keeps P (refuse {h = h} {A = A} r)
  unfolding refuse
  Keeps-refuse r = record { at = λ env v. v }

  pub Keeps-lift : (r : Result McpRefusal A) → Keeps P (lift {h = h} r)
  unfolding lift
  Keeps-lift r = record { at = λ env v. v }

  pub Keeps-gets : (f : State → A) → Keeps P (gets {h = h} f)
  unfolding gets
  Keeps-gets f = record { at = λ env v. v }

  pub Keeps-if : (b : Bool) (m n : Exec h A) → Keeps P m → Keeps P n → Keeps P (if b then m else n)
  Keeps-if true m n km kn = km
  Keeps-if false m n km kn = kn

module _ {h : Host} {A B : Type 0} {P : Env h → Type 0} where
  Keeps-continue :
      (r : Result McpRefusal A) (f : A → Exec h B)
      → ((a : A) → Keeps P (f a))
      → Keeps P (continue {h = h} r f)
  Keeps-continue (ok a) f k = record { at = (k a).at }
  Keeps-continue (err r) f k = record { at = λ env v. v }

  pub Keeps-bind :
      (m : Exec h A) (f : A → Exec h B) → Keeps P m → ((a : A) → Keeps P (f a)) → Keeps P (m >>= f)
  unfolding ◌>>=◌
  Keeps-bind m f km kf = record {
    at = λ env v. let (r, env') = m env in (Keeps-continue r f kf).at env' (km.at env v);
  }

pub ruleset keeps_rules = (Keeps-pure, Keeps-refuse, Keeps-lift, Keeps-gets, Keeps-if, Keeps-bind)
