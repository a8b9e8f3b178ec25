-- ===== src/Broker/Caller/Chain.antt =====
-- The processes that the walk looks at (`chain` in src/broker/caller.rs).
use litellm_relay.Common.{ℕ, zero, suc, ◌<◌, ◌≡◌, ◌↔◌, Option, none, some, List, [], ◌∷◌, arith}
use litellm_relay.Broker.Caller.{Subject, pid, Peer, ProcessTable, ancestors, first_subject, chain}

-- `q` is reached from the link by following `n` further parents, and every process on the way is
-- another one than 0 and 1.
abbrev pub IsReached : ProcessTable → ℕ → Option ℕ → ℕ → Type 0
IsReached table zero link q = (link ≡ some q) × (1 < q)
IsReached table (suc n) link q =
    (p : ℕ) × (link ≡ some p) × (1 < p) × IsReached table n (table.parent p) q

-- The subject that stands at a level: the peer itself, or one of its four nearest ancestors.
abbrev pub At : ProcessTable → Peer → ℕ → Subject → Type 0
At table peer zero s = s ≡ first_subject table peer
At table peer (suc n) s =
    (n < 4) × ((q : ℕ) × (s ≡ pid q) × IsReached table n (table.parent peer.process) q)

-- The element of a list at a place.
abbrev pub Nth : {A : Type 0} → List A → ℕ → A → Type 0
Nth [] n a = ⊥
Nth (x ∷ l) zero a = a ≡ x
Nth (x ∷ l) (suc n) a = Nth l n a

module _ (table : ProcessTable) where
  Nth-ancestors :
      (k n : ℕ) (link : Option ℕ) (s : Subject)
      → Nth (ancestors table k link) n s
        ↔ (n < k) × ((q : ℕ) × (s ≡ pid q) × IsReached table n link q)
  unfolding ancestors
  Nth-ancestors zero n link s = ground arith
  Nth-ancestors (suc k) zero none s = ground arith
  Nth-ancestors (suc k) (suc n) none s = ground arith
  Nth-ancestors (suc k) zero (some p) s = ground arith
  Nth-ancestors (suc k) (suc n) (some p) s = ground (arith, Nth-ancestors k n (table.parent p) s)

  pub Nth-chain :
      (peer : Peer) (n : ℕ) (s : Subject) → Nth (chain table peer) n s ↔ At table peer n s
  unfolding chain
  Nth-chain peer zero s = ((λ e. e), λ e. e)
  Nth-chain peer (suc n) s = Nth-ancestors 4 n (table.parent peer.process) s
