-- ===== src/Common/Action/Outcomes.antt =====
-- What fallible code with a state gives, and where it leads.
use litellm_relay.Common.{◌≡◌, refl, Bool, true, false, if◌then◌else◌}
use litellm_relay.Common.Action.{
  Result, ok, err, Action, pure, fail, lift, attempt, continue, ◌>>=◌, Keeps,
}

-- What `m` gives, whatever the state.
pub record Yields {S E A : Type 0} (P : Result E A → Type 0) (m : Action S E A) : Type 0 where
  pub result : (s : S) → P (m s).0

module _ {S E A : Type 0} {P : Result E A → Type 0} where
  pub Yields-pure : (a : A) → P (ok a) → Yields P (pure {S = S} a)
  unfolding pure
  Yields-pure a p = record { result = λ s. p }

  pub Yields-fail : (e : E) → P (err e) → Yields P (fail {S = S} e)
  unfolding fail
  Yields-fail e p = record { result = λ s. p }

  pub Yields-lift : (r : Result E A) → P r → Yields P (lift {S = S} r)
  unfolding lift
  Yields-lift r p = record { result = λ s. p }

module _ {S E A B : Type 0} {P : Result E B → Type 0} where
  Yields-continue :
      (r : Result E A) (f : A → Action S E B)
      → ((e : E) → P (err e))
      → ((a : A) → Yields P (f a))
      → Yields P (continue r f)
  Yields-continue (ok a) f pe k = record { result = (k a).result }
  Yields-continue (err e) f pe k = record { result = λ s. pe e }

  pub Yields-bind :
      (m : Action S E A) (f : A → Action S E B)
      → ((e : E) → P (err e))
      → ((a : A) → Yields P (f a))
      → Yields P (m >>= f)
  unfolding ◌>>=◌
  Yields-bind m f pe kf = record {
    result = λ s. let (r, s') = m s in (Yields-continue r f pe kf).result s';
  }

-- `m` succeeds where `P` holds, and leads to `Q`.
pub record Leads {S E A : Type 0} (P Q : S → Type 0) (m : Action S E A) : Type 0 where
  pub at : (s : S) → P s → (a : A) × ((m s).0 ≡ ok a) × Q (m s).1

module _ {S E A : Type 0} {P : S → Type 0} where
  pub Leads-pure : (a : A) → Leads P P (pure {S = S} {E = E} a)
  unfolding pure
  Leads-pure a = record { at = λ s p. (a, refl, p) }

  pub Leads-if :
      {Q : S → Type 0} (b : Bool) (m n : Action S E A)
      → (b ≡ true → Leads P Q m)
      → (b ≡ false → Leads P Q n)
      → Leads P Q (if b then m else n)
  Leads-if true m n lm ln = lm refl
  Leads-if false m n lm ln = ln refl

  pub Leads-either :
      {Q : S → Type 0} (b : Bool) (m n : Action S E A)
      → Leads P Q m
      → Leads P Q n
      → Leads P Q (if b then m else n)
  Leads-either true m n lm ln = lm
  Leads-either false m n lm ln = ln

  pub Leads-weaken :
      {Q R : S → Type 0} (m : Action S E A) → ((s : S) → Q s → R s) → Leads P Q m → Leads P R m
  Leads-weaken m f l = record { at = λ s p. let (a, e, q) = l.at s p in (a, e, f (m s).1 q) }

module _ {S E A B : Type 0} {Q R : S → Type 0} where
  Leads-continue :
      (r : Result E A) (f : A → Action S E B) {a : A}
      → r ≡ ok a
      → ((a : A) → Leads Q R (f a))
      → Leads Q R (continue r f)
  Leads-continue (ok a) f e k = k a
  Leads-continue (err e) f e' k = cc

  pub Leads-bind :
      {P : S → Type 0} (m : Action S E A) (f : A → Action S E B)
      → Leads P Q m
      → ((a : A) → Leads Q R (f a))
      → Leads P R (m >>= f)
  unfolding ◌>>=◌
  Leads-bind m f lm lf = record {
    at = λ s p. let (a, e, q) = lm.at s p in (Leads-continue (m s).0 f e lf).at (m s).1 q;
  }

module _ {S E A B : Type 0} {P : S → Type 0} where
  Keeps-yielded :
      (Y : Result E A → Type 0) (r : Result E A) (f : A → Action S E B)
      → Y r
      → ((a : A) → Y (ok a) → Keeps P (f a))
      → Keeps P (continue r f)
  Keeps-yielded Y (ok a) f y k = record { at = (k a y).at }
  Keeps-yielded Y (err e) f y k = record { at = λ s v. v }

  -- What `m` yields is known to the rest.
  pub Keeps-bind-Yields :
      {Y : Result E A → Type 0} (m : Action S E A) (f : A → Action S E B)
      → Yields Y m
      → Keeps P m
      → ((a : A) → Y (ok a) → Keeps P (f a))
      → Keeps P (m >>= f)
  unfolding ◌>>=◌
  Keeps-bind-Yields {Y} m f ym km kf = record {
    at = λ s v. let (r, s') = m s in (Keeps-yielded Y r f (ym.result s) kf).at s' (km.at s v);
  }

module _ {S E A B : Type 0} {P : Result E B → Type 0} where
  Yields-yielded :
      (Y : Result E A → Type 0) (r : Result E A) (f : A → Action S E B)
      → Y r
      → ((e : E) → P (err e))
      → ((a : A) → Y (ok a) → Yields P (f a))
      → Yields P (continue r f)
  Yields-yielded Y (ok a) f y pe k = record { result = (k a y).result }
  Yields-yielded Y (err e) f y pe k = record { result = λ s. pe e }

  pub Yields-bind-Yields :
      {Y : Result E A → Type 0} (m : Action S E A) (f : A → Action S E B)
      → Yields Y m
      → ((e : E) → P (err e))
      → ((a : A) → Y (ok a) → Yields P (f a))
      → Yields P (m >>= f)
  unfolding ◌>>=◌
  Yields-bind-Yields {Y} m f ym pe kf = record {
    result = λ s. let (r, s') = m s in (Yields-yielded Y r f (ym.result s) pe kf).result s';
  }

-- What is known of a result that was taken as a value.
abbrev pub Attempted : {E F A : Type 0} → (Result E A → Type 0) → Result F (Result E A) → Type 0
Attempted P (ok r) = P r
Attempted P (err e) = Unit

pub Yields-attempt :
    {S E F A : Type 0} {P : Result E A → Type 0} (m : Action S E A)
    → Yields P m
    → Yields (Attempted P) (attempt {F = F} m)
unfolding attempt
Yields-attempt m y = record { result = y.result }

module _ {S E A B : Type 0} {Q : S → Type 0} where
  Keeps-continued :
      (r : Result E A) (f : A → Action S E B) → ((a : A) → Keeps Q (f a)) → Keeps Q (continue r f)
  Keeps-continued (ok a) f k = k a
  Keeps-continued (err e) f k = record { at = λ s v. v }

  -- A step from `P` to `Q`, and then steps that keep `Q`.
  pub bind-after :
      {P : S → Type 0} (m : Action S E A) (f : A → Action S E B)
      → ((s : S) → P s → Q (m s).1)
      → ((a : A) → Keeps Q (f a))
      → (s : S) → P s
      → Q ((m >>= f) s).1
  unfolding ◌>>=◌
  bind-after m f first kf s p = let (r, s') = m s in (Keeps-continued r f kf).at s' (first s p)

-- From `P`, what `m` gives and where it ends are as `Post` says.
pub record Ensures {S E A : Type 0} (P : S → Type 0) (m : Action S E A)
    (Post : Result E A → S → Type 0) : Type 0 where
  pub at : (s : S) → P s → Post (m s).0 (m s).1

module _ {S E A B : Type 0} {P : S → Type 0} {Post : Result E B → S → Type 0} where
  Ensures-continue :
      (r : Result E A) (f : A → Action S E B)
      → ((e : E) (s : S) → Post (err e) s)
      → ((a : A) → Ensures P (f a) Post)
      → Ensures P (continue r f) Post
  Ensures-continue (ok a) f pe k = k a
  Ensures-continue (err e) f pe k = record { at = λ s p. pe e s }

  pub Ensures-bind :
      (m : Action S E A) (f : A → Action S E B)
      → Keeps P m
      → ((e : E) (s : S) → Post (err e) s)
      → ((a : A) → Ensures P (f a) Post)
      → Ensures P (m >>= f) Post
  unfolding ◌>>=◌
  Ensures-bind m f km pe kf = record {
    at = λ s p. let (r, s') = m s in (Ensures-continue r f pe kf).at s' (km.at s p);
  }

module _ {S E A B : Type 0} {P : S → Type 0} {Post : Result E B → S → Type 0} where
  Ensures-succeeded :
      (r : Result E A) (f : A → Action S E B) {a : A}
      → r ≡ ok a
      → ((a : A) → Ensures P (f a) Post)
      → Ensures P (continue r f) Post
  Ensures-succeeded (ok a) f e k = k a
  Ensures-succeeded (err e) f e' k = cc

  -- After a step that succeeds, only the rest can fail.
  pub Ensures-after :
      (m : Action S E A) (f : A → Action S E B)
      → Leads P P m
      → ((a : A) → Ensures P (f a) Post)
      → Ensures P (m >>= f) Post
  unfolding ◌>>=◌
  Ensures-after m f lm kf = record {
    at = λ s p. let (a, e, q) = lm.at s p in (Ensures-succeeded (m s).0 f e kf).at (m s).1 q;
  }

module _ {S E A B : Type 0} {Post : Result E B → S → Type 0} where
  Ensures-resumed :
      (Mid : Result E A → S → Type 0) (r : Result E A) (f : A → Action S E B) (s : S)
      → Mid r s
      → ((e : E) (s : S) → Post (err e) s)
      → ((a : A) → Ensures (Mid (ok a)) (f a) Post)
      → Post (continue r f s).0 (continue r f s).1
  Ensures-resumed Mid (ok a) f s m pe k = (k a).at s m
  Ensures-resumed Mid (err e) f s m pe k = pe e s

  -- What `m` gives and where it ends is known to the rest.
  pub Ensures-then :
      {P : S → Type 0} {Mid : Result E A → S → Type 0} (m : Action S E A) (f : A → Action S E B)
      → Ensures P m Mid
      → ((e : E) (s : S) → Post (err e) s)
      → ((a : A) → Ensures (Mid (ok a)) (f a) Post)
      → Ensures P (m >>= f) Post
  unfolding ◌>>=◌
  Ensures-then {Mid} m f em pe kf = record {
    at = λ s p. let (r, s') = m s in Ensures-resumed Mid r f s' (em.at s p) pe kf;
  }
