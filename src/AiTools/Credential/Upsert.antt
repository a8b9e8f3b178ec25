-- ===== src/AiTools/Credential/Upsert.antt =====
-- The store after a credential is put in (`upsert` in src/ai_tools/gateway_credential.rs).
use litellm_relay.Common.{
  ◌≡◌, refl, Bool, true, false, not, some, List, [], ◌∷◌, ◌++◌, if◌then◌else◌, Eq, ◌==◌, ==_iff,
  string_eq, option_eq, filter, find, arith, Bool-cases, inl, inr, All, ap, ◌∙◌,
}
use litellm_relay.AiTools.Credential.Types.{CredentialRequest, CachedCredential, matches}
use litellm_relay.AiTools.Credential.Resolve.{cached_for}
use litellm_relay.AiTools.Credential.Store.{same_place, upsert}

==-comm {ℓ} : {A : Type ℓ} ⦃e : Eq A⦄ (a b : A) → (a == b) ≡ (b == a)
==-comm a b = ground (arith, ==_iff a b, ==_iff b a)

module _ {A : Type 0} (p q : A → Bool) (a : A) where
  find-replaced :
      (xs : List A)
      → p a ≡ true
      → ((x : A) → p x ≡ true → q x ≡ false)
      → find p (filter q xs ++ a ∷ []) ≡ some a
  unfolding find
  find-replaced [] e h = rw e
  find-replaced (x ∷ xs) e h = elim (Bool-cases (q x)) [
    | inl t ↦ rw t (ground (arith, h x, find-replaced xs e h))
    | inr f ↦ rw f (find-replaced xs e h)
  ]

  find-kept :
      (xs : List A)
      → p a ≡ false
      → ((x : A) → p x ≡ true → q x ≡ true)
      → find p (filter q xs ++ a ∷ []) ≡ find p xs
  unfolding find
  find-kept [] e h = rw e
  find-kept (x ∷ xs) e h = elim (Bool-cases (q x)) [
    | inl t ↦ rw t (ground (arith, find-kept xs e h))
    | inr f ↦ rw f (ground (arith, h x, find-kept xs e h))
  ]

matches-same_place :
    (x c : CachedCredential) (request : CredentialRequest)
    → matches x request ≡ true
    → not (same_place x c) ≡ not (matches c request)
matches-same_place x c request e =
    let at : x.gateway_url ≡ request.gateway_url =
      ground (arith, ==_iff x.gateway_url request.gateway_url) in
    let of : x.team ≡ request.team = ground (arith, ==_iff x.team request.team) in
    rw (at, of) (simp (==-comm request.gateway_url c.gateway_url, ==-comm request.team c.team) refl)

-- The credential that was put in answers for its Gateway and team, and every other request finds what it
-- found before.
pub cached_for-upsert :
    (store : List CachedCredential) (c : CachedCredential) (request : CredentialRequest)
    → cached_for (upsert store c) request
      ≡ (if matches c request then some c else cached_for store request)
unfolding cached_for upsert
cached_for-upsert store c request = elim (Bool-cases (matches c request)) [
  | inl t ↦ rw t (
      find-replaced (λ x. matches x request) (λ x. not (same_place x c)) c store t
        (λ x e. matches-same_place x c request e ∙ ap not t))
  | inr f ↦ rw f (
      find-kept (λ x. matches x request) (λ x. not (same_place x c)) c store f
        (λ x e. matches-same_place x c request e ∙ ap not f))
]

-- No two credentials are of one Gateway and team.
abbrev pub Distinct : List CachedCredential → Type 0
Distinct [] = Unit
Distinct (x ∷ store) = All (λ (y : CachedCredential). same_place x y ≡ false) store × Distinct store

All-upsert :
    (x : CachedCredential) (store : List CachedCredential) (c : CachedCredential)
    → same_place x c ≡ false
    → All (λ (y : CachedCredential). same_place x y ≡ false) store
    → All (λ (y : CachedCredential). same_place x y ≡ false) (upsert store c)
unfolding upsert
All-upsert x [] c e h = (e, tt)
All-upsert x (y ∷ store) c e (d, h) = elim (Bool-cases (same_place y c)) [
  | inl t ↦ rw t (All-upsert x store c e h)
  | inr f ↦ rw f (d, All-upsert x store c e h)
]

-- A store with one credential at most for each Gateway and team is still one after `upsert`.
pub upsert-Distinct :
    (store : List CachedCredential) (c : CachedCredential)
    → Distinct store
    → Distinct (upsert store c)
unfolding upsert
upsert-Distinct [] c h = (tt, tt)
upsert-Distinct (x ∷ store) c (h, d) = elim (Bool-cases (same_place x c)) [
  | inl t ↦ rw t (upsert-Distinct store c d)
  | inr f ↦ rw f (All-upsert x store c f h, upsert-Distinct store c d)
]
