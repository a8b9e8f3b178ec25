-- ===== src/Broker/Caller/Walk.antt =====
-- Who is let through (`walk` and `effective_callers` in src/broker/caller.rs).
use litellm_relay.Common.{
  String, Char, ℕ, zero, suc, ◌+◌, ◌<◌, ◌≡◌, inl, inr, refl, ap, subst, ◌∙◌, Bool, true, Bool-cases,
  Option-cases, Option, none, some, List, [], ◌∷◌, map, arith, is_some, In, In-filter,
}
use litellm_relay.Broker.Caller.{
  AllowedCaller, requirement, requirement_text, effective_callers, Subject, Peer, ProcessTable,
  Verdict, allowed, refused, chain, requirements, find_valid, find_level, walk,
}
use litellm_relay.Broker.Caller.Chain.{At, Nth, Nth-chain}

-- A listed caller's requirement can be written, and the subject meets it.
abbrev pub Admits :
    ProcessTable → (Char → Bool) → List AllowedCaller → Subject → AllowedCaller → Type 0
Admits table is_control callers s c =
    In c callers
    × ((r : String) × (requirement is_control c ≡ some r) × (table.validates s r ≡ true))

-- What a verdict says of the processes.
abbrev pub Walked : ProcessTable → (Char → Bool) → List AllowedCaller → Peer → Verdict → Type 0
Walked table is_control callers peer (allowed c level) =
    ((s : Subject) × At table peer level s × Admits table is_control callers s c)
    × ((n : ℕ) (s : Subject) (d : AllowedCaller)
        → n < level
        → At table peer n s
        → ¬ Admits table is_control callers s d)
Walked table is_control callers peer (refused texts) =
    (texts ≡ map table.describe (chain table peer))
    × ((n : ℕ) (s : Subject) (d : AllowedCaller)
        → At table peer n s
        → ¬ Admits table is_control callers s d)

module _ (table : ProcessTable) (is_control : Char → Bool) where
  find_valid-eq-some :
      (callers : List AllowedCaller) (s : Subject) (c : AllowedCaller)
      → find_valid table (requirements table is_control callers) s ≡ some c
      → Admits table is_control callers s c
  unfolding find_valid requirements
  find_valid-eq-some [] s c e = ground arith
  find_valid-eq-some (d ∷ callers) s c e = elim (Option-cases (requirement is_control d)) [
    | inl r ↦ let (i, a) = find_valid-eq-some callers s c (ground arith) in (inr i, a)
    | inr (r, e') ↦ elim (Bool-cases (table.validates s r)) [
      | inl v ↦
          let same : c ≡ d = ground arith in
          (inl same, (r, ap (λ b. requirement is_control b) same ∙ e', v))
      | inr v ↦ let (i, a) = find_valid-eq-some callers s c (ground arith) in (inr i, a)
    ]
  ]

  find_valid-eq-none :
      (callers : List AllowedCaller) (s : Subject) (c : AllowedCaller)
      → find_valid table (requirements table is_control callers) s ≡ none
      → ¬ Admits table is_control callers s c
  unfolding find_valid requirements
  find_valid-eq-none [] s c e h = h.0
  find_valid-eq-none (d ∷ callers) s c e h = ground (arith, find_valid-eq-none callers s c)

  none_earlier :
      (rs : List (AllowedCaller × String)) (t : Subject) (l : List Subject) (n : ℕ)
      → find_valid table rs t ≡ none
      → ((m : ℕ) (u : Subject) → m < n → Nth l m u → find_valid table rs u ≡ none)
      → (m : ℕ) (u : Subject) → m < suc n
      → Nth (t ∷ l) m u
      → find_valid table rs u ≡ none
  none_earlier rs t l n e before zero u lt h = ground arith
  none_earlier rs t l n e before (suc m) u lt h = before m u (omega arith) h

  find_level-eq-some :
      (rs : List (AllowedCaller × String)) (k : ℕ) (l : List Subject) (v : Verdict)
      → find_level table rs k l ≡ some v
      → (c : AllowedCaller) × (n : ℕ) × (s : Subject) × (v ≡ allowed c (n + k))
        × Nth l n s
        × (find_valid table rs s ≡ some c)
        × ((m : ℕ) (t : Subject) → m < n → Nth l m t → find_valid table rs t ≡ none)
  unfolding find_level
  find_level-eq-some rs k [] v e = ground arith
  find_level-eq-some rs k (t ∷ l) v e = elim (Option-cases (find_valid table rs t)) [
    | inl e' ↦
        let (c, n, s, e1, nth, valid, before) = find_level-eq-some rs (suc k) l v (ground arith) in
        (
          c,
          suc n,
          s,
          e1 ∙ ap (λ j. allowed c j) (omega arith),
          nth,
          valid,
          none_earlier rs t l n e' before,
        )
    | inr (c, e') ↦ (c, 0, t, ground arith, refl, e', λ m u lt. absurd (omega arith))
  ]

  find_level-eq-none :
      (rs : List (AllowedCaller × String)) (k : ℕ) (l : List Subject)
      → find_level table rs k l ≡ none
      → (n : ℕ) (s : Subject) → Nth l n s
      → find_valid table rs s ≡ none
  unfolding find_level
  find_level-eq-none rs k [] e n s h = elim h [ ]
  find_level-eq-none rs k (t ∷ l) e zero s h = ground arith
  find_level-eq-none rs k (t ∷ l) e (suc n) s h =
      find_level-eq-none rs (suc k) l (ground arith) n s h

  -- The walk lets a caller through at a level only if it is listed, its requirement can be written, and
  -- the process at that level meets it, the peer itself at level 0 and the nearest four ancestors above
  -- it, and if no nearer process meets the requirement of any listed caller. It refuses only if none of
  -- those processes meets the requirement of any listed caller, and names all of them.
  pub walk-Walked :
      (callers : List AllowedCaller) (peer : Peer)
      → Walked table is_control callers peer (walk table is_control callers peer)
  unfolding walk
  walk-Walked callers peer =
      let rs = requirements table is_control callers in
      elim (Option-cases (find_level table rs 0 (chain table peer))) [
        | inl e ↦ rw e (
          refl,
          λ n s d at.
              find_valid-eq-none callers s d (
                find_level-eq-none rs 0 (chain table peer) e n s ((Nth-chain table peer n s).1 at)),
        )
        | inr (v, e) ↦
            let (c, n, s, e', nth, valid, before) =
              find_level-eq-some rs 0 (chain table peer) v e in
            let named : v ≡ allowed c n = e' ∙ ap (λ j. allowed c j) (omega arith) in
            rw (e, named)
              (
                (s, (Nth-chain table peer n s).0 nth, find_valid-eq-some callers s c valid),
                λ m t d lt at.
                    find_valid-eq-none callers t d
                      (before m t lt ((Nth-chain table peer m t).1 at)),
              )
      ]

requirement-eq-some :
    (is_control : Char → Bool) (c : AllowedCaller) (r : String)
    → requirement is_control c ≡ some r
    → r ≡ requirement_text c.identifier c.team_id
unfolding requirement
requirement-eq-some is_control c r e = ground arith

In-effective_callers :
    (managed : Option (List AllowedCaller)) (c : AllowedCaller)
    → In c (effective_callers managed)
    → is_some c.team_id ≡ true
unfolding effective_callers
In-effective_callers (some callers) c i =
    ((In-filter (λ (d : AllowedCaller). is_some d.team_id) c callers).0 i).1
In-effective_callers none c i = ground arith

-- Whoever is let through by the managed list, or by the built-in one where none is managed, is signed by a
-- team that its entry names: an identifier alone admits nobody.
pub walk-anchored :
    (table : ProcessTable) (is_control : Char → Bool) (managed : Option (List AllowedCaller))
    (peer : Peer) (c : AllowedCaller) (level : ℕ)
    → walk table is_control (effective_callers managed) peer ≡ allowed c level
    → (team : String) × (s : Subject) × (c.team_id ≡ some team)
      × At table peer level s
      × (table.validates s (requirement_text c.identifier (some team)) ≡ true)
walk-anchored table is_control managed peer c level e =
    let (found, before) =
      subst (Walked table is_control (effective_callers managed) peer) e
        (walk-Walked table is_control (effective_callers managed) peer) in
    let (s, at, admitted) = found in
    let (i, met) = admitted in
    let (r, written, valid) = met in
    elim (Option-cases c.team_id) [
      | inl none_named ↦ absurd (ground (arith, In-effective_callers managed c i))
      | inr (team, named) ↦ (
        team,
        s,
        named,
        at,
        subst (λ t. table.validates s t ≡ true)
            (requirement-eq-some is_control c r written ∙ ap (requirement_text c.identifier) named)
            valid,
      )
    ]
