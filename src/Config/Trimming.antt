-- ===== src/Config/Trimming.antt =====
-- A text that was trimmed (`non_empty` in src/config.rs).
use mathlib.Core.List.{reverse-append}
use litellm_relay.Common.{
  String, Char, ◌≡◌, ◌≢◌, ◌⊎◌, inl, inr, refl, sym, ap, ◌∙◌, Bool, false, Bool-cases, Option, none,
  some, List, [], ◌∷◌, ◌++◌, reverse, arith, ==_iff, string_eq,
}
use litellm_relay.Mcp.Verdict.Words.{CharClasses, chars}
use litellm_relay.AiTools.Idp.{of_chars, skip, skip_end, trim}
use litellm_relay.Config.Environments.{non_empty}

-- The list begins, and ends, with a character that is not among these.
abbrev pub BeginsOutside : (Char → Bool) → List Char → Type 0
BeginsOutside p cs = (c : Char) × (rest : List Char) × (cs ≡ c ∷ rest) × (p c ≡ false)

abbrev pub EndsOutside : (Char → Bool) → List Char → Type 0
EndsOutside p cs = (front : List Char) × (c : Char) × (cs ≡ front ++ c ∷ []) × (p c ≡ false)

-- The text has a character, and neither its first nor its last one is white space.
pub record IsTrimmed (classes : CharClasses) (text : String) : Type 0 where
  pub begins : BeginsOutside classes.is_whitespace (chars text)
  pub ends : EndsOutside classes.is_whitespace (chars text)

chars-of_chars : (cs : List Char) → chars (of_chars cs) ≡ cs
chars-of_chars [] = refl
chars-of_chars (c ∷ cs) = ap (λ r. c ∷ r) (chars-of_chars cs)

module _ (p : Char → Bool) where
  skip-BeginsOutside : (cs : List Char) → (skip p cs ≡ []) ⊎ BeginsOutside p (skip p cs)
  skip-BeginsOutside [] = inl refl
  skip-BeginsOutside (c ∷ cs) = elim (Bool-cases (p c)) [
    | inl e ↦ rw e (skip-BeginsOutside cs)
    | inr e ↦ rw e (inr (c, cs, refl, e))
  ]

  -- What ends with such a character still does when its start was skipped.
  skip-EndsOutside :
      (cs front : List Char) (c : Char)
      → p c ≡ false
      → cs ≡ front ++ c ∷ []
      → EndsOutside p (skip p cs)
  skip-EndsOutside cs [] c e same = rw same (rw e ([], c, refl, e))
  skip-EndsOutside cs (d ∷ front) c e same = rw same (elim (Bool-cases (p d)) [
    | inl a ↦ rw a (skip-EndsOutside (front ++ c ∷ []) front c e refl)
    | inr a ↦ rw a (d ∷ front, c, refl, e)
  ])

  reverse-EndsOutside : (cs : List Char) → BeginsOutside p cs → EndsOutside p (reverse cs)
  reverse-EndsOutside cs (c, rest, same, e) =
      (reverse rest, c, ap reverse same ∙ reverse-append (c ∷ []) rest, e)

  reverse-BeginsOutside : (cs : List Char) → EndsOutside p cs → BeginsOutside p (reverse cs)
  reverse-BeginsOutside cs (front, c, same, e) =
      (c, reverse front, ap reverse same ∙ reverse-append front (c ∷ []), e)

  abbrev Bounded : List Char → Type 0
  Bounded cs = BeginsOutside p cs × EndsOutside p cs

  begun-Bounded : (cs : List Char) → BeginsOutside p cs → Bounded (skip_end p cs)
  begun-Bounded cs b =
      let (front, c, same, e) = reverse-EndsOutside cs b in
      let left = skip-EndsOutside (reverse cs) front c e same in
      (
        reverse-BeginsOutside _ left,
        (elim (skip-BeginsOutside (reverse cs)) [
          | inl n ↦ absurd (empty_end left n)
          | inr f ↦ reverse-EndsOutside _ f
        ]),
      )
    where
      no_end : (front : List Char) (c : Char) → front ++ c ∷ [] ≡ [] → ⊥
      no_end [] c e = ground arith
      no_end (d ∷ front) c e = ground arith

      empty_end : {l : List Char} → EndsOutside p l → l ≡ [] → ⊥
      empty_end (front, c, same, e) n = no_end front c (sym same ∙ n)

  trimmed-Bounded :
      (cs : List Char) → (skip_end p (skip p cs) ≡ []) ⊎ Bounded (skip_end p (skip p cs))
  trimmed-Bounded cs = elim (skip-BeginsOutside cs) [
    | inl e ↦ inl (rw e refl)
    | inr b ↦ inr (begun-Bounded _ b)
  ]

module _ (classes : CharClasses) where
  -- A value that counts as given is trimmed.
  pub non_empty-IsTrimmed :
      (o : Option String) (t : String) → non_empty classes o ≡ some t → IsTrimmed classes t
  unfolding non_empty trim
  non_empty-IsTrimmed none t e = absurd (ground arith)
  non_empty-IsTrimmed (some value) t e =
      let trimmed = trim classes value in
      let is : t ≡ of_chars trimmed = ground (arith, ==_iff {A = String} (of_chars trimmed) "") in
      let holds : of_chars trimmed ≢ "" =
        ground (arith, ==_iff {A = String} (of_chars trimmed) "") in
      elim (trimmed-Bounded classes.is_whitespace (chars value)) [
        | inl n ↦ absurd (holds (ap of_chars n))
        | inr b ↦ rw (is) (record {
          begins = rw (chars-of_chars trimmed) b.0;
          ends = rw (chars-of_chars trimmed) b.1;
        })
      ]
