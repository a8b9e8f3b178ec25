-- ===== src/Mcp/Verdict/Cutting.antt =====
-- What src/mcp/verdict.rs keeps of a text when it cuts it into words.
use Prim.Native.String.{◌++◌ as ◌<>◌}
use text.Mathlib.TextLemmas.{nil-append, append-nil, append_assoc}
use litellm_relay.Common.{
  String, Char, ◌≡◌, ◌≢◌, refl, sym, ap, Bool, Option, none, some, List, [], ◌∷◌, ◌++◌, ◌∙◌, All,
  All-concat, arith, if◌then◌else◌, Bool-cases, inl, inr, ◌==◌, ==_iff, string_eq, nat_eq,
}
use litellm_relay.Mcp.Verdict.Words.{
  CharClasses, chars, Cut, no_cut, flush, starts_a_camel_case_word, split_step, split_loop,
  split_words,
}

-- The words one after the other.
abbrev pub joined : List String → String
joined [] = ""
joined (w ∷ ws) = w <> joined ws

-- The characters that do not separate, each in lower case.
abbrev pub kept : CharClasses → (Char → Bool) → List Char → String
kept classes separates [] = ""
kept classes separates (c ∷ cs) =
    let rest = kept classes separates cs in
    if separates c then rest else classes.to_lowercase c <> rest

joined-append : (ws : List String) (w : String) → joined (ws ++ w ∷ []) ≡ joined ws <> w
joined-append [] w = cc (append-nil w, nil-append w)
joined-append (v ∷ ws) w = cc (joined-append ws w, append_assoc v (joined ws) w)

-- All that the loop holds, in order.
abbrev held : Cut → String
held cut = joined cut.words <> cut.word

held-flush : (cut : Cut) → held (flush cut) ≡ held cut
unfolding flush
held-flush cut = elim (Bool-cases (cut.word == "")) [
  | inl e ↦ rw e refl
  | inr e ↦ rw e (append-nil _ ∙ joined-append cut.words cut.word)
]

module _ (classes : CharClasses) (separates : Char → Bool) where
  held-split_step :
      (previous : Option Char) (c : Char) (behind : List Char) (cut : Cut)
      → held (split_step classes separates previous c behind cut)
        ≡ (if separates c then held cut else held cut <> classes.to_lowercase c)
  unfolding split_step
  held-split_step previous c behind cut = elim (Bool-cases (separates c)) [
    | inl e ↦ rw e (held-flush cut)
    | inr e ↦ rw e (elim (Bool-cases (starts_a_camel_case_word classes previous c behind)) [
      | inl f ↦
          rw f (sym (append_assoc _ _ _) ∙ ap (λ s. s <> classes.to_lowercase c) (held-flush cut))
      | inr f ↦ rw f (sym (append_assoc _ _ _))
    ])
  ]

  held-split_loop :
      (previous : Option Char) (cs : List Char) (cut : Cut)
      → held (split_loop classes separates previous cs cut) ≡ held cut <> kept classes separates cs
  unfolding split_loop
  held-split_loop previous [] cut = sym (append-nil (held cut))
  held-split_loop previous (c ∷ cs) cut =
      held-split_loop (some c) cs (split_step classes separates previous c cs cut)
      ∙ elim (Bool-cases (separates c)) [
        | inl e ↦
            ap (λ s. s <> kept classes separates cs) (held-split_step previous c cs cut) ∙ rw e refl
        | inr e ↦
            ap (λ s. s <> kept classes separates cs) (held-split_step previous c cs cut)
            ∙ rw e (append_assoc _ _ _)
      ]

  held-flush_words : (cut : Cut) → joined (flush cut).words ≡ held (flush cut)
  unfolding flush
  held-flush_words cut = elim (Bool-cases (cut.word == "")) [
    | inl e ↦
        rw e (sym (append-nil _) ∙ ap (λ s. joined cut.words <> s) (sym ((==_iff cut.word "").0 e)))
    | inr e ↦ rw e (sym (append-nil _))
  ]

  -- Cutting a text into words loses nothing and adds nothing: the words, one after the other, are the
  -- characters of the text that do not separate, each in lower case.
  pub joined-split_words :
      (text : String)
      → joined (split_words classes text separates) ≡ kept classes separates (chars text)
  unfolding split_words
  joined-split_words text =
      let cut = split_loop classes separates none (chars text) no_cut in
      held-flush_words cut
      ∙ held-flush cut
      ∙ held-split_loop none (chars text) no_cut
      ∙ nil-append (kept classes separates (chars text))

  words-flush : (cut : Cut) → All (λ w. w ≢ "") cut.words → All (λ w. w ≢ "") (flush cut).words
  unfolding flush
  words-flush cut h = elim (Bool-cases (cut.word == "")) [
    | inl e ↦ rw e h
    | inr e ↦ rw e (All-concat (λ w. w ≢ "") cut.words h (ground (arith, ==_iff cut.word "")))
  ]

  words-split_step :
      (previous : Option Char) (c : Char) (behind : List Char) (cut : Cut)
      → All (λ w. w ≢ "") cut.words
      → All (λ w. w ≢ "") (split_step classes separates previous c behind cut).words
  unfolding split_step
  words-split_step previous c behind cut h = ground (arith, words-flush cut h)

  words-split_loop :
      (previous : Option Char) (cs : List Char) (cut : Cut)
      → All (λ w. w ≢ "") cut.words
      → All (λ w. w ≢ "") (split_loop classes separates previous cs cut).words
  unfolding split_loop
  words-split_loop previous [] cut h = h
  words-split_loop previous (c ∷ cs) cut h =
      words-split_loop (some c) cs _ (words-split_step previous c cs cut h)

  -- No word is empty.
  pub split_words_nonempty :
      (text : String) → All (λ w. w ≢ "") (split_words classes text separates)
  unfolding split_words
  split_words_nonempty text =
      words-flush (split_loop classes separates none (chars text) no_cut)
        (words-split_loop none (chars text) no_cut tt)
