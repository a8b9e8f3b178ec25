-- ===== src/Common/Text.antt =====
-- `str::split_once` and `str::strip_prefix`, by characters.
use Prim.Native.Char.{Char, code}
use Prim.Native.String.{String, [], ◌∷◌, ◌++◌, count}
use mathlib.Core.Option.{Option, none, some}
use text.Mathlib.TextEquality.{Char-path}
use text.Mathlib.TextLemmas.{
  nil-append, cons-append, length-cons, append-eq-nil_iff, tail-eq_of_cons-eq,
}
use litellm_relay.Common.{
  ◌≡◌, ◌≢◌, ◌≤◌, subst, arith, inl, inr, sym, ◌∙◌, Option-cases, if◌then◌else◌, ◌==◌, ==_iff,
  ==_refl, nat_eq, map_option,
}

-- text.strip_prefix(prefix), the prefix first
unfoldable pub strip_prefix : String → String → Option String
strip_prefix [] text = some text
strip_prefix (p ∷ prefix) [] = none
strip_prefix (p ∷ prefix) (c ∷ text) = if code p == code c then strip_prefix prefix text else none

abbrev pub in_front : Char → String × String → String × String
in_front c (left, right) = (c ∷ left, right)

-- text.split_once(separator): at the first occurrence.
unfoldable pub split_once : String → String → Option (String × String)
unfolding strip_prefix
split_once [] separator = elim (strip_prefix separator []) [
  | some right ↦ some ([], right)
  | none ↦ none
]
split_once (c ∷ text) separator = elim (strip_prefix separator (c ∷ text)) [
  | some right ↦ some ([], right)
  | none ↦ map_option (in_front c) (split_once text separator)
]

pub strip_prefix-eq-some :
    (prefix text rest : String) → strip_prefix prefix text ≡ some rest → prefix ++ rest ≡ text
unfolding strip_prefix
strip_prefix-eq-some [] text rest h = ground (arith, nil-append rest)
strip_prefix-eq-some (p ∷ prefix) [] rest h = ground arith
strip_prefix-eq-some (p ∷ prefix) (c ∷ text) rest h = ground (
  arith,
  cons-append p prefix rest,
  ==_iff (code p) (code c),
  Char-path p c,
  strip_prefix-eq-some prefix text rest,
)

pub strip_prefix-append : (prefix rest : String) → strip_prefix prefix (prefix ++ rest) ≡ some rest
unfolding strip_prefix
strip_prefix-append [] rest = rw (nil-append rest)
strip_prefix-append (p ∷ prefix) rest =
    rw (cons-append p prefix rest)
      (ground (arith, ==_refl (code p), strip_prefix-append prefix rest))

-- The parts, with the separator between them, are the text.
pub split_once-eq-some :
    (text separator left right : String)
    → split_once text separator ≡ some (left, right)
    → left ++ (separator ++ right) ≡ text
unfolding split_once
split_once-eq-some [] separator left right h =
    ground (arith, nil-append (separator ++ right), strip_prefix-eq-some separator [] right)
split_once-eq-some (c ∷ text) separator left right h =
    elim (Option-cases (strip_prefix separator (c ∷ text))) [
      | inl e ↦ elim (Option-cases (split_once text separator)) [
        | inl f ↦ ground arith
        | inr ((l, r), f) ↦
            ground
              (arith, cons-append c l (separator ++ right), split_once-eq-some text separator l r)
      ]
      | inr (r, e) ↦
          ground (
            arith,
            nil-append (separator ++ right),
            strip_prefix-eq-some separator (c ∷ text) right,
          )
    ]

strip_prefix_of : (t prefix rest : String) → prefix ++ rest ≡ t → strip_prefix prefix t ≡ some rest
strip_prefix_of t prefix rest e =
    subst (λ u. strip_prefix prefix u ≡ some rest) e (strip_prefix-append prefix rest)

tail_of :
    (b c : Char) (before rest text : String)
    → (b ∷ before) ++ rest ≡ c ∷ text
    → before ++ rest ≡ text
tail_of b c before rest text e = tail-eq_of_cons-eq (sym (cons-append b before rest) ∙ e)

-- No occurrence of the separator begins before the one at which the text is split.
pub split_once-first :
    (text separator left right before after : String)
    → split_once text separator ≡ some (left, right)
    → before ++ (separator ++ after) ≡ text
    → count left ≤ count before
unfolding split_once
split_once-first [] separator left right before after h e =
    let is_empty : left ≡ [] = ground arith in rw is_empty (omega arith)
split_once-first (c ∷ text) separator left right [] after h e =
    let is_empty : left ≡ [] =
      ground (arith, nil-append (separator ++ after), strip_prefix_of (c ∷ text) separator after) in
    rw is_empty (omega arith)
split_once-first (c ∷ text) separator left right (b ∷ before) after h e =
    elim (Option-cases (strip_prefix separator (c ∷ text))) [
      | inl k ↦ elim (Option-cases (split_once text separator)) [
        | inl f ↦ ground arith
        | inr ((l, r), f) ↦
            let ih =
              split_once-first text separator l r before after f
                (tail_of b c before (separator ++ after) text e) in
            ground (arith, length-cons b before, length-cons c l)
      ]
      | inr (r, k) ↦ let is_empty : left ≡ [] = ground arith in rw is_empty (omega arith)
    ]

-- A text that is not split does not hold the separator.
pub split_once-eq-none :
    (text separator before after : String)
    → split_once text separator ≡ none
    → before ++ (separator ++ after) ≢ text
unfolding split_once
split_once-eq-none [] separator before after h e =
    let (_, e') = append-eq-nil_iff.0 e in ground (arith, strip_prefix_of [] separator after e')
split_once-eq-none (c ∷ text) separator [] after h e =
    ground (arith, nil-append (separator ++ after), strip_prefix_of (c ∷ text) separator after)
split_once-eq-none (c ∷ text) separator (b ∷ before) after h e =
    elim (Option-cases (strip_prefix separator (c ∷ text))) [
      | inl k ↦ elim (Option-cases (split_once text separator)) [
        | inl f ↦
            split_once-eq-none text separator before after f
              (tail_of b c before (separator ++ after) text e)
        | inr ((l, r), f) ↦ ground arith
      ]
      | inr (r, k) ↦ ground arith
    ]
