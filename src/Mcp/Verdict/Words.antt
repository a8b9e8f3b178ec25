-- ===== src/Mcp/Verdict/Words.antt =====
-- src/mcp/verdict.rs: how a name or a text is cut into lower-case words.
use Prim.Native.String.{◌++◌ as ◌<>◌}
use litellm_relay.Common.{
  String, Char, code, ℕ, Bool, false, not, ◌&&◌, ◌||◌, Option, none, some, List, [], ◌∷◌, ◌++◌,
  if◌then◌else◌, ◌==◌, string_eq, nat_eq, contains,
}

-- The Unicode tables of the standard library's `char`: the program's behaviour is stated for any.
pub record CharClasses : Type 0 where
  pub is_alphanumeric : Char → Bool
  pub is_uppercase : Char → Bool
  pub is_lowercase : Char → Bool
  pub is_numeric : Char → Bool
  pub is_whitespace : Char → Bool
  pub to_lowercase : Char → String

-- str::chars
abbrev pub chars : String → List Char
chars String.[] = []
chars (String.◌∷◌ c s) = c ∷ chars s

-- NAME_SEPARATORS
abbrev pub name_separators : List ℕ
name_separators = b'_' ∷ b'-' ∷ b'.' ∷ b'/' ∷ b' ' ∷ []

-- What the loop holds: the words that are finished and the one that grows.
pub record Cut : Type 0 where
  pub words : List String
  pub word : String

abbrev pub no_cut : Cut
no_cut = record { words = []; word = "" }

unfoldable pub flush : Cut → Cut
flush cut =
    if cut.word == "" then cut else record cut { words = cut.words ++ cut.word ∷ []; word = "" }

module _ (classes : CharClasses) where
  open classes use {is_alphanumeric, is_uppercase, is_lowercase, is_numeric, to_lowercase}

  abbrev pub next_is_lowercase : List Char → Bool
  next_is_lowercase [] = false
  next_is_lowercase (next ∷ _) = is_lowercase next

  -- The character before, the one at the index, and those behind it.
  unfoldable pub starts_a_camel_case_word : Option Char → Char → List Char → Bool
  starts_a_camel_case_word none character behind = false
  starts_a_camel_case_word (some previous) character behind =
      let after_a_lowercase_or_digit = is_lowercase previous || is_numeric previous in
      let ends_an_acronym = is_uppercase previous && next_is_lowercase behind in
      if not (is_uppercase character) then false else after_a_lowercase_or_digit || ends_an_acronym

  abbrev pub grow : Char → Cut → Cut
  grow character cut = record cut { word = cut.word <> to_lowercase character }

  -- One round of the loop of `split_words`.
  unfoldable pub split_step : (Char → Bool) → Option Char → Char → List Char → Cut → Cut
  split_step separates previous character behind cut =
      if separates character
      then flush cut
      else grow character
          (if starts_a_camel_case_word previous character behind then flush cut else cut)

  unfoldable pub split_loop : (Char → Bool) → Option Char → List Char → Cut → Cut
  split_loop separates previous [] cut = cut
  split_loop separates previous (character ∷ behind) cut =
      split_loop separates (some character) behind
        (split_step separates previous character behind cut)

  unfoldable pub split_words : String → (Char → Bool) → List String
  unfolding split_loop split_step flush starts_a_camel_case_word
  split_words text separates = (flush (split_loop separates none (chars text) no_cut)).words

  unfoldable pub name_words : String → List String
  unfolding split_words
  name_words name = split_words name (λ character. contains name_separators (code character))

  unfoldable pub text_words : String → List String
  unfolding split_words
  text_words text = split_words text (λ character. not (is_alphanumeric character))
