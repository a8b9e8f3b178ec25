-- ===== src/Mcp/Verdict/Decision.antt =====
-- When src/mcp/verdict.rs lets a tool run without asking.
use litellm_relay.Common.{
  String, ◌≡◌, ◌↔◌, ◌⊎◌, Bool, true, false, Option, none, some, List, [], ◌∷◌, All, arith,
  string_eq, contains, any,
}
use litellm_relay.Json.{Value, null, bool, get, is_object}
use litellm_relay.Mcp.Verdict.{
  allow, Listing, name_reads_only, hint_is_absent_or, annotations_permit, decide, words_read_only,
  hint_permits,
}
use litellm_relay.Mcp.Verdict.Vocabulary.{read_words, write_words}
use litellm_relay.Mcp.Verdict.Words.{CharClasses, name_words}

-- The words begin with a read word, and none of them is a write word.
abbrev pub ReadsOnly : List String → Type 0
ReadsOnly [] = ⊥
ReadsOnly (first ∷ rest) =
    (contains read_words first ≡ true)
    × All (λ word. contains write_words word ≡ false) (first ∷ rest)

-- A hint that is missing or null, or the Boolean value that is permitted.
abbrev pub HintFits : Bool → Option Value → Type 0
HintFits permitted none = Unit
HintFits permitted (some v) = (v ≡ null) ⊎ (v ≡ bool permitted)

-- No annotations, or an object whose hints say that the tool reads and does not destroy.
abbrev pub Harmless : Option Value → Type 0
Harmless none = Unit
Harmless (some v) =
    (is_object v ≡ true)
    × HintFits true (get "readOnlyHint" v)
    × HintFits false (get "destructiveHint" v)

hint_permits_iff :
    (permitted : Bool) (o : Option Value) → (hint_permits permitted o ≡ true) ↔ HintFits permitted o
hint_permits_iff permitted none = ground arith
hint_permits_iff permitted (some null) = ground arith
hint_permits_iff permitted (some (bool value)) = ground arith
hint_permits_iff permitted (some v) = ground arith

any-eq-false_iff :
    (p : String → Bool) (l : List String) → (any p l ≡ false) ↔ All (λ x. p x ≡ false) l
any-eq-false_iff p [] = ground arith
any-eq-false_iff p (x ∷ l) = ground (arith, any-eq-false_iff p l)

words_read_only_iff : (words : List String) → (words_read_only words ≡ true) ↔ ReadsOnly words
words_read_only_iff [] = ground arith
words_read_only_iff (first ∷ rest) =
    ground (arith, any-eq-false_iff (λ word. contains write_words word) rest)

hint_is_absent_or_iff :
    (v : Value) (hint : String) (permitted : Bool)
    → (hint_is_absent_or v hint permitted ≡ true) ↔ HintFits permitted (get hint v)
unfolding hint_is_absent_or
hint_is_absent_or_iff v hint permitted = hint_permits_iff permitted (get hint v)

annotations_permit_iff : (a : Option Value) → (annotations_permit a ≡ true) ↔ Harmless a
unfolding annotations_permit
annotations_permit_iff none = ground arith
annotations_permit_iff (some v) = ground (
  arith,
  hint_is_absent_or_iff v "readOnlyHint" true,
  hint_is_absent_or_iff v "destructiveHint" false,
)

-- A tool runs without asking exactly when it was listed once and either the user's configuration
-- allows it by name, or it belongs to a server, its own name begins with a read word and holds no
-- write word, and its annotations, if it has any, are an object whose two hints say that it reads
-- and does not destroy.
pub decide-eq-allow_iff :
    (classes : CharClasses) (l : Listing) (allowed : List String)
    → (decide classes l allowed ≡ allow) ↔ (
        (l.listed_twice ≡ false)
        × ((contains allowed l.gateway_name ≡ true)
            ⊎ ((l.grouped ≡ true)
                × ReadsOnly (name_words classes l.own_name)
                × Harmless l.annotations)))
unfolding decide name_reads_only
decide-eq-allow_iff classes l allowed = ground (
  arith,
  words_read_only_iff (name_words classes l.own_name),
  annotations_permit_iff l.annotations,
)
