-- ===== src/Mcp/Verdict.antt =====
-- src/mcp/verdict.rs: whether a tool runs without asking the user.
pub mod Vocabulary
pub mod Words
pub mod Decision
pub mod Cutting
pub mod Tests
use Vocabulary.{read_words, write_words}
use Words.{CharClasses, name_words}
use litellm_relay.Common.{
  String, Bool, true, false, not, ◌&&◌, Option, none, some, List, [], ◌∷◌, if◌then◌else◌, string_eq,
  contains, any,
}
use litellm_relay.Json.{Value, null, bool, get, is_object}

pub data Verdict : Type 0 where
  allow ask : Verdict

pub record Listing : Type 0 where
  pub gateway_name : String
  pub own_name : String
  pub grouped : Bool
  pub annotations : Option Value
  pub listed_twice : Bool

abbrev pub starts_with_a_read_word : List String → Bool
starts_with_a_read_word [] = false
starts_with_a_read_word (first ∷ _) = contains read_words first

abbrev pub words_read_only : List String → Bool
words_read_only words =
    starts_with_a_read_word words && not (any (λ word. contains write_words word) words)

unfoldable pub name_reads_only : CharClasses → String → Bool
name_reads_only classes own_name = words_read_only (name_words classes own_name)

abbrev pub hint_permits : Bool → Option Value → Bool
hint_permits permitted none = true
hint_permits permitted (some null) = true
hint_permits permitted (some (bool value)) = if permitted then value else not value
hint_permits permitted (some _) = false

unfoldable pub hint_is_absent_or : Value → String → Bool → Bool
unfolding get
hint_is_absent_or annotations hint permitted = hint_permits permitted (get hint annotations)

unfoldable pub annotations_permit : Option Value → Bool
unfolding hint_is_absent_or
annotations_permit none = true
annotations_permit (some annotations) =
    is_object annotations
    && hint_is_absent_or annotations "readOnlyHint" true
    && hint_is_absent_or annotations "destructiveHint" false

unfoldable pub decide : CharClasses → Listing → List String → Verdict
decide classes listing allowed =
    if listing.listed_twice
    then ask
    else if contains allowed listing.gateway_name
    then allow
    else if listing.grouped
        && name_reads_only classes listing.own_name
        && annotations_permit listing.annotations
    then allow
    else ask
