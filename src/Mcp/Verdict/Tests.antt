-- ===== src/Mcp/Verdict/Tests.antt =====
-- Runs of src/mcp/verdict.rs on the names that its own tests use.
use Prim.Native.String.{char_at}
use litellm_relay.Common.{
  String, Char, code, ℕ, ◌-◌, ◌≡◌, ◌↔◌, ◌⊎◌, ◌≢◌, refl, Bool, true, false, not, ◌&&◌, ◌||◌, some,
  [], ◌∷◌, if◌then◌else◌, leb, eq_ℕ, contains, string_eq, nat_eq, All,
}
use litellm_relay.Json.{bool, object, field, end}
use litellm_relay.Mcp.Verdict.{Listing, allow, ask, decide, name_reads_only, annotations_permit}
use litellm_relay.Mcp.Verdict.Vocabulary.{read_words, write_words}
use litellm_relay.Mcp.Verdict.Words.{CharClasses, chars, name_words, split_words}
use litellm_relay.Mcp.Verdict.Decision.{ReadsOnly, Harmless, decide-eq-allow_iff}
use litellm_relay.Mcp.Verdict.Cutting.{joined, kept, joined-split_words, split_words_nonempty}

abbrev is_upper : ℕ → Bool
is_upper c = leb b'A' c && leb c b'Z'

abbrev is_lower : ℕ → Bool
is_lower c = leb b'a' c && leb c b'z'

abbrev is_digit : ℕ → Bool
is_digit c = leb b'0' c && leb c b'9'

abbrev lower : Char → String
lower c =
    if is_upper (code c)
    then String.◌∷◌ (char_at "abcdefghijklmnopqrstuvwxyz" (code c - b'A')) ""
    else String.◌∷◌ c ""

-- The classes of the characters of ASCII.
abbrev pub ascii : CharClasses
ascii = record {
  is_alphanumeric = λ c. is_upper (code c) || is_lower (code c) || is_digit (code c);
  is_uppercase = λ c. is_upper (code c);
  is_lowercase = λ c. is_lower (code c);
  is_numeric = λ c. is_digit (code c);
  is_whitespace = λ c. eq_ℕ (code c) b' ' || (leb 9 (code c) && leb (code c) 13);
  to_lowercase = lower;
}

camel_case : name_words ascii "getHTTPStatus_v2-Now" ≡ "get" ∷ "http" ∷ "status" ∷ "v2" ∷ "now" ∷ []
unfolding name_words
camel_case = refl

abbrev issue : Listing
issue = record {
  gateway_name = "github-getIssue";
  own_name = "getIssue";
  grouped = true;
  annotations = some (object (field "readOnlyHint" (bool true) end));
  listed_twice = false;
}

decide_tests :
    (decide ascii issue [] ≡ allow)
    × (decide ascii (record issue { own_name = "getOrDeleteIssue" }) [] ≡ ask)
    × (decide ascii (record issue { own_name = "getOrDeleteIssue" }) ("github-getIssue" ∷ [])
        ≡ allow)
    × (decide ascii (record issue { listed_twice = true }) ("github-getIssue" ∷ []) ≡ ask)
    × (decide ascii (record issue { grouped = false }) [] ≡ ask)
unfolding decide name_reads_only annotations_permit name_words read_words write_words
decide_tests = (refl, refl, refl, refl, refl)

decide-eq-allow_iff_example : (decide ascii issue [] ≡ allow) ↔ (
    (issue.listed_twice ≡ false)
    × ((contains [] issue.gateway_name ≡ true)
        ⊎ ((issue.grouped ≡ true)
            × ReadsOnly (name_words ascii issue.own_name)
            × Harmless issue.annotations)))
decide-eq-allow_iff_example = decide-eq-allow_iff ascii issue []

joined-split_words_example :
    joined
      (split_words ascii "getHTTPStatus now" (λ c. not (is_lower (code c) || is_upper (code c))))
    ≡ kept ascii (λ c. not (is_lower (code c) || is_upper (code c))) (chars "getHTTPStatus now")
joined-split_words_example =
    joined-split_words ascii (λ c. not (is_lower (code c) || is_upper (code c))) "getHTTPStatus now"

split_words_nonempty_example :
    All (λ w. w ≢ "") (split_words ascii "Get--HTTPStatus" (λ c. eq_ℕ (code c) b'-'))
split_words_nonempty_example =
    split_words_nonempty ascii (λ c. eq_ℕ (code c) b'-') "Get--HTTPStatus"
