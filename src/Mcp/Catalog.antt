-- ===== src/Mcp/Catalog.antt =====
-- src/mcp/catalog.rs: the tools that the Gateway lists, by server, with the verdict on each.
pub mod Names
pub mod Reload
pub mod Contents
pub mod Ranking
pub mod Counts
pub mod Tests
use litellm_relay.Common.{
  String, ℕ, ◌+◌, ◌*◌, compare, Ordering, Bool, true, false, not, ◌||◌, Option, none, some, List,
  [], ◌∷◌, map, if◌then◌else◌, ◌==◌, string_eq, contains, filter, take, length, ltb, of_bool,
  unwrap_or,
}
use litellm_relay.Common.Sorted.{BTreeMap, lookup, insert, values, insert_text, text_set}
use litellm_relay.Common.Text.{split_once}
use litellm_relay.Json.{Value, null, object, field, end}
use litellm_relay.Mcp.Verdict.{Verdict, allow, ask, Listing, decide}
use litellm_relay.Mcp.Verdict.Words.{CharClasses, name_words, text_words}
use Prim.Native.String.{compare as compare_text}

-- src/mcp/upstream.rs: a tool as the Gateway lists it.
pub record UpstreamTool : Type 0 where
  pub name : String
  pub description : Option String
  pub input_schema : Value
  pub annotations : Option Value

abbrev pub ungrouped_server : String
ungrouped_server = "ungrouped"

abbrev pub search_result_limit : ℕ
search_result_limit = 5

abbrev pub name_word_score : ℕ
name_word_score = 3

abbrev pub server_word_score : ℕ
server_word_score = 2

abbrev pub description_word_score : ℕ
description_word_score = 1

abbrev pub servers_start_active : Bool
servers_start_active = false

-- The server's name, and the tool's own.
unfoldable pub split_gateway_name : String → String → String × String
unfolding split_once
split_gateway_name gateway_name separator =
    if separator == ""
    then (ungrouped_server, gateway_name)
    else unwrap_or (ungrouped_server, gateway_name) (split_once gateway_name separator)

pub record CatalogEntry : Type 0 where
  pub name : String
  pub server : String
  pub own_name : String
  pub description : Option String
  pub input_schema : Value
  pub annotations : Option Value
  pub verdict : Verdict
  pub listed_twice : Bool

abbrev text_or_null : Option String → Value
text_or_null none = null
text_or_null (some text) = Value.string text

abbrev verdict_name : Verdict → String
verdict_name allow = "allow"
verdict_name ask = "ask"

unfoldable pub describe : CatalogEntry → Value
describe e = object (
    field "name" (Value.string e.name) (
      field "server" (Value.string e.server) (
        field "description" (text_or_null e.description) (
          field "input_schema" e.input_schema (
            field "verdict" (Value.string (verdict_name e.verdict))
              (field "annotations" (unwrap_or null e.annotations) end))))))

unfoldable pub grouped : CatalogEntry → String → CatalogEntry
grouped e separator =
    let (server, own_name) = split_gateway_name e.name separator in
    record e { server = server; own_name = own_name }

abbrev pub listing : CatalogEntry → Listing
listing e = record {
  gateway_name = e.name;
  own_name = e.own_name;
  grouped = not (e.server == ungrouped_server);
  annotations = e.annotations;
  listed_twice = e.listed_twice;
}

pub record ActiveServers : Type 0 where
  pub activated : List String

abbrev pub no_servers : ActiveServers
no_servers = record { activated = [] }

abbrev pub is_active : ActiveServers → String → Bool
is_active active server = servers_start_active || contains active.activated server

unfoldable pub activate : ActiveServers → String → ActiveServers
activate active server = record active { activated = insert_text server active.activated }

pub record SearchResult : Type 0 where
  pub tools : List String
  pub inactive_servers : List String

pub record Catalog : Type 0 where
  pub entries : BTreeMap CatalogEntry

-- The entry that `Catalog::build` makes of a tool.
abbrev pub new_entry : UpstreamTool → CatalogEntry
new_entry tool = record {
  name = tool.name;
  server = ungrouped_server;
  own_name = tool.name;
  description = tool.description;
  input_schema = tool.input_schema;
  annotations = tool.annotations;
  verdict = ask;
  listed_twice = false;
}

-- One round of the loop of `Catalog::build`.
unfoldable pub add_tool : BTreeMap CatalogEntry → UpstreamTool → BTreeMap CatalogEntry
add_tool entries tool = elim (lookup tool.name entries) [
  | some listed_before ↦ insert tool.name (record listed_before { listed_twice = true }) entries
  | none ↦ insert tool.name (new_entry tool) entries
]

unfoldable pub add_tools : BTreeMap CatalogEntry → List UpstreamTool → BTreeMap CatalogEntry
add_tools entries [] = entries
add_tools entries (tool ∷ tools) = add_tools (add_tool entries tool) tools

abbrev pub map_values :
    (CatalogEntry → CatalogEntry) → BTreeMap CatalogEntry → BTreeMap CatalogEntry
map_values f [] = []
map_values f ((name, entry) ∷ rest) = (name, f entry) ∷ map_values f rest

pub get : Catalog → String → Option CatalogEntry
get catalog name = lookup name catalog.entries

pub len : Catalog → ℕ
len catalog = length catalog.entries

abbrev pub count_one : Option ℕ → ℕ
count_one none = 1
count_one (some n) = n + 1

unfoldable pub count_servers : BTreeMap ℕ → List CatalogEntry → BTreeMap ℕ
count_servers counts [] = counts
count_servers counts (e ∷ rest) =
    count_servers (insert e.server (count_one (lookup e.server counts)) counts) rest

unfoldable pub tool_counts_by_server : Catalog → BTreeMap ℕ
unfolding count_servers
tool_counts_by_server catalog = count_servers [] (values catalog.entries)

-- A match of a search: its score and its entry.
abbrev pub Match : Type 0
Match = ℕ × CatalogEntry

-- The order of `sort_by`: higher scores first, then by name.
unfoldable pub rank : Match → Match → Ordering
rank (left_score, left) (right_score, right) = elim (compare right_score left_score) [
  | Ordering.eq ↦ compare_text left.name right.name
  | other ↦ other
]

-- `slice::sort_by`, which is stable.
unfoldable pub insert_match : Match → List Match → List Match
insert_match m [] = m ∷ []
insert_match m (n ∷ rest) = elim (rank m n) [
  | Ordering.gt ↦ n ∷ insert_match m rest
  | _ ↦ m ∷ n ∷ rest
]

unfoldable pub sort_matches : List Match → List Match
unfolding insert_match
sort_matches [] = []
sort_matches (m ∷ rest) = insert_match m (sort_matches rest)

module _ (classes : CharClasses) where
  unfoldable pub decided : CatalogEntry → List String → CatalogEntry
  decided e allowed = record e { verdict = decide classes (listing e) allowed }

  abbrev pub settled : String → List String → CatalogEntry → CatalogEntry
  settled separator allowed e = decided (grouped e separator) allowed

  unfoldable pub with_settings : Catalog → String → List String → Catalog
  with_settings catalog separator allowed = record {
    entries = map_values (settled separator allowed) catalog.entries;
  }

  unfoldable pub build : List UpstreamTool → String → List String → Catalog
  build tools separator allowed =
      with_settings (record { entries = add_tools [] tools }) separator allowed

  -- What one word of the query adds.
  abbrev pub word_score : CatalogEntry → String → ℕ
  word_score e word =
      name_word_score * of_bool (contains (name_words classes e.own_name) word)
      + server_word_score * of_bool (contains (name_words classes e.server) word)
      + description_word_score
        * of_bool (contains (text_words classes (unwrap_or "" e.description)) word)

  unfoldable pub score : CatalogEntry → List String → ℕ
  score e [] = 0
  score e (word ∷ words) = word_score e word + score e words

  unfoldable pub matches : List String → List CatalogEntry → List Match
  matches words entries = filter (λ m. ltb 0 m.0) (map (λ e. (score e words, e)) entries)

  -- The entries that the query matches, and those of them on active servers.
  unfoldable pub found : Catalog → String → List Match
  unfolding matches
  found catalog query = matches (text_set (text_words classes query)) (values catalog.entries)

  unfoldable pub on_active_servers : Catalog → String → ActiveServers → List Match
  on_active_servers catalog query active =
      filter (λ m. is_active active m.1.server) (found catalog query)

  unfoldable pub on_inactive_servers : Catalog → String → ActiveServers → List Match
  on_inactive_servers catalog query active =
      filter (λ m. not (is_active active m.1.server)) (found catalog query)

  unfoldable pub search : Catalog → String → ActiveServers → SearchResult
  search catalog query active = record {
    tools =
        map (λ m. m.1.name)
          (take search_result_limit (sort_matches (on_active_servers catalog query active)));
    inactive_servers = text_set (map (λ m. m.1.server) (on_inactive_servers catalog query active));
  }
