-- ===== src/Mcp/Catalog/Tests.antt =====
-- Runs of src/mcp/catalog.rs.
use litellm_relay.Common.{
  String, ◌≡◌, ◌⊎◌, ◌↔◌, refl, true, false, none, some, List, [], ◌∷◌, contains, string_eq, nat_eq,
  arith, ltb, map_option, if◌then◌else◌, ◌==◌, ==_iff,
}
use litellm_relay.Common.Sorted.{lookup, values, insert, text_set, insert_text, IsAscending}
use litellm_relay.Json.{object, end}
use litellm_relay.Mcp.Verdict.{decide, name_reads_only, annotations_permit}
use litellm_relay.Mcp.Verdict.Vocabulary.{read_words, write_words}
use litellm_relay.Mcp.Verdict.Words.{name_words, text_words}
use litellm_relay.Mcp.Verdict.Tests.{ascii}
use litellm_relay.Mcp.Catalog.{
  UpstreamTool, ActiveServers, new_entry, settled, grouped, decided, build, with_settings,
  add_tools, add_tool, get, search, found, on_active_servers, on_inactive_servers, sort_matches,
  rank, score, split_gateway_name, is_active, no_servers, tool_counts_by_server,
}
use litellm_relay.Mcp.Catalog.Names.{CutAtFirst, Uncut, split_gateway_name_cases}
use litellm_relay.Mcp.Catalog.Reload.{with_settings-build}
use litellm_relay.Mcp.Catalog.Contents.{count_named, first_named, get-build}
use litellm_relay.Mcp.Catalog.Ranking.{
  ShowsBest, IsMatch, search-ShowsBest, search-inactive_servers,
}
use litellm_relay.Mcp.Catalog.Counts.{on_server, lookup-tool_counts_by_server}
use litellm_relay.Mcp.Catalog.{Match}

abbrev tool : String → String → UpstreamTool
tool name description = record {
  name = name;
  description = some description;
  input_schema = object end;
  annotations = none;
}

abbrev pub tools : List UpstreamTool
tools =
    tool "github-get_issue" "Read one issue"
    ∷ tool "jira-search_issues" "Search the issues"
    ∷ tool "github-delete_issue" "Delete an issue"
    ∷ tool "now" "The time"
    ∷ []

abbrev github : ActiveServers
github = record { activated = "github" ∷ [] }

catalog : Unit {0}
unfolding build search found on_active_servers on_inactive_servers with_settings add_tools add_tool
    decided grouped split_gateway_name sort_matches rank score get decide name_reads_only
    annotations_permit name_words text_words read_words write_words lookup insert text_set
    insert_text tool_counts_by_server
catalog = tt

search_tests :
    (search ascii (build ascii tools "-" []) "get an issue" github
      ≡ record { tools = "github-get_issue" ∷ "github-delete_issue" ∷ []; inactive_servers = [] })
    × (search ascii (build ascii tools "-" []) "search issues" no_servers
        ≡ record { tools = []; inactive_servers = "jira" ∷ [] })
unfolding catalog
search_tests = (refl, refl)

split_gateway_name_cases_example :
    CutAtFirst "github-get-issue" "-" "github" "get-issue"
    ⊎ Uncut "github-get-issue" "-" "github" "get-issue"
unfolding catalog
split_gateway_name_cases_example =
    split_gateway_name_cases "github-get-issue" "-"
      (λ e. ground (arith, ==_iff {A = String} "-" ""))

with_settings-build_example :
    with_settings ascii (build ascii tools "-" []) "_" ("now" ∷ [])
    ≡ build ascii tools "_" ("now" ∷ [])
with_settings-build_example = with_settings-build ascii tools "-" "_" [] ("now" ∷ [])

get-build_example :
    get (build ascii tools "-" []) "now"
    ≡ map_option
        (λ t.
          settled ascii "-" []
            (record (new_entry t) { listed_twice = ltb 1 (count_named "now" tools) }))
        (first_named "now" tools)
get-build_example = get-build ascii tools "-" [] "now"

search-ShowsBest_example :
    ShowsBest ascii
      (build ascii tools "-" [])
      "an issue"
      github
      (search ascii (build ascii tools "-" []) "an issue" github).tools
search-ShowsBest_example = search-ShowsBest ascii (build ascii tools "-" []) "an issue" github

search-inactive_servers_example :
    IsAscending (search ascii (build ascii tools "-" []) "issues" no_servers).inactive_servers
    × ((contains
            (search ascii (build ascii tools "-" []) "issues" no_servers).inactive_servers
            "jira"
          ≡ true)
        ↔ ((m : Match) × IsMatch ascii (build ascii tools "-" []) "issues" m
            × (m.1.server ≡ "jira")
            × (is_active no_servers "jira" ≡ false)))
search-inactive_servers_example =
    search-inactive_servers ascii (build ascii tools "-" []) "issues" no_servers "jira"

lookup-tool_counts_by_server_example :
    lookup "github" (tool_counts_by_server (build ascii tools "-" [])) ≡ (
      if on_server "github" (values (build ascii tools "-" []).entries) == 0
      then none
      else some (on_server "github" (values (build ascii tools "-" []).entries)))
lookup-tool_counts_by_server_example =
    lookup-tool_counts_by_server (build ascii tools "-" []) "github"
