-- ===== src/Mcp/Catalog/Counts.antt =====
-- The tools of each server, as `status` and `activate_server` count them (src/mcp/catalog.rs).
use litellm_relay.Common.{
  String, ℕ, zero, suc, ◌+◌, ◌≡◌, refl, sym, ap, ◌∙◌, inl, inr, Bool-cases, nat_eq, Option, none,
  some, List, [], ◌∷◌, arith, if◌then◌else◌, ◌==◌, ==_iff, string_eq,
}
use litellm_relay.Common.Sorted.{BTreeMap, lookup, insert, lookup-insert, values}
use litellm_relay.Mcp.Catalog.{
  CatalogEntry, Catalog, count_one, count_servers, tool_counts_by_server,
}

abbrev pub on_server : String → List CatalogEntry → ℕ
on_server server [] = 0
on_server server (e ∷ rest) =
    if server == e.server then suc (on_server server rest) else on_server server rest

abbrev plus : Option ℕ → ℕ → Option ℕ
plus none zero = none
plus none (suc n) = some (suc n)
plus (some m) n = some (m + n)

plus-zero : (o : Option ℕ) → plus o 0 ≡ o
plus-zero none = refl
plus-zero (some n) = ground arith

plus-one : (o : Option ℕ) (n : ℕ) → plus (some (count_one o)) n ≡ plus o (suc n)
plus-one none n = ground arith
plus-one (some m) n = ground arith

plus-suc :
    (server k : String) (at : String → Option ℕ) (n : ℕ)
    → plus (if server == k then some (count_one (at k)) else at server) n
      ≡ plus (at server) (if server == k then suc n else n)
plus-suc server k at n = elim (Bool-cases (server == k)) [
  | inl e ↦ rw e (rw ((==_iff server k).0 e) (plus-one (at k) n))
  | inr e ↦ rw e refl
]

lookup-count_servers :
    (server : String) (counts : BTreeMap ℕ) (entries : List CatalogEntry)
    → lookup server (count_servers counts entries)
      ≡ plus (lookup server counts) (on_server server entries)
unfolding count_servers
lookup-count_servers server counts [] = sym (plus-zero (lookup server counts))
lookup-count_servers server counts (e ∷ rest) =
    let counts' = insert e.server (count_one (lookup e.server counts)) counts in
    lookup-count_servers server counts' rest
    ∙ ap (λ o. plus o (on_server server rest))
        (lookup-insert e.server server (count_one (lookup e.server counts)) counts)
    ∙ plus-suc server e.server (λ k. lookup k counts) (on_server server rest)

-- A server is counted exactly if an entry lies on it, and its count is the number of those entries.
pub lookup-tool_counts_by_server :
    (catalog : Catalog) (server : String)
    → lookup server (tool_counts_by_server catalog) ≡ (
        if on_server server (values catalog.entries) == 0
        then none
        else some (on_server server (values catalog.entries)))
unfolding tool_counts_by_server lookup
lookup-tool_counts_by_server catalog server =
    ground (arith, lookup-count_servers server [] (values catalog.entries))
