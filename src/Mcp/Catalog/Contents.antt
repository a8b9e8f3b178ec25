-- ===== src/Mcp/Catalog/Contents.antt =====
-- What `Catalog::build` of src/mcp/catalog.rs holds under each name.
use litellm_relay.Common.{
  String, ℕ, suc, ◌≡◌, refl, sym, ap, ◌∙◌, Bool, true, ◌||◌, Option, none, some, List, [], ◌∷◌,
  arith, if◌then◌else◌, ◌==◌, ==_iff, string_eq, ltb, map_option, Option-cases, Bool-cases, inl,
  inr,
}
use litellm_relay.Common.Sorted.{BTreeMap, lookup, lookup-insert}
use litellm_relay.Mcp.Verdict.Words.{CharClasses}
use litellm_relay.Mcp.Catalog.{
  UpstreamTool, CatalogEntry, new_entry, add_tool, add_tools, settled, map_values, with_settings,
  build, get,
}

-- How often a name is listed, and the first tool under it.
abbrev pub count_named : String → List UpstreamTool → ℕ
count_named name [] = 0
count_named name (tool ∷ tools) =
    if name == tool.name then suc (count_named name tools) else count_named name tools

abbrev pub first_named : String → List UpstreamTool → Option UpstreamTool
first_named name [] = none
first_named name (tool ∷ tools) = if name == tool.name then some tool else first_named name tools

abbrev pub marked : Bool → CatalogEntry → CatalogEntry
marked again e = record e { listed_twice = e.listed_twice || again }

-- What stands under a name after more tools, by what stood there before.
abbrev relisted : String → List UpstreamTool → Option CatalogEntry → Option CatalogEntry
relisted name tools (some e) = some (marked (ltb 0 (count_named name tools)) e)
relisted name tools none =
    map_option (λ t. marked (ltb 1 (count_named name tools)) (new_entry t)) (first_named name tools)

lookup-add_tool :
    (name : String) (m : BTreeMap CatalogEntry) (tool : UpstreamTool)
    → lookup name (add_tool m tool)
      ≡ (if name == tool.name then relisted name (tool ∷ []) (lookup name m) else lookup name m)
unfolding add_tool
lookup-add_tool name m tool = elim (Option-cases (lookup tool.name m)) [
  | inl e ↦ ground (arith, lookup-insert tool.name name (new_entry tool) m, ==_iff name tool.name)
  | inr (old, e) ↦ ground (
    arith,
    lookup-insert tool.name name (record old { listed_twice = true }) m,
    ==_iff name tool.name,
  )
]

relisted-cons :
    (name : String) (tool : UpstreamTool) (tools : List UpstreamTool) (o : Option CatalogEntry)
    → relisted name (tool ∷ tools) o
      ≡ relisted name tools (if name == tool.name then relisted name (tool ∷ []) o else o)
relisted-cons name tool tools none = ground (arith, ==_iff name tool.name)
relisted-cons name tool tools (some e) = ground (arith, ==_iff name tool.name)

relisted-nil : (name : String) (o : Option CatalogEntry) → relisted name [] o ≡ o
relisted-nil name none = refl
relisted-nil name (some e) = ground arith

lookup-add_tools :
    (name : String) (m : BTreeMap CatalogEntry) (tools : List UpstreamTool)
    → lookup name (add_tools m tools) ≡ relisted name tools (lookup name m)
unfolding add_tools
lookup-add_tools name m [] = sym (relisted-nil name (lookup name m))
lookup-add_tools name m (tool ∷ tools) =
    lookup-add_tools name (add_tool m tool) tools
    ∙ ap (relisted name tools) (lookup-add_tool name m tool)
    ∙ sym (relisted-cons name tool tools (lookup name m))

lookup-nil : (name : String) → lookup {V = CatalogEntry} name [] ≡ none
unfolding lookup
lookup-nil name = refl

map_option-map_option :
    (f : CatalogEntry → CatalogEntry) (g : UpstreamTool → CatalogEntry) (o : Option UpstreamTool)
    → map_option f (map_option g o) ≡ map_option (λ t. f (g t)) o
map_option-map_option f g none = refl
map_option-map_option f g (some t) = refl

lookup-map_values :
    (f : CatalogEntry → CatalogEntry) (name : String) (m : BTreeMap CatalogEntry)
    → lookup name (map_values f m) ≡ map_option f (lookup name m)
unfolding lookup
lookup-map_values f name [] = refl
lookup-map_values f name ((k, e) ∷ m) = elim (Bool-cases (name == k)) [
  | inl h ↦ rw h refl
  | inr h ↦ rw h (lookup-map_values f name m)
]

-- Under each name a built catalog holds the first tool that was listed by it, grouped by the
-- separator and decided by the allow list, with a mark exactly when the name was listed again; under
-- a name that was not listed it holds nothing.
pub get-build :
    (classes : CharClasses) (tools : List UpstreamTool) (separator : String) (allow : List String)
    (name : String)
    → get (build classes tools separator allow) name
      ≡ map_option
          (λ t.
            settled classes separator allow
              (record (new_entry t) { listed_twice = ltb 1 (count_named name tools) }))
          (first_named name tools)
unfolding build with_settings get
get-build classes tools separator allow name =
    let f = settled classes separator allow in
    lookup-map_values f name (add_tools [] tools)
    ∙ ap (map_option f)
        (lookup-add_tools name [] tools ∙ ap (relisted name tools) (lookup-nil name))
    ∙ map_option-map_option f
        (λ t. record (new_entry t) { listed_twice = ltb 1 (count_named name tools) })
        (first_named name tools)
