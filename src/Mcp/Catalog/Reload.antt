-- ===== src/Mcp/Catalog/Reload.antt =====
-- A change of the settings decides the held catalog anew (src/mcp/catalog.rs, `with_settings`).
use litellm_relay.Common.{String, ◌≡◌, refl, ap, List, [], ◌∷◌}
use litellm_relay.Common.Sorted.{BTreeMap}
use litellm_relay.Mcp.Verdict.Words.{CharClasses}
use litellm_relay.Mcp.Catalog.{
  UpstreamTool, Catalog, CatalogEntry, grouped, decided, settled, map_values, with_settings, build,
  add_tools,
}

module _ (classes : CharClasses) where
  settled-settled :
      (s t : String) (a b : List String) (e : CatalogEntry)
      → settled classes t b (settled classes s a e) ≡ settled classes t b e
  unfolding grouped decided
  settled-settled s t a b e = refl

  map_values-settled :
      (s t : String) (a b : List String) (m : BTreeMap CatalogEntry)
      → map_values (settled classes t b) (map_values (settled classes s a) m)
        ≡ map_values (settled classes t b) m
  map_values-settled s t a b [] = refl
  map_values-settled s t a b ((name, e) ∷ m) =
      rw (settled-settled s t a b e, map_values-settled s t a b m) refl

  -- Applying new settings to a catalog built under other settings gives the catalog that the same
  -- tools give under the new settings.
  pub with_settings-build :
      (tools : List UpstreamTool) (s t : String) (a b : List String)
      → with_settings classes (build classes tools s a) t b ≡ build classes tools t b
  unfolding with_settings build
  with_settings-build tools s t a b =
      ap (λ (m : BTreeMap CatalogEntry). record { entries = m })
        (map_values-settled s t a b (add_tools [] tools))

  -- The settings that were applied last are the ones that count.
  pub with_settings-with_settings :
      (c : Catalog) (s t : String) (a b : List String)
      → with_settings classes (with_settings classes c s a) t b ≡ with_settings classes c t b
  unfolding with_settings
  with_settings-with_settings c s t a b =
      ap (λ (m : BTreeMap CatalogEntry). record { entries = m })
        (map_values-settled s t a b c.entries)
