-- ===== src/Mcp/Catalog/Ranking.antt =====
-- The order and the extent of a search's results (src/mcp/catalog.rs).
use mathlib.Core.List.{Perm}
use mathlib.Core.List.Perm
use litellm_relay.Common.{
  String, ℕ, ◌<◌, ◌≡◌, ◌⊎◌, ◌≢◌, ◌↔◌, refl, sym, ap, Bool, true, false, not, List, [], ◌∷◌, map,
  arith, Ordering, contains, string_eq, ltb, take, filter, In, In-filter, inl, inr, Bool-cases,
  ◌==◌, ==_iff, ◌∙◌,
}
use litellm_relay.Common.TextOrder.{Lt, lt_of_gt, gt_of_lt}
use litellm_relay.Common.Sorted.{
  values, text_set, text_set-IsAscending, contains-text_set, IsAscending,
}
use litellm_relay.Mcp.Verdict.Words.{CharClasses, text_words}
use litellm_relay.Mcp.Catalog.{
  CatalogEntry, Catalog, ActiveServers, is_active, Match, rank, insert_match, sort_matches, score,
  matches, found, on_active_servers, on_inactive_servers, search,
}

-- No match stands behind one that ranks below it.
abbrev RankedAfter : Match → List Match → Type 0
RankedAfter m [] = Unit
RankedAfter m (n ∷ rest) = (rank m n ≢ Ordering.gt) × RankedAfter n rest

abbrev IsRanked : List Match → Type 0
IsRanked [] = Unit
IsRanked (m ∷ rest) = RankedAfter m rest

rank_flip : (m n : Match) → rank m n ≡ Ordering.gt → rank n m ≡ Ordering.lt
unfolding rank
rank_flip (s, m) (t, n) h = ground (arith, lt_of_gt m.name n.name)

insert-RankedAfter :
    (k m : Match) (l : List Match)
    → rank k m ≢ Ordering.gt
    → RankedAfter k l
    → RankedAfter k (insert_match m l)
unfolding insert_match
insert-RankedAfter k m [] h a = (h, tt)
insert-RankedAfter k m (n ∷ l) h (a, b) = ground (arith, rank_flip m n, insert-RankedAfter n m l)

insert-IsRanked : (m : Match) (l : List Match) → IsRanked l → IsRanked (insert_match m l)
unfolding insert_match
insert-IsRanked m [] h = tt
insert-IsRanked m (n ∷ l) h = ground (arith, rank_flip m n, insert-RankedAfter n m l)

sort-IsRanked : (l : List Match) → IsRanked (sort_matches l)
unfolding sort_matches
sort-IsRanked [] = tt
sort-IsRanked (m ∷ l) = insert-IsRanked m (sort_matches l) (sort-IsRanked l)

-- `m` may stand right before `n`: its score is greater, or the scores are equal and the name of `n` does
-- not come before the name of `m` in the order of texts.
abbrev pub Precedes : Match → Match → Type 0
Precedes m n = (n.0 < m.0) ⊎ ((m.0 ≡ n.0) × ¬ (Lt n.1.name m.1.name))

abbrev pub InOrderAfter : Match → List Match → Type 0
InOrderAfter m [] = Unit
InOrderAfter m (n ∷ rest) = Precedes m n × InOrderAfter n rest

abbrev pub IsInOrder : List Match → Type 0
IsInOrder [] = Unit
IsInOrder (m ∷ rest) = InOrderAfter m rest

rank-Precedes : (m n : Match) → rank m n ≢ Ordering.gt → Precedes m n
unfolding rank
rank-Precedes (s, m) (t, n) h = ground (arith, gt_of_lt n.name m.name)

RankedAfter-InOrderAfter : (m : Match) (l : List Match) → RankedAfter m l → InOrderAfter m l
RankedAfter-InOrderAfter m [] r = tt
RankedAfter-InOrderAfter m (n ∷ l) (h, r) = (rank-Precedes m n h, RankedAfter-InOrderAfter n l r)

IsRanked-IsInOrder : (l : List Match) → IsRanked l → IsInOrder l
IsRanked-IsInOrder [] r = tt
IsRanked-IsInOrder (m ∷ l) r = RankedAfter-InOrderAfter m l r

insert-perm : (m : Match) (l : List Match) → Perm (insert_match m l) (m ∷ l)
unfolding insert_match
insert-perm m [] = Perm.refl (m ∷ [])
insert-perm m (n ∷ l) =
    elim (rank m n)
      as (λ x. Perm (elim x [ Ordering.gt ↦ n ∷ insert_match m l | _ ↦ m ∷ n ∷ l ]) (m ∷ n ∷ l)) [
        | Ordering.gt ↦ Perm.trans (Perm.cons n (insert-perm m l)) (Perm.swap m n l)
        | _ ↦ Perm.refl (m ∷ n ∷ l)
      ]

sort-perm : (l : List Match) → Perm (sort_matches l) l
unfolding sort_matches
sort-perm [] = Perm.refl []
sort-perm (m ∷ l) = Perm.trans (insert-perm m (sort_matches l)) (Perm.cons m (sort-perm l))

-- What a search found, independently of how it was computed: an entry of the catalog with its score,
-- where that is not zero.
abbrev pub IsMatch : CharClasses → Catalog → String → Match → Type 0
IsMatch classes catalog query (n, e) =
    In e (values catalog.entries)
    × (n ≡ score classes e (text_set (text_words classes query)))
    × (0 < n)

on_server_found :
    (server : String) (l : List Match)
    → contains (map (λ m. m.1.server) l) server ≡ true
    → (m : Match) × In m l × (m.1.server ≡ server)
on_server_found server [] h = absurd (ground arith)
on_server_found server (m ∷ l) h = elim (Bool-cases (m.1.server == server)) [
  | inl e ↦ (m, inl refl, (==_iff m.1.server server).0 e)
  | inr e ↦ let (x, i, k) = on_server_found server l (ground arith) in (x, inr i, k)
]

on_server_contained :
    (server : String) (l : List Match) (m : Match)
    → In m l
    → m.1.server ≡ server
    → contains (map (λ x. x.1.server) l) server ≡ true
on_server_contained server (x ∷ l) m (inl p) k =
    ground (arith, ==_iff x.1.server server, ap (λ (y : Match). y.1.server) p)
on_server_contained server (x ∷ l) m (inr q) k = ground (arith, on_server_contained server l m q k)
on_server_contained server [] m i k = absurd i

not-true : {b : Bool} → not b ≡ true → b ≡ false
not-true {b} h = ground arith

module _ (classes : CharClasses) where
  In-scored :
      (words : List String) (l : List CatalogEntry) (n : ℕ) (e : CatalogEntry)
      → In {A = Match} (n, e) (map (λ x. (score classes x words, x)) l)
        ↔ (In e l × (n ≡ score classes e words))
  In-scored words [] n e = ground arith
  In-scored words (x ∷ l) n e = ground (arith, In-scored words l n e)

  In-found :
      (catalog : Catalog) (query : String) (m : Match)
      → In m (found classes catalog query) ↔ IsMatch classes catalog query m
  unfolding found
  In-found catalog query (n, e) =
      let words = text_set (text_words classes query) in
      let entries = values catalog.entries in
      let scored : List Match = map (λ x. (score classes x words, x)) entries in
      ground (arith, In-filter (λ m. ltb 0 m.0) (n, e) scored, In-scored words entries n e)

  -- The entries of a list in its order, each once and with its score, without those that have no score or
  -- lie on a server that is not active.
  pub data Picked (words : List String) (active : ActiveServers)
      : List CatalogEntry → List Match → Type 0 where
    at_end : Picked words active [] []
    takes :
        {e : CatalogEntry} {l : List CatalogEntry} {ms : List Match}
        → 0 < score classes e words
        → is_active active e.server ≡ true
        → Picked words active l ms
        → Picked words active (e ∷ l) ((score classes e words, e) ∷ ms)
    passes :
        {e : CatalogEntry} {l : List CatalogEntry} {ms : List Match}
        → (score classes e words ≡ 0) ⊎ (is_active active e.server ≡ false)
        → Picked words active l ms
        → Picked words active (e ∷ l) ms

  matches-Picked :
      (words : List String) (active : ActiveServers) (l : List CatalogEntry)
      → Picked words active l (filter (λ m. is_active active m.1.server) (matches classes words l))
  unfolding matches
  matches-Picked words active [] = at_end
  matches-Picked words active (e ∷ l) = elim (Bool-cases (ltb 0 (score classes e words))) [
    | inr z ↦ rw z (passes (inl (ground arith)) (matches-Picked words active l))
    | inl z ↦ rw z (elim (Bool-cases (is_active active e.server)) [
      | inl a ↦ rw a (takes (ground arith) a (matches-Picked words active l))
      | inr a ↦ rw a (passes (inr a) (matches-Picked words active l))
    ])
  ]

  -- What a search shows of the matches on active servers.
  pub record ShowsBest (catalog : Catalog) (query : String) (active : ActiveServers)
      (tools : List String) : Type 0 where
    pub candidates : List Match
    pub picked :
        Picked (text_set (text_words classes query)) active (values catalog.entries) candidates
    pub ranked : List Match
    pub ranked_perm : Perm ranked candidates
    pub ranked_in_order : IsInOrder ranked
    pub first_five : tools ≡ map (λ m. m.1.name) (take 5 ranked)

  -- A search returns the names of the first five, at most, of the entries that have a score for the words
  -- of the query and lie on active servers, each entry taken once, in the order of descending scores and,
  -- at one score, of ascending names.
  pub search-ShowsBest :
      (catalog : Catalog) (query : String) (active : ActiveServers)
      → ShowsBest catalog query active (search classes catalog query active).tools
  unfolding search on_active_servers found
  search-ShowsBest catalog query active = record {
    candidates = on_active_servers classes catalog query active;
    picked = matches-Picked _ active (values catalog.entries);
    ranked = sort_matches (on_active_servers classes catalog query active);
    ranked_perm = sort-perm _;
    ranked_in_order =
        IsRanked-IsInOrder _ (sort-IsRanked (on_active_servers classes catalog query active));
    first_five = refl;
  }

  -- A search names, in ascending order and each once, the servers that are not active and hold an entry
  -- that matches the query.
  pub search-inactive_servers :
      (catalog : Catalog) (query : String) (active : ActiveServers) (server : String)
      → IsAscending (search classes catalog query active).inactive_servers
        × ((contains (search classes catalog query active).inactive_servers server ≡ true) ↔ (
            (m : Match) × IsMatch classes catalog query m
            × (m.1.server ≡ server)
            × (is_active active server ≡ false)))
  unfolding search on_inactive_servers
  search-inactive_servers catalog query active server =
      let l =
        filter (λ (m : Match). not (is_active active m.1.server)) (found classes catalog query) in
      let servers = map (λ (m : Match). m.1.server) l in
      (
        text_set-IsAscending servers,
        (
          λ h.
              let (m, i, k) =
                on_server_found server l (sym (contains-text_set servers server) ∙ h) in
              let (j, a) =
                (In-filter (λ m. not (is_active active m.1.server)) m
                    (found classes catalog query)).0
                  i in
              (m, (In-found catalog query m).0 j, k, rw k at (not-true a)),
          λ (m, j, k, a).
              contains-text_set servers server
              ∙ on_server_contained server l m
                  ((In-filter (λ m. not (is_active active m.1.server)) m
                      (found classes catalog query)).1
                    ((In-found catalog query m).1 j, ap not (ap (is_active active) k ∙ a)))
                  k,
        ),
      )
