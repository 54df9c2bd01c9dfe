-- ===== src/Dswp/Clones/Found.antt =====
-- What the search finds: the clonable SCCs that the SCCs of the stage depend on, directly or not.
use gino.Base.{
  ℕ, zero, suc, ◌+◌, ◌≡◌, refl, ◌↔◌, ◌⊎◌, inl, inr, Bool, true, ◌&&◌, List, [], ◌∷◌, length,
  contains, contains-set_insert, contains-append, count_unvisited-all, ◌==◌, ==_iff, arith,
  Bool-cases, List-cases, All, subst, sym,
}
use gino.Dswp.Clones.{Search, visit_edge, visit_edges, search, start_search, add_clonable_sccs}
use gino.Dswp.Clones.Fuel.{search-ends}

module _ (incoming : ℕ → List ℕ) (roots : List ℕ) where
  -- SCC `x` is the source of a path of edges that ends in one of the roots.
  pub data Feeds : ℕ → Type 0 where
    direct : (n x : ℕ) → contains roots n ≡ true → contains (incoming n) x ≡ true → Feeds x
    via : (y x : ℕ) → Feeds y → contains (incoming y) x ≡ true → Feeds x

  abbrev Origin : ℕ → Type 0
  Origin n = (contains roots n ≡ true) ⊎ Feeds n

module _ (can_be_cloned : ℕ → Bool) (incoming : ℕ → List ℕ) (roots : List ℕ) where
  -- `n` is the node whose edges are visited, `edges` those that are left.
  record Explores (n : ℕ) (edges : List ℕ) (s : Search) : Type 0 where
    visited_feed : (x : ℕ) → contains s.visited_nodes x ≡ true → Feeds incoming roots x
    queued_feed : (x : ℕ) → contains s.dependent_nodes x ≡ true → Origin incoming roots x
    explored :
        (m : ℕ)
        → (contains roots m ≡ true) ⊎ (contains s.visited_nodes m ≡ true)
        → (contains s.dependent_nodes m ≡ true)
          ⊎ ((x : ℕ)
              → contains (incoming m) x ≡ true
              → (contains s.visited_nodes x ≡ true) ⊎ ((m ≡ n) × (contains edges x ≡ true)))
    clones : (x : ℕ) → contains s.clonable_sccs x ≡ (contains s.visited_nodes x && can_be_cloned x)

  visit_edge-Explores :
      (n from : ℕ) (edges : List ℕ) (s : Search)
      → Feeds incoming roots from
      → Explores n (from ∷ edges) s
      → Explores n edges (visit_edge can_be_cloned incoming s from)
  unfolding visit_edge contains
  visit_edge-Explores n from edges s feeds v = elim (Bool-cases (contains s.visited_nodes from)) [
    | inl seen ↦
        rw (seen, visit_edge)
          (record {
            visited_feed = v.visited_feed;
            queued_feed = v.queued_feed;
            explored = λ m h. elim (v.explored m h) [
              | inl queued ↦ inl queued
              | inr done ↦ inr (λ x e. elim (done x e) [
                | inl old ↦ inl old
                | inr (same, left) ↦ ground (arith, ==_iff from x)
              ])
            ];
            clones = v.clones;
          })
    | inr fresh ↦
        rw (fresh, visit_edge)
          (record {
            visited_feed = λ x h. elim (Bool-cases (from == x)) [
              | inl same ↦ subst (Feeds incoming roots) ((==_iff from x).0 same) feeds
              | inr other ↦ v.visited_feed x (ground arith)
            ];
            queued_feed = λ x h. elim (Bool-cases (from == x)) [
              | inl same ↦ inr (subst (Feeds incoming roots) ((==_iff from x).0 same) feeds)
              | inr other ↦
                  v.queued_feed x (ground (arith, contains-append s.dependent_nodes (from ∷ []) x))
            ];
            explored = λ m h. elim (Bool-cases (from == m)) [
              | inl same ↦ inl (ground (arith, contains-append s.dependent_nodes (from ∷ []) m))
              | inr other ↦ elim (v.explored m (ground arith)) [
                | inl queued ↦ inl (ground (arith, contains-append s.dependent_nodes (from ∷ []) m))
                | inr done ↦ inr (λ x e. elim (done x e) [
                  | inl old ↦ inl (ground arith)
                  | inr (same, left) ↦ ground (arith, ==_iff from x)
                ])
              ]
            ];
            clones = λ x.
                ground
                  (arith, v.clones x, contains-set_insert from s.clonable_sccs x, ==_iff from x);
          })
  ]

  visit_edges-Explores :
      (n : ℕ) (edges : List ℕ) (s : Search)
      → ((x : ℕ) → contains edges x ≡ true → Feeds incoming roots x)
      → Explores n edges s
      → Explores n [] (visit_edges can_be_cloned incoming s edges)
  unfolding visit_edges contains
  visit_edges-Explores n [] s feeds v = v
  visit_edges-Explores n (from ∷ edges) s feeds v =
      visit_edges-Explores n edges (visit_edge can_be_cloned incoming s from)
        (λ x c. feeds x (ground arith))
        (visit_edge-Explores n from edges s (feeds from (ground arith)) v)

  -- The round that takes `node` from the queue.
  next-Explores :
      (k node : ℕ) (nodes : List ℕ) (s : Search)
      → s.dependent_nodes ≡ node ∷ nodes
      → Explores k [] s
      → Explores node (incoming node) (record s { dependent_nodes = nodes })
  unfolding contains
  next-Explores k node nodes s queued v = record {
    visited_feed = v.visited_feed;
    queued_feed = λ x h. v.queued_feed x (ground (arith, queued));
    explored = λ m h. elim (v.explored m h) [
      | inl waiting ↦ elim (Bool-cases (node == m)) [
        | inl same ↦ inr (λ x e. inr (
          sym ((==_iff node m).0 same),
          subst (λ y. contains (incoming y) x ≡ true) (sym ((==_iff node m).0 same)) e,
        ))
        | inr other ↦ inl (ground (arith, queued))
      ]
      | inr done ↦ inr (λ x e. elim (done x e) [
        | inl old ↦ inl old
        | inr left ↦ absurd (ground (arith, left.1))
      ])
    ];
    clones = v.clones;
  }

  edges_feed :
      (node : ℕ)
      → Origin incoming roots node
      → (x : ℕ) → contains (incoming node) x ≡ true
      → Feeds incoming roots x
  edges_feed node (inl root) x e = direct node x root e
  edges_feed node (inr feeds) x e = via node x feeds e

  search-Explores :
      (fuel k : ℕ) (s : Search)
      → Explores k [] s
      → (n : ℕ) × Explores n [] (search can_be_cloned incoming fuel s)
  unfolding search contains
  search-Explores zero k s v = (k, v)
  search-Explores (suc fuel) k s v = elim (List-cases s.dependent_nodes) [
    | inl empty ↦ rw (empty, search) (k, v)
    | inr (node, nodes, queued) ↦
        rw (queued, search)
          (search-Explores fuel node
            (visit_edges can_be_cloned incoming (record s { dependent_nodes = nodes })
              (incoming node))
            (visit_edges-Explores node (incoming node) (record s { dependent_nodes = nodes })
              (edges_feed node (v.queued_feed node (ground (arith, queued))))
              (next-Explores k node nodes s queued v)))
  ]

  start-Explores : Explores 0 [] (start_search roots)
  unfolding start_search contains
  start-Explores = record {
    visited_feed = λ x h. absurd (ground arith);
    queued_feed = λ x h. inl h;
    explored = λ m h. inl (ground arith);
    clones = λ x. refl;
  }

  -- In a state with an empty queue every feeding SCC is visited.
  Feeds-visited :
      (n : ℕ) (s : Search)
      → Explores n [] s
      → s.dependent_nodes ≡ []
      → (x : ℕ) → Feeds incoming roots x
      → contains s.visited_nodes x ≡ true
  unfolding contains
  Feeds-visited n s v empty _ (direct m x root e) = elim (v.explored m (inl root)) [
    | inl waiting ↦ absurd (ground (arith, empty))
    | inr done ↦ elim (done x e) [ inl old ↦ old | inr left ↦ absurd (ground (arith, left.1)) ]
  ]
  Feeds-visited n s v empty _ (via y x feeds e) =
      elim (v.explored y (inr (Feeds-visited n s v empty y feeds))) [
        | inl waiting ↦ absurd (ground (arith, empty))
        | inr done ↦ elim (done x e) [ inl old ↦ old | inr left ↦ absurd (ground (arith, left.1)) ]
      ]

-- For every SCCDAG, whatever its edges, the search of addClonableSCCsToStages ends, and the SCCs that
-- it adds to a stage are exactly the clonable ones from which a path of edges leads to an SCC of the
-- stage.
pub add_clonable_sccs_iff :
    (can_be_cloned : ℕ → Bool) (incoming : ℕ → List ℕ) (nodes stage_sccs : List ℕ)
    → ((n : ℕ) → All (λ x. contains nodes x ≡ true) (incoming n))
    → (search can_be_cloned incoming
          (length stage_sccs + length nodes)
          (start_search stage_sccs)).dependent_nodes
        ≡ []
      × ((x : ℕ)
          → (contains (add_clonable_sccs can_be_cloned incoming (length nodes) stage_sccs) x ≡ true)
            ↔ ((can_be_cloned x ≡ true) × Feeds incoming stage_sccs x))
unfolding add_clonable_sccs start_search
add_clonable_sccs_iff can_be_cloned incoming nodes stage_sccs closed =
    let fuel = length stage_sccs + length nodes in
    let s = start_search stage_sccs in
    let empty =
      search-ends can_be_cloned incoming nodes closed fuel s
        (omega (arith, count_unvisited-all nodes)) in
    let v =
      search-Explores can_be_cloned incoming stage_sccs fuel 0 s
        (start-Explores can_be_cloned incoming stage_sccs) in
    (
      empty,
      λ x. (
        λ h. (ground (arith, v.1.clones x), v.1.visited_feed x (ground (arith, v.1.clones x))),
        λ h. ground (
          arith,
          v.1.clones x,
          Feeds-visited can_be_cloned incoming stage_sccs v.0 (search can_be_cloned incoming fuel s)
              v.1 empty x h.1,
        ),
      ),
    )
