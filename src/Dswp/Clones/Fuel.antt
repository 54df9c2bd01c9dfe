-- ===== src/Dswp/Clones/Fuel.antt =====
-- The search ends: each round takes a node from the queue, and each node enters it once.
use gino.Base.{
  ℕ, zero, suc, ◌+◌, ◌≤◌, ◌≡◌, Bool, true, List, [], ◌∷◌, length, length-append, contains,
  count_unvisited, count_unvisited-less, arith, Bool-cases, List-cases, inl, inr, All,
}
use gino.Dswp.Clones.{Search, visit_edge, visit_edges, search}

module _ (can_be_cloned : ℕ → Bool) (incoming : ℕ → List ℕ) (nodes : List ℕ)
    (closed : (n : ℕ) → All (λ x. contains nodes x ≡ true) (incoming n)) where
  abbrev work : Search → ℕ
  work s = length s.dependent_nodes + count_unvisited s.visited_nodes nodes

  visit_edge-work :
      (s : Search) (from : ℕ)
      → contains nodes from ≡ true
      → work (visit_edge can_be_cloned incoming s from) ≤ work s
  unfolding visit_edge
  visit_edge-work s from m = elim (Bool-cases (contains s.visited_nodes from)) [
    | inl seen ↦ ground (arith, seen)
    | inr fresh ↦ ground (
      arith,
      fresh,
      count_unvisited-less s.visited_nodes from nodes fresh m,
      length-append s.dependent_nodes (from ∷ []),
    )
  ]

  visit_edges-work :
      (s : Search) (edges : List ℕ)
      → All (λ x. contains nodes x ≡ true) edges
      → work (visit_edges can_be_cloned incoming s edges) ≤ work s
  unfolding visit_edges
  visit_edges-work s [] a = omega arith
  visit_edges-work s (from ∷ edges) a = omega (
    arith,
    visit_edge-work s from a.0,
    visit_edges-work (visit_edge can_be_cloned incoming s from) edges a.1,
  )

  -- With fuel for all the work that is left, the queue becomes empty.
  pub search-ends :
      (fuel : ℕ) (s : Search)
      → work s ≤ fuel
      → (search can_be_cloned incoming fuel s).dependent_nodes ≡ []
  unfolding search
  search-ends zero s h = elim (List-cases s.dependent_nodes) [
    | inl empty ↦ empty
    | inr (node, rest, queued) ↦ absurd (ground (arith, queued))
  ]
  search-ends (suc fuel) s h = elim (List-cases s.dependent_nodes) [
    | inl empty ↦ rw (empty, search) empty
    | inr (node, rest, queued) ↦
        rw (queued, search)
          (search-ends fuel
            (visit_edges can_be_cloned incoming (record s { dependent_nodes = rest })
              (incoming node))
            (ground (
              arith,
              queued,
              visit_edges-work (record s { dependent_nodes = rest }) (incoming node) (closed node),
            )))
  ]
