-- ===== src/Dswp/Controlled/Fuel.antt =====
-- The search ends: a round takes an entry from the queue, and the edges of a node enter it once.
use gino.Base.{
  ℕ, zero, suc, ◌+◌, ◌≤◌, ◌≡◌, true, false, Option, List, [], ◌∷◌, length, refl, length-append,
  contains, arith, Bool-cases, List-cases, inl, inr, if◌then◌else◌, ==_iff, subst, ℕ_discrete, All,
  All-append,
}
use gino.Dswp.Controlled.{
  ControlSearch, follow_edge, follow_edges, take_node, search_controlled, count_edges,
}

module _ (outgoing : ℕ → List ℕ) where
  -- The edges that leave the nodes of a list that are not visited.
  abbrev pub count_left : List ℕ → List ℕ → ℕ
  count_left visited [] = 0
  count_left visited (node ∷ nodes) =
      (if contains visited node then 0 else length (outgoing node)) + count_left visited nodes

  count_left-more :
      (visited : List ℕ) (x : ℕ) (nodes : List ℕ)
      → count_left (x ∷ visited) nodes ≤ count_left visited nodes
  unfolding contains
  count_left-more visited x [] = omega arith
  count_left-more visited x (node ∷ nodes) = ground (arith, count_left-more visited x nodes)

  count_left-visit :
      (visited : List ℕ) (x : ℕ) (nodes : List ℕ)
      → contains visited x ≡ false
      → contains nodes x ≡ true
      → length (outgoing x) + count_left (x ∷ visited) nodes ≤ count_left visited nodes
  unfolding contains
  count_left-visit visited x [] fresh m = absurd (ground arith)
  count_left-visit visited x (node ∷ nodes) fresh m = elim (ℕ_discrete node x) [
    | yes same ↦ rw same (ground (arith, ==_iff x x, count_left-more visited x nodes))
    | no other ↦
        ground (arith, ==_iff node x, ==_iff x node, count_left-visit visited x nodes fresh)
  ]

  pub count_left-all : (nodes : List ℕ) → count_left [] nodes ≡ count_edges outgoing nodes
  unfolding count_edges contains
  count_left-all [] = refl
  count_left-all (node ∷ nodes) = omega (arith, count_left-all nodes)

module _ (get_task_of_node : ℕ → Option ℕ) where
  follow_edges-queued :
      (edges : List ℕ) (s : ControlSearch)
      → length (follow_edges get_task_of_node edges s).queued_nodes
        ≡ length s.queued_nodes + length edges
  unfolding follow_edges follow_edge
  follow_edges-queued [] s = omega arith
  follow_edges-queued (x ∷ edges) s = omega (
    arith,
    follow_edges-queued edges (follow_edge get_task_of_node x s),
    length-append s.queued_nodes (x ∷ []),
  )

  pub follow_edges-visited :
      (edges : List ℕ) (s : ControlSearch)
      → (follow_edges get_task_of_node edges s).visited_nodes ≡ s.visited_nodes
  unfolding follow_edges follow_edge
  follow_edges-visited [] s = refl
  follow_edges-visited (x ∷ edges) s = follow_edges-visited edges (follow_edge get_task_of_node x s)

module _ (get_task_of_node : ℕ → Option ℕ) (outgoing : ℕ → List ℕ) (nodes : List ℕ) where
  abbrev work : ControlSearch → ℕ
  work s = length s.queued_nodes + count_left outgoing s.visited_nodes nodes

  take_node-work :
      (node : ℕ) (s : ControlSearch)
      → contains nodes node ≡ true
      → work (take_node get_task_of_node outgoing node s) ≤ work s
  unfolding take_node
  take_node-work node s m = elim (Bool-cases (contains s.visited_nodes node)) [
    | inl seen ↦ ground (arith, seen)
    | inr fresh ↦
        let s' = record s { visited_nodes = node ∷ s.visited_nodes } in
        rw (fresh, follow_edges-visited get_task_of_node (outgoing node) s')
          (omega (
            arith,
            follow_edges-queued get_task_of_node (outgoing node) s',
            count_left-visit outgoing s.visited_nodes node nodes fresh m,
          ))
  ]

  follow_edges-All :
      (edges : List ℕ) (s : ControlSearch)
      → All (λ x. contains nodes x ≡ true) edges
      → All (λ x. contains nodes x ≡ true) s.queued_nodes
      → All (λ x. contains nodes x ≡ true) (follow_edges get_task_of_node edges s).queued_nodes
  unfolding follow_edges follow_edge
  follow_edges-All [] s a b = b
  follow_edges-All (x ∷ edges) s a b =
      follow_edges-All edges (follow_edge get_task_of_node x s) a.1
        (All-append (λ x. contains nodes x ≡ true) s.queued_nodes (x ∷ []) b (a.0, tt))

  take_node-All :
      (closed : (n : ℕ) → All (λ x. contains nodes x ≡ true) (outgoing n)) (node : ℕ)
      (s : ControlSearch)
      → All (λ x. contains nodes x ≡ true) s.queued_nodes
      → All (λ x. contains nodes x ≡ true) (take_node get_task_of_node outgoing node s).queued_nodes
  unfolding take_node
  take_node-All closed node s a = elim (Bool-cases (contains s.visited_nodes node)) [
    | inl seen ↦ rw (seen, take_node) a
    | inr fresh ↦
        rw (fresh, take_node)
          (follow_edges-All (outgoing node) (record s { visited_nodes = node ∷ s.visited_nodes })
            (closed node) a)
  ]

  -- With fuel for all the work that is left, the queue becomes empty.
  pub search_controlled-ends :
      (closed : (n : ℕ) → All (λ x. contains nodes x ≡ true) (outgoing n)) (fuel : ℕ)
      (s : ControlSearch)
      → All (λ x. contains nodes x ≡ true) s.queued_nodes
      → work s ≤ fuel
      → (search_controlled get_task_of_node outgoing fuel s).queued_nodes ≡ []
  unfolding search_controlled
  search_controlled-ends closed zero s a h = elim (List-cases s.queued_nodes) [
    | inl empty ↦ empty
    | inr (node, rest, queued) ↦ absurd (ground (arith, queued))
  ]
  search_controlled-ends closed (suc fuel) s a h = elim (List-cases s.queued_nodes) [
    | inl empty ↦ rw (empty, search_controlled) empty
    | inr (node, rest, queued) ↦
        let popped = record s { queued_nodes = rest } in
        let known = subst (All (λ x. contains nodes x ≡ true)) queued a in
        rw (queued, search_controlled)
          (search_controlled-ends closed fuel (take_node get_task_of_node outgoing node popped)
            (take_node-All closed node popped known.1)
            (ground (arith, queued, take_node-work node popped known.0)))
  ]
