-- ===== src/Heuristics/Cheapest.antt =====
-- The candidate that a traversal ends with.
use gino.Base.{
  ℕ, zero, suc, ◌+◌, ◌≤◌, ◌<◌, ◌≡◌, refl, leb, ltb, false, ◌⊎◌, inl, inr, true, not, ◌&&◌, ◌||◌,
  List, [], ◌∷◌, ◌++◌, length, contains, contains-append, count_unvisited-le, if◌then◌else◌, ◌==◌,
  ==_iff, arith, Bool-cases, List-cases, All, subst, sym,
}
use gino.Base.Words.{u64_mod, add64}
use gino.Heuristics.Ends.{traverse-ends}
use gino.Heuristics.{
  SccFacts, Partition, Candidate, insert_all, queue_latency, subset_sccs, internal_cost,
  sum_queue_latency, latency_per_invocation, gather, count_insts_of_sets, reset_candidate, cost_of,
  insts_of, check_if_should_merge, Traversal, visit_children, traverse, start_traversal,
  traverse_all_partition_subsets,
}

module _ (facts : SccFacts) where
  internal_cost-lt :
      (sccs : List ℕ) (cost : ℕ) (values : List ℕ)
      → cost < u64_mod
      → (internal_cost facts sccs cost values).0 < u64_mod
  unfolding internal_cost
  internal_cost-lt [] cost values h = h
  internal_cost-lt (scc ∷ sccs) cost values h =
      internal_cost-lt sccs (add64 cost (facts.scc_to_cost scc))
        (insert_all (facts.incoming_externals scc) values) (omega arith)

  sum_queue_latency-lt :
      (values : List ℕ) (cost : ℕ) → cost < u64_mod → sum_queue_latency facts values cost < u64_mod
  unfolding sum_queue_latency
  sum_queue_latency-lt [] cost h = h
  sum_queue_latency-lt (value ∷ values) cost h =
      sum_queue_latency-lt values (add64 cost (queue_latency value)) (omega arith)

module _ (facts : SccFacts) (partition : Partition) where
  open partition use {State, get_cycle_introduced_by_merging}

  -- Costs and numbers of instructions are 64-bit numbers.
  cost_of-lt : (p : State) (a b : ℕ) → cost_of facts partition p a b < u64_mod
  unfolding cost_of latency_per_invocation
  cost_of-lt p a b =
      let sccs = gather facts partition p (get_cycle_introduced_by_merging p a b) in
      let costs = internal_cost facts (subset_sccs facts sccs (insert_all sccs [])) 0 [] in
      sum_queue_latency-lt facts costs.1 (if ltb 0 costs.0 then costs.0 else 0) (
        ground (
          arith,
          internal_cost-lt facts (subset_sccs facts sccs (insert_all sccs [])) 0 [] (omega arith),
        ))

  count_insts_of_sets-lt :
      (p : State) (sets : List ℕ) → count_insts_of_sets facts partition p sets < u64_mod
  unfolding count_insts_of_sets
  count_insts_of_sets-lt p [] = omega arith
  count_insts_of_sets-lt p (set ∷ sets) = omega arith

  insts_of-lt : (p : State) (a b : ℕ) → insts_of facts partition p a b < u64_mod
  unfolding insts_of
  insts_of-lt p a b = count_insts_of_sets-lt p (get_cycle_introduced_by_merging p a b)

module _ (facts : SccFacts) (partition : Partition) (num_cores : ℕ) where
  open partition use {State, get_sets, get_roots, get_children, get_cycle_introduced_by_merging}

  -- The candidate costs no more than the merge of two sets, and has no more instructions if it
  -- costs as much.
  abbrev pub IsNoWorse : State → Candidate → ℕ → ℕ → Type 0
  IsNoWorse p c a b =
      (c.cost_of_merged_set < cost_of facts partition p a b)
      ⊎ ((c.cost_of_merged_set ≡ cost_of facts partition p a b)
          × (c.num_instructions ≤ insts_of facts partition p a b))

  module _ (p : State) (many : num_cores < length (get_sets p)) where
    check-own :
        (c : Candidate) (a b : ℕ)
        → IsNoWorse p (check_if_should_merge facts partition num_cores p c a b) a b
    unfolding check_if_should_merge
    check-own c a b = ground arith

    check-keeps :
        (c : Candidate) (a b x y : ℕ)
        → IsNoWorse p c x y
        → IsNoWorse p (check_if_should_merge facts partition num_cores p c a b) x y
    unfolding check_if_should_merge
    check-keeps c a b x y h = ground arith

    -- A set that a path of edges leads to from a root.
    pub data Reaches : ℕ → Type 0 where
      root : (x : ℕ) → contains (get_roots p) x ≡ true → Reaches x
      child : (a x : ℕ) → Reaches a → contains (get_children p a) x ≡ true → Reaches x

    -- The candidate is the merge of a set that is reached with one of its children.
    pub IsMerge : Candidate → Type 0
    IsMerge c =
        (a b : ℕ) × Reaches a
        × (contains (get_children p a) b ≡ true)
        × (c.min_sets_to_merge ≡ get_cycle_introduced_by_merging p a b)
        × (c.cost_of_merged_set ≡ cost_of facts partition p a b)
        × (c.num_instructions ≡ insts_of facts partition p a b)

    -- After a check the candidate is a merge, as no merge costs more than the cost at the start.
    check-IsMerge :
        (c : Candidate) (a b : ℕ)
        → (reset_candidate ≡ c) ⊎ IsMerge c
        → Reaches a
        → contains (get_children p a) b ≡ true
        → IsMerge (check_if_should_merge facts partition num_cores p c a b)
    unfolding check_if_should_merge reset_candidate IsMerge
    check-IsMerge c a b before reached edge =
        let enough : leb (length (get_sets p)) num_cores ≡ false = ground arith in
        let cost = cost_of facts partition p a b in
        let insts = insts_of facts partition p a b in
        elim (Bool-cases (ltb c.cost_of_merged_set cost)) [
          | inl worse ↦
              rw (enough, worse, check_if_should_merge)
                (elim before [
                  | inl start ↦ absurd (ground (arith, start, cost_of-lt facts partition p a b))
                  | inr merge ↦ merge
                ])
          | inr cheap ↦
              elim (Bool-cases (cost == c.cost_of_merged_set && ltb c.num_instructions insts)) [
                | inl longer ↦
                    rw (enough, cheap, longer, check_if_should_merge)
                      (elim before [
                        | inl start ↦
                            absurd (ground (arith, start, insts_of-lt facts partition p a b))
                        | inr merge ↦ merge
                      ])
                | inr better ↦
                    rw (enough, cheap, better, check_if_should_merge)
                      (a, b, reached, edge, refl, refl, refl)
              ]
        ]

    -- `n` is the set whose children are visited, `edges` those that are left.
    record Checks (n : ℕ) (edges : List ℕ) (t : Traversal) : Type 0 where
      candidate_start : (reset_candidate ≡ t.candidate) ⊎ IsMerge t.candidate
      checked_reached : (x : ℕ) → contains t.already_checked x ≡ true → Reaches x
      queued_reached : (x : ℕ) → contains t.sub_to_check x ≡ true → Reaches x
      roots_checked :
          (x : ℕ) → contains (get_roots p) x ≡ true → contains t.already_checked x ≡ true
      explored :
          (m : ℕ)
          → contains t.already_checked m ≡ true
          → (contains t.sub_to_check m ≡ true)
            ⊎ ((x : ℕ)
                → contains (get_children p m) x ≡ true
                → ((contains t.already_checked x ≡ true)
                    × IsNoWorse p t.candidate m x
                    × IsMerge t.candidate)
                  ⊎ ((m ≡ n) × (contains edges x ≡ true)))

    abbrev visit_child : ℕ → ℕ → Traversal → Traversal
    visit_child n x t = record {
      sub_to_check =
          if contains t.already_checked x then t.sub_to_check else t.sub_to_check ++ x ∷ [];
      already_checked =
          if contains t.already_checked x then t.already_checked else x ∷ t.already_checked;
      candidate = check_if_should_merge facts partition num_cores p t.candidate n x;
    }

    checked-visit_child :
        (n x : ℕ) (t : Traversal) (y : ℕ)
        → contains (visit_child n x t).already_checked y ≡ (x == y || contains t.already_checked y)
    unfolding contains
    checked-visit_child n x t y = ground (arith, ==_iff x y)

    queued-visit_child :
        (n x : ℕ) (t : Traversal) (y : ℕ)
        → contains (visit_child n x t).sub_to_check y
          ≡ ((not (contains t.already_checked x) && x == y) || contains t.sub_to_check y)
    unfolding contains
    queued-visit_child n x t y = ground (arith, contains-append t.sub_to_check (x ∷ []) y)

    visit_child-Checks :
        (n x : ℕ) (edges : List ℕ) (t : Traversal)
        → Reaches n
        → contains (get_children p n) x ≡ true
        → Checks n (x ∷ edges) t
        → Checks n edges (visit_child n x t)
    unfolding contains
    visit_child-Checks n x edges t reached edge v =
        let merged = check-IsMerge t.candidate n x v.candidate_start reached edge in
        record {
          candidate_start = inr merged;
          checked_reached = λ y h. elim (Bool-cases (x == y)) [
            | inl here ↦ subst Reaches ((==_iff x y).0 here) (child n x reached edge)
            | inr other ↦ v.checked_reached y (ground (arith, checked-visit_child n x t y))
          ];
          queued_reached = λ y h. elim (Bool-cases (x == y)) [
            | inl here ↦ subst Reaches ((==_iff x y).0 here) (child n x reached edge)
            | inr other ↦ v.queued_reached y (ground (arith, queued-visit_child n x t y))
          ];
          roots_checked = λ y h. ground (arith, v.roots_checked y h, checked-visit_child n x t y);
          explored = λ m h. elim (Bool-cases (contains t.already_checked m)) [
            | inr fresh ↦ inl (
                ground (arith, checked-visit_child n x t m, queued-visit_child n x t m, ==_iff x m))
            | inl old ↦ elim (v.explored m old) [
              | inl queued ↦ inl (ground (arith, queued-visit_child n x t m))
              | inr done ↦ inr (λ y e. elim (done y e) [
                | inl (seen, worse, merge) ↦ inl (
                  ground (arith, checked-visit_child n x t y),
                  check-keeps t.candidate n x m y worse,
                  merged,
                )
                | inr (same, left) ↦ elim (Bool-cases (x == y)) [
                  | inl here ↦ inl (
                    ground (arith, checked-visit_child n x t y),
                    subst (λ k. IsNoWorse p (visit_child n x t).candidate k y) (sym same)
                        (subst (λ k. IsNoWorse p (visit_child n x t).candidate n k)
                          ((==_iff x y).0 here) (check-own t.candidate n x)),
                    merged,
                  )
                  | inr other ↦ inr (same, ground arith)
                ]
              ])
            ]
          ];
        }

    visit_children-Checks :
        (n : ℕ) (edges : List ℕ) (t : Traversal)
        → Reaches n
        → ((x : ℕ) → contains edges x ≡ true → contains (get_children p n) x ≡ true)
        → Checks n edges t
        → Checks n [] (visit_children facts partition num_cores p n edges t)
    unfolding visit_children contains
    visit_children-Checks n [] t reached own v = v
    visit_children-Checks n (x ∷ edges) t reached own v =
        visit_children-Checks n edges (visit_child n x t) reached (λ y h. own y (ground arith))
          (visit_child-Checks n x edges t reached (own x (ground (arith, ==_iff x x))) v)

    -- The round that takes `sub` from the queue.
    next-Checks :
        (k sub : ℕ) (subs : List ℕ) (t : Traversal)
        → t.sub_to_check ≡ sub ∷ subs
        → Checks k [] t
        → Checks sub (get_children p sub) (record t { sub_to_check = subs })
    unfolding contains
    next-Checks k sub subs t queued v = record {
      candidate_start = v.candidate_start;
      checked_reached = v.checked_reached;
      queued_reached = λ x h. v.queued_reached x (ground (arith, queued));
      roots_checked = v.roots_checked;
      explored = λ m h. elim (v.explored m h) [
        | inl waiting ↦ elim (Bool-cases (sub == m)) [
          | inl same ↦ inr (λ x e. inr (
            sym ((==_iff sub m).0 same),
            subst (λ y. contains (get_children p y) x ≡ true) (sym ((==_iff sub m).0 same)) e,
          ))
          | inr other ↦ inl (ground (arith, queued))
        ]
        | inr done ↦ inr (λ x e. elim (done x e) [
          | inl old ↦ inl old
          | inr left ↦ absurd (ground (arith, left.1))
        ])
      ];
    }

    traverse-Checks :
        (fuel k : ℕ) (t : Traversal)
        → Checks k [] t
        → (n : ℕ) × Checks n [] (traverse facts partition num_cores fuel p t)
    unfolding traverse contains
    traverse-Checks zero k t v = (k, v)
    traverse-Checks (suc fuel) k t v = elim (List-cases t.sub_to_check) [
      | inl empty ↦ rw (empty, traverse) (k, v)
      | inr (sub, subs, queued) ↦
          rw (queued, traverse)
            (traverse-Checks fuel sub
              (visit_children facts partition num_cores p sub (get_children p sub)
                (record t { sub_to_check = subs }))
              (visit_children-Checks sub (get_children p sub) (record t { sub_to_check = subs })
                (v.queued_reached sub (ground (arith, queued, ==_iff sub sub))) (λ x h. h)
                (next-Checks k sub subs t queued v)))
    ]

    start-Checks : Checks 0 [] (start_traversal partition p)
    unfolding start_traversal
    start-Checks = record {
      candidate_start = inl refl;
      checked_reached = λ x h. root x h;
      queued_reached = λ x h. root x h;
      roots_checked = λ x h. h;
      explored = λ m h. inl h;
    }

    -- With an empty queue every set that is reached is checked.
    Reaches-checked :
        (n : ℕ) (t : Traversal)
        → Checks n [] t
        → t.sub_to_check ≡ []
        → (x : ℕ) → Reaches x
        → contains t.already_checked x ≡ true
    unfolding contains
    Reaches-checked n t v empty _ (root x h) = v.roots_checked x h
    Reaches-checked n t v empty _ (child a x r e) =
        elim (v.explored a (Reaches-checked n t v empty a r)) [
          | inl waiting ↦ absurd (ground (arith, empty))
          | inr done ↦ elim (done x e) [
            | inl old ↦ old.0
            | inr left ↦ absurd (ground (arith, left.1))
          ]
        ]

    -- When there are more sets than cores and some set, that edges lead to from a root, has a child, the
    -- candidate of a traversal is the cheapest merge: it is the merge of such a set with one of its
    -- children, with that merge's cost and instructions; its cost is at most that of any such merge, and
    -- of merges that cost as much it has the fewest instructions.
    pub traverse_all_partition_subsets-cheapest :
        (a b : ℕ)
        → ((n : ℕ) → All (λ x. contains (get_sets p) x ≡ true) (get_children p n))
        → Reaches a
        → contains (get_children p a) b ≡ true
        → IsMerge (traverse_all_partition_subsets facts partition num_cores p)
          × IsNoWorse p (traverse_all_partition_subsets facts partition num_cores p) a b
    unfolding traverse_all_partition_subsets start_traversal contains
    traverse_all_partition_subsets-cheapest a b closed reached edge =
        let fuel = length (get_roots p) + length (get_sets p) in
        let empty =
          traverse-ends facts partition num_cores p fuel (start_traversal partition p) closed
            (omega (arith, count_unvisited-le (get_roots p) (get_sets p))) in
        let (n, v) = traverse-Checks fuel 0 (start_traversal partition p) start-Checks in
        let t = traverse facts partition num_cores fuel p (start_traversal partition p) in
        elim (v.explored a (Reaches-checked n t v empty a reached)) [
          | inl waiting ↦ absurd (ground (arith, empty))
          | inr done ↦ elim (done b edge) [
            | inl old ↦ (old.2, old.1)
            | inr left ↦ absurd (ground (arith, left.1))
          ]
        ]
