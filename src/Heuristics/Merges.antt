-- ===== src/Heuristics/Merges.antt =====
-- The loop of Heuristics::minMaxMergePartition ends.
use gino.Base.{
  ℕ, zero, suc, ◌+◌, ◌≤◌, ◌<◌, ◌≡◌, refl, ◌⊎◌, inl, inr, true, List, [], ◌∷◌, ◌++◌, length,
  contains, if◌then◌else◌, arith, List-cases, subst, sym,
}
use gino.Heuristics.{
  SccFacts, Partition, Candidate, reset_candidate, check_if_should_merge, Traversal, visit_children,
  traverse, start_traversal, traverse_all_partition_subsets, min_max_merge,
}

module _ (facts : SccFacts) (partition : Partition) (num_cores : ℕ) where
  open partition use {
    State, get_sets, get_roots, get_children, get_cycle_introduced_by_merging, merge_sets,
  }

  -- The candidate is the merge of a set with one of its children, if there is one.
  abbrev IsMerge : State → Candidate → Type 0
  IsMerge p c =
      (c.min_sets_to_merge ≡ [])
      ⊎ ((a : ℕ) × (b : ℕ) × (contains (get_children p a) b ≡ true)
          × (c.min_sets_to_merge ≡ get_cycle_introduced_by_merging p a b))

  kept_or_merge :
      (p : State) (c : Candidate) (a b : ℕ)
      → (check_if_should_merge facts partition num_cores p c a b ≡ c)
        ⊎ ((check_if_should_merge facts partition num_cores p c a b).min_sets_to_merge
            ≡ get_cycle_introduced_by_merging p a b)
  unfolding check_if_should_merge
  kept_or_merge p c a b = ground arith

  check-IsMerge :
      (p : State) (c : Candidate) (a b : ℕ)
      → contains (get_children p a) b ≡ true
      → IsMerge p c
      → IsMerge p (check_if_should_merge facts partition num_cores p c a b)
  unfolding check_if_should_merge
  check-IsMerge p c a b edge m = elim (kept_or_merge p c a b) [
    | inl kept ↦ subst (IsMerge p) (sym kept) m
    | inr merge ↦ inr (a, b, edge, merge)
  ]

  visit_children-IsMerge :
      (p : State) (sub : ℕ) (children : List ℕ) (t : Traversal)
      → ((x : ℕ) → contains children x ≡ true → contains (get_children p sub) x ≡ true)
      → IsMerge p t.candidate
      → IsMerge p (visit_children facts partition num_cores p sub children t).candidate
  unfolding visit_children contains
  visit_children-IsMerge p sub [] t within m = m
  visit_children-IsMerge p sub (x ∷ children) t within m =
      visit_children-IsMerge p sub children
        (record {
          sub_to_check =
              if contains t.already_checked x then t.sub_to_check else t.sub_to_check ++ x ∷ [];
          already_checked =
              if contains t.already_checked x then t.already_checked else x ∷ t.already_checked;
          candidate = check_if_should_merge facts partition num_cores p t.candidate sub x;
        })
        (λ y h. within y (ground arith))
        (check-IsMerge p t.candidate sub x (within x (ground arith)) m)

  traverse-IsMerge :
      (fuel : ℕ) (p : State) (t : Traversal)
      → IsMerge p t.candidate
      → IsMerge p (traverse facts partition num_cores fuel p t).candidate
  unfolding traverse
  traverse-IsMerge zero p t m = m
  traverse-IsMerge (suc fuel) p t m = elim (List-cases t.sub_to_check) [
    | inl empty ↦ rw (empty, traverse) m
    | inr (sub, subs, queued) ↦
        rw (queued, traverse)
          (traverse-IsMerge fuel p
            (visit_children facts partition num_cores p sub (get_children p sub)
              (record t { sub_to_check = subs }))
            (visit_children-IsMerge p sub (get_children p sub) (record t { sub_to_check = subs })
              (λ x h. h) m))
  ]

  found-IsMerge :
      (p : State) → IsMerge p (traverse_all_partition_subsets facts partition num_cores p)
  unfolding traverse_all_partition_subsets start_traversal reset_candidate
  found-IsMerge p =
      traverse-IsMerge (length (get_roots p) + length (get_sets p)) p (start_traversal partition p)
        (inl refl)

  -- When merging a set with one of its children leaves fewer sets, as many rounds as there are sets are
  -- enough: the loop ends because no candidate is left.
  pub min_max_merge-ends :
      (fuel : ℕ) (p : State)
      → ((q : State) (a b : ℕ)
          → contains (get_children q a) b ≡ true
          → length (get_sets (merge_sets q (get_cycle_introduced_by_merging q a b)))
            < length (get_sets q))
      → length (get_sets p) ≤ fuel
      → (traverse_all_partition_subsets facts partition num_cores
          (min_max_merge facts partition num_cores fuel p)).min_sets_to_merge
        ≡ []
  unfolding min_max_merge
  min_max_merge-ends zero p shrinks h = elim (found-IsMerge p) [
    | inl empty ↦ empty
    | inr (a, b, edge, merge) ↦ absurd (omega (arith, shrinks p a b edge))
  ]
  min_max_merge-ends (suc fuel) p shrinks h = elim (found-IsMerge p) [
    | inl empty ↦ rw (empty, min_max_merge) empty
    | inr (a, b, edge, merge) ↦
        elim (List-cases
          (traverse_all_partition_subsets facts partition num_cores p).min_sets_to_merge) [
            | inl empty ↦ rw (empty, min_max_merge) empty
            | inr (set, sets, some_sets) ↦
                rw (some_sets, min_max_merge)
                  (subst
                    (λ m.
                      (traverse_all_partition_subsets facts partition num_cores (
                        min_max_merge facts partition num_cores fuel
                          (merge_sets p m))).min_sets_to_merge
                      ≡ [])
                    (sym merge)
                    (min_max_merge-ends fuel (merge_sets p (get_cycle_introduced_by_merging p a b))
                      shrinks (omega (arith, shrinks p a b edge))))
          ]
  ]
