-- ===== src/Heuristics/Ends.antt =====
-- The traversal ends: each round takes a set from the queue, and each set enters it once.
use gino.Base.{
  ℕ, zero, suc, ◌+◌, ◌≤◌, ◌≡◌, true, List, [], ◌∷◌, ◌++◌, length, length-append, contains,
  count_unvisited, count_unvisited-less, if◌then◌else◌, arith, Bool-cases, List-cases, inl, inr,
  All,
}
use gino.Heuristics.{
  SccFacts, Partition, Traversal, check_if_should_merge, visit_children, traverse,
}

module _ (facts : SccFacts) (partition : Partition) (num_cores : ℕ)
    (p : Partition.State partition) where
  open partition use {get_sets, get_children}

  abbrev work : Traversal → ℕ
  work t = length t.sub_to_check + count_unvisited t.already_checked (get_sets p)

  visit_children-work :
      (sub : ℕ) (children : List ℕ) (t : Traversal)
      → All (λ x. contains (get_sets p) x ≡ true) children
      → work (visit_children facts partition num_cores p sub children t) ≤ work t
  unfolding visit_children
  visit_children-work sub [] t a = omega arith
  visit_children-work sub (x ∷ children) t a = elim (Bool-cases (contains t.already_checked x)) [
    | inl seen ↦ ground (
      arith,
      seen,
      visit_children-work sub children
          (record {
            sub_to_check =
                if contains t.already_checked x then t.sub_to_check else t.sub_to_check ++ x ∷ [];
            already_checked =
                if contains t.already_checked x then t.already_checked else x ∷ t.already_checked;
            candidate = check_if_should_merge facts partition num_cores p t.candidate sub x;
          })
          a.1,
    )
    | inr fresh ↦ ground (
      arith,
      fresh,
      count_unvisited-less t.already_checked x (get_sets p) fresh a.0,
      length-append t.sub_to_check (x ∷ []),
      visit_children-work sub children
          (record {
            sub_to_check =
                if contains t.already_checked x then t.sub_to_check else t.sub_to_check ++ x ∷ [];
            already_checked =
                if contains t.already_checked x then t.already_checked else x ∷ t.already_checked;
            candidate = check_if_should_merge facts partition num_cores p t.candidate sub x;
          })
          a.1,
    )
  ]

  pub traverse-ends :
      (fuel : ℕ) (t : Traversal)
      → ((n : ℕ) → All (λ x. contains (get_sets p) x ≡ true) (get_children p n))
      → work t ≤ fuel
      → (traverse facts partition num_cores fuel p t).sub_to_check ≡ []
  unfolding traverse
  traverse-ends zero t closed h = elim (List-cases t.sub_to_check) [
    | inl empty ↦ empty
    | inr (sub, subs, queued) ↦ absurd (ground (arith, queued))
  ]
  traverse-ends (suc fuel) t closed h = elim (List-cases t.sub_to_check) [
    | inl empty ↦ rw (empty, traverse) empty
    | inr (sub, subs, queued) ↦
        rw (queued, traverse)
          (traverse-ends fuel
            (visit_children facts partition num_cores p sub (get_children p sub)
              (record t { sub_to_check = subs }))
            closed
            (ground (
              arith,
              queued,
              visit_children-work sub (get_children p sub) (record t { sub_to_check = subs })
                  (closed sub),
            )))
  ]
