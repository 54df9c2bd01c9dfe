-- ===== src/Planner/Savings/Tests.antt =====
-- The savings of a nesting tree at concrete inputs: loop 0 holds loops 1 and 2.
use gino.Base.{ℕ, ◌≤◌, ◌≡◌, refl, inl, inr, Bool, List, [], ◌∷◌, leb, ◌+◌, ◌*◌, arith, ℕ_discrete}
use gino.Planner.LoopTree.{LoopTree, node, leaf, child, PostOrder, total}
use gino.Planner.Savings.{evaluate_savings, evaluate_all_savings}
use gino.Planner.Savings.Optimal.{
  Choice, gain, IsClosed, have_considered, evaluate_savings-max, evaluate_savings-skipped_root,
}

abbrev inner_a : LoopTree
inner_a = node 1 leaf

abbrev inner_b : LoopTree
inner_b = node 2 leaf

abbrev nest : LoopTree
nest = node 0 (child inner_a (child inner_b leaf))

abbrev visits : List LoopTree
visits = inner_a ∷ inner_b ∷ nest ∷ []

abbrev saved : ℕ → ℕ
saved l = 30 + 10 * l

abbrev is_inner : ℕ → Bool
is_inner l = leb 1 l

-- With all loops the two nested ones (40 + 50) beat the outer one (30); with the nested loops
-- alone the tree is reported to save nothing.
both_savings : evaluate_all_savings saved is_inner visits nest ≡ (90, 0)
unfolding evaluate_all_savings ℕ_discrete
both_savings = refl

visits-PostOrder : PostOrder [] visits
visits-PostOrder = (tt, tt, (tt, omega arith, ((inr (inl refl), (inl refl, tt)), omega arith, tt)))

-- Loops 0 and 1 are considered.
abbrev is_first : ℕ → Bool
is_first l = leb l 1

nest-IsClosed : IsClosed is_first nest
unfolding IsClosed have_considered
nest-IsClosed = (λ e. absurd (ground arith), ((λ _. refl, tt), ((λ _. refl, tt), tt)))

evaluate_savings-max_example :
    ((c : Choice is_first nest)
      → gain is_first saved c ≤ evaluate_savings saved is_first visits nest)
    × ((c : Choice is_first nest) × (gain is_first saved c
          ≡ evaluate_savings saved is_first visits nest))
unfolding total
evaluate_savings-max_example =
    evaluate_savings-max is_first saved visits nest visits-PostOrder (inr (inr (inl refl)))
      (omega arith) nest-IsClosed

evaluate_savings-skipped_root_example :
    (evaluate_savings saved is_inner visits nest ≡ 0)
    × (40 ≤ evaluate_savings saved is_inner visits inner_a)
unfolding total
evaluate_savings-skipped_root_example =
    evaluate_savings-skipped_root is_inner saved visits nest inner_a visits-PostOrder (inl refl)
      (omega arith) refl refl
