-- ===== src/Heuristics/Tests.antt =====
-- The heuristics on a chain of sets, each with one SCC of its own number.
use gino.Base.{
  ℕ, zero, suc, ◌+◌, ◌-◌, ◌<◌, ◌≡◌, refl, true, false, List, [], ◌∷◌, length, contains, ltb,
  if◌then◌else◌, arith, All, ap, subst, sym,
}
use gino.Heuristics.{SccFacts, Partition, traverse_all_partition_subsets, min_max_merge}
use gino.Heuristics.Cheapest.{
  IsMerge, IsNoWorse, root, child, traverse_all_partition_subsets-cheapest,
}
use gino.Heuristics.Merges.{min_max_merge-ends}

abbrev facts : SccFacts
facts = record {
  clonable_parents = λ scc. [];
  incoming_externals = λ scc. scc ∷ [];
  scc_to_cost = λ scc. 10 + scc;
  instruction_count = λ scc. scc;
}

abbrev down_from : ℕ → List ℕ
down_from zero = []
down_from (suc n) = suc n ∷ down_from n

abbrev chain : Partition
chain = record {
  State = ℕ;
  get_sets = down_from;
  get_roots = λ n. 1 ∷ [];
  get_children = λ n a. if ltb a n then suc a ∷ [] else [];
  get_sccs = λ n a. a ∷ [];
  get_cycle_introduced_by_merging = λ n a b. a ∷ b ∷ [];
  merge_sets = λ n m. n - 1;
}

in_chain : (a : ℕ) → All (λ x. contains (down_from 3) x ≡ true) (if ltb a 3 then suc a ∷ [] else [])
unfolding contains
in_chain zero = (refl, tt)
in_chain (suc zero) = (refl, tt)
in_chain (suc (suc zero)) = (refl, tt)
in_chain (suc (suc (suc a))) =
    subst
      (λ b.
        All (λ x. contains (down_from 3) x ≡ true) (if b then suc (suc (suc (suc a))) ∷ [] else []))
      (sym too_far) tt
  where
    too_far : ltb (suc (suc (suc a))) 3 ≡ false
    too_far = ground arith

length-down_from : (n : ℕ) → length (down_from n) ≡ n
length-down_from zero = refl
length-down_from (suc n) = ap suc (length-down_from n)

shrinks :
    (n a b : ℕ)
    → contains (if ltb a n then suc a ∷ [] else []) b ≡ true
    → length (down_from (n - 1)) < length (down_from n)
unfolding contains
shrinks n a b h = ground (arith, length-down_from n, length-down_from (n - 1))

-- With two cores and three sets, of the merges of 1 with 2 and of 2 with 3 the first one is cheaper.
traverse_all_partition_subsets-cheapest_example :
    IsMerge facts chain 2 3 (omega arith) (traverse_all_partition_subsets facts chain 2 3)
    × IsNoWorse facts chain 2 3 (traverse_all_partition_subsets facts chain 2 3) 2 3
unfolding contains
traverse_all_partition_subsets-cheapest_example =
    traverse_all_partition_subsets-cheapest facts chain 2 3 (omega arith) 2 3 in_chain
      (child 1 2 (root 1 refl) refl) refl

min_max_merge-ends_example :
    (traverse_all_partition_subsets facts chain 2
      (min_max_merge facts chain 2 3 3)).min_sets_to_merge
    ≡ []
min_max_merge-ends_example = min_max_merge-ends facts chain 2 3 3 shrinks (omega arith)
