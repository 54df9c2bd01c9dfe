-- ===== src/Heuristics.antt =====
-- The heuristics that merge the stages of a DSWP pipeline (src/core/heuristics/src): the cost of a set
-- of SCCs (InvocationLatency.cpp), the search for the cheapest merge (PartitionCostAnalysis.cpp,
-- MinMaxSizePartitionAnalysis.cpp), and the loop that merges (Heuristics.cpp).
pub mod Cheapest
pub mod Ends
pub mod Merges
mod Tests
use gino.Base.{
  ℕ, zero, suc, ◌+◌, ◌-◌, ◌*◌, Bool, true, false, not, ◌&&◌, ◌||◌, List, [], ◌∷◌, ◌++◌, length,
  contains, set_insert, ltb, leb, ◌==◌, if◌then◌else◌,
}
use gino.Base.Words.{u64_mod, add64}

-- What NOELLE tells of the SCCs, which the code memoizes: the clonable SCCs that one depends on, the
-- values that it takes from other sets, and its instructions, executed and static.
pub record SccFacts : Type 0 where
  pub clonable_parents : ℕ → List ℕ
  pub incoming_externals : ℕ → List ℕ
  pub scc_to_cost : ℕ → ℕ
  pub instruction_count : ℕ → ℕ

-- Insertion of a range into a set.
pub insert_all : List ℕ → List ℕ → List ℕ
insert_all [] into = into
insert_all (x ∷ xs) into = insert_all xs (set_insert x into)

pub queue_latency : ℕ → ℕ
queue_latency value = 100

module _ (facts : SccFacts) where
  -- The SCCs of a set with the clonable parents of each.
  pub subset_sccs : List ℕ → List ℕ → List ℕ
  unfolding insert_all
  subset_sccs [] into = into
  subset_sccs (scc ∷ sccs) into = subset_sccs sccs (insert_all (facts.clonable_parents scc) into)

  -- The internal cost of a set, and the values in queues.
  pub internal_cost : List ℕ → ℕ → List ℕ → ℕ × List ℕ
  unfolding insert_all
  internal_cost [] cost values = (cost, values)
  internal_cost (scc ∷ sccs) cost values =
      internal_cost sccs (add64 cost (facts.scc_to_cost scc))
        (insert_all (facts.incoming_externals scc) values)

  pub sum_queue_latency : List ℕ → ℕ → ℕ
  unfolding queue_latency
  sum_queue_latency [] cost = cost
  sum_queue_latency (value ∷ values) cost =
      sum_queue_latency values (add64 cost (queue_latency value))

  -- latencyPerInvocation, for one set of SCCs.
  pub latency_per_invocation : List ℕ → ℕ
  unfolding insert_all subset_sccs internal_cost sum_queue_latency
  latency_per_invocation sccs =
      let costs = internal_cost (subset_sccs sccs (insert_all sccs [])) 0 [] in
      sum_queue_latency costs.1 (if ltb 0 costs.0 then costs.0 else 0)

-- The partition of the SCCDAG, as NOELLE keeps it; sets are numbers.
pub record Partition : Type 1 where
  pub State : Type 0
  pub get_sets : State → List ℕ
  pub get_roots : State → List ℕ
  pub get_children : State → ℕ → List ℕ
  pub get_sccs : State → ℕ → List ℕ
  pub get_cycle_introduced_by_merging : State → ℕ → ℕ → List ℕ
  pub merge_sets : State → List ℕ → State

-- The best merge so far: no sets at first.
pub record Candidate : Type 0 where
  pub min_sets_to_merge : List ℕ
  pub cost_of_merged_set : ℕ
  pub num_instructions : ℕ

unfoldable pub reset_candidate : Candidate
reset_candidate = record {
  min_sets_to_merge = [];
  cost_of_merged_set = u64_mod - 1;
  num_instructions = u64_mod - 1;
}

-- The queue of the traversal, the sets checked, and the candidate.
pub record Traversal : Type 0 where
  pub sub_to_check : List ℕ
  pub already_checked : List ℕ
  pub candidate : Candidate

module _ (partition : Partition) where
  open partition use {State, get_roots}

  unfoldable pub start_traversal : State → Traversal
  start_traversal p = record {
    sub_to_check = get_roots p;
    already_checked = get_roots p;
    candidate = reset_candidate;
  }

module _ (facts : SccFacts) (partition : Partition) where
  open partition use {State, get_sccs, get_cycle_introduced_by_merging}

  -- The SCCs of all sets, and their instructions.
  pub gather : State → List ℕ → List ℕ
  unfolding insert_all
  gather p [] = []
  gather p (set ∷ sets) = insert_all (get_sccs p set) (gather p sets)

  pub count_insts : List ℕ → ℕ
  count_insts [] = 0
  count_insts (scc ∷ sccs) = add64 (facts.instruction_count scc) (count_insts sccs)

  pub count_insts_of_sets : State → List ℕ → ℕ
  unfolding count_insts
  count_insts_of_sets p [] = 0
  count_insts_of_sets p (set ∷ sets) =
      add64 (count_insts (get_sccs p set)) (count_insts_of_sets p sets)

  -- Cost and instructions of the merge of two sets.
  pub cost_of : State → ℕ → ℕ → ℕ
  unfolding latency_per_invocation gather
  cost_of p a b = latency_per_invocation facts (gather p (get_cycle_introduced_by_merging p a b))

  pub insts_of : State → ℕ → ℕ → ℕ
  unfolding count_insts_of_sets
  insts_of p a b = count_insts_of_sets p (get_cycle_introduced_by_merging p a b)

module _ (facts : SccFacts) (partition : Partition) (num_cores : ℕ) where
  open partition use {
    State, get_sets, get_roots, get_children, get_cycle_introduced_by_merging, merge_sets,
  }

  unfoldable pub check_if_should_merge : State → Candidate → ℕ → ℕ → Candidate
  check_if_should_merge p c a b =
      if leb (length (get_sets p)) num_cores
      then c
      else if ltb c.cost_of_merged_set (cost_of facts partition p a b)
      then c
      else if cost_of facts partition p a b == c.cost_of_merged_set
          && ltb c.num_instructions (insts_of facts partition p a b)
      then c
      else record {
        min_sets_to_merge = get_cycle_introduced_by_merging p a b;
        cost_of_merged_set = cost_of facts partition p a b;
        num_instructions = insts_of facts partition p a b;
      }

  -- The loop over the children of a set.
  unfoldable pub visit_children : State → ℕ → List ℕ → Traversal → Traversal
  visit_children p sub [] t = t
  visit_children p sub (child ∷ children) t = visit_children p sub children (record {
    sub_to_check =
        if contains t.already_checked child then t.sub_to_check else t.sub_to_check ++ child ∷ [];
    already_checked =
        if contains t.already_checked child then t.already_checked else child ∷ t.already_checked;
    candidate = check_if_should_merge p t.candidate sub child;
  })

  -- The while loop, with fuel.
  unfoldable pub traverse : ℕ → State → Traversal → Traversal
  traverse zero p t = t
  traverse (suc fuel) p t = elim t.sub_to_check [
    | [] ↦ t
    | sub ∷ subs ↦
        traverse fuel p
          (visit_children p sub (get_children p sub) (record t { sub_to_check = subs }))
  ]

  unfoldable pub traverse_all_partition_subsets : State → Candidate
  traverse_all_partition_subsets p =
      (traverse (length (get_roots p) + length (get_sets p)) p
        (start_traversal partition p)).candidate

  -- mergeCandidateSubsets, under the loop of minMaxMergePartition, with fuel.
  unfoldable pub min_max_merge : ℕ → State → State
  min_max_merge zero p = p
  min_max_merge (suc fuel) p =
      let merged =
        min_max_merge fuel (merge_sets p (traverse_all_partition_subsets p).min_sets_to_merge) in
      elim (traverse_all_partition_subsets p).min_sets_to_merge [ [] ↦ p | set ∷ sets ↦ merged ]
