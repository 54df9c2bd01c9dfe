-- ===== src/Planner/Savings.antt =====
-- Planner::evaluateSavings (src/core/parallelization_planner/src/LoopEvaluation.cpp): the maximum
-- time that parallelizing the loops of a nesting tree can save.
mod Best
pub mod Optimal
mod Tests
use gino.Base.{ℕ, max, Bool, true, List, foldl, update, if◌then◌else◌}
use gino.Base.Words.{add64}
use gino.Planner.LoopTree.{LoopTree, node, Children, leaf, child, get_loop}

-- `std::map<LoopStructure *, uint64_t>`: a missing key reads as 0.
abbrev pub SavedMap : Type 0
SavedMap = ℕ → ℕ

module _ (time_saved : ℕ → ℕ) (consider_loop : ℕ → Bool) where
  -- The loop over the children, with `maxChildrenSaved` so far.
  pub accumulate_children : SavedMap → Children → ℕ → ℕ
  accumulate_children m leaf saved = saved
  accumulate_children m (child (node l grandchildren) cs) saved =
      accumulate_children m cs (if consider_loop l then add64 saved (m l) else saved)

  -- The visitor.
  pub visit_loop : SavedMap → LoopTree → SavedMap
  unfolding accumulate_children
  visit_loop m (node l cs) =
      if consider_loop l then update m l (max (accumulate_children m cs 0) (time_saved l)) else m

  -- `visits` is the order in which `visitPostOrder` calls the visitor.
  pub evaluate_savings : List LoopTree → LoopTree → ℕ
  unfolding visit_loop
  evaluate_savings visits tree = foldl visit_loop (λ _. 0) visits (get_loop tree)

-- The savings with all loops considered, and with the DOALL loops only.
pub evaluate_all_savings : (ℕ → ℕ) → (ℕ → Bool) → List LoopTree → LoopTree → ℕ × ℕ
unfolding evaluate_savings
evaluate_all_savings time_saved doall_loops visits tree = (
  evaluate_savings time_saved (λ _. true) visits tree,
  evaluate_savings time_saved doall_loops visits tree,
)
