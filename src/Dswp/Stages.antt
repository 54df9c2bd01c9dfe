-- ===== src/Dswp/Stages.antt =====
-- DSWP::isCompleteAndValidStageStructure (src/core/dswp/src/Pipeline.cpp): whether the stages of a
-- pipeline cover the SCCs of a loop.
pub mod Cover
mod Tests
use gino.Base.{
  ℕ, Bool, true, false, List, [], ◌∷◌, ◌++◌, Option, none, some, contains, if◌then◌else◌,
}

-- The two sets of a DSWPTask.
pub record StageSccs : Type 0 where
  pub stage_sccs : List ℕ
  pub clonable_sccs : List ℕ

-- The loop over the SCCs of a stage, with all SCCs seen so far; none where it returns false.
pub add_stage_sccs : List ℕ → List ℕ → Option (List ℕ)
add_stage_sccs all [] = some all
add_stage_sccs all (scc ∷ sccs) =
    let rest = add_stage_sccs (scc ∷ all) sccs in if contains all scc then none else rest

-- The loop over the stages.
pub add_stages : List ℕ → List StageSccs → Option (List ℕ)
unfolding add_stage_sccs
add_stages all [] = some all
add_stages all (stage ∷ stages) = elim (add_stage_sccs all stage.stage_sccs) [
  | none ↦ none
  | some seen ↦ add_stages (stage.clonable_sccs ++ seen) stages
]

-- The loop over the nodes of the SCCDAG.
pub are_all_present : (ℕ → Bool) → List ℕ → List ℕ → Bool
are_all_present can_be_cloned all [] = true
are_all_present can_be_cloned all (node ∷ nodes) =
    let rest = are_all_present can_be_cloned all nodes in
    if can_be_cloned node then rest else if contains all node then rest else false

pub is_complete_and_valid : (ℕ → Bool) → List ℕ → List StageSccs → Bool
unfolding add_stages are_all_present
is_complete_and_valid can_be_cloned nodes stages = elim (add_stages [] stages) [
  | none ↦ false
  | some all ↦ are_all_present can_be_cloned all nodes
]
