-- ===== src/Planner/Plan.antt =====
-- Planner::runOnModule (src/core/parallelization_planner/src/Pass.cpp): the selected loops of all
-- nesting trees are numbered in one sequence, which is attached to them as metadata.
pub mod Numbering
use gino.Base.{ℕ, ◌+◌, Bool, true, false, List, [], ◌∷◌, ◌++◌, ◌||◌, foldl}
use gino.Base.Words.{add32, add64}
use gino.Planner.Selection.{Candidate, Selection}

-- The metadata "noelle.parallelizer.looporder" of a loop. The source keeps the index as its decimal
-- text.
pub record LoopOrder : Type 0 where
  pub loop : ℕ
  pub index : ℕ

pub record Plan : Type 0 where
  pub metadata : List LoopOrder
  pub next_index : ℕ
  pub max_time_saved : ℕ
  pub max_time_saved_with_doall_only : ℕ
  pub modified : Bool

pub no_plan : Plan
no_plan = record {
  metadata = [];
  next_index = 0;
  max_time_saved = 0;
  max_time_saved_with_doall_only = 0;
  modified = false;
}

-- The loop over the selected loops of a tree. Metadata is kept in the order in which it is added.
pub number_loops : Plan → List Candidate → Plan
number_loops p [] = p
number_loops p (c ∷ cs) =
    number_loops
      (record p {
        metadata = p.metadata ++ record { loop = c.loop; index = p.next_index } ∷ [];
        next_index = add32 p.next_index 1;
        modified = true;
      })
      cs

pub plan_tree : Plan → Selection → Plan
unfolding number_loops
plan_tree p s =
    number_loops
      (record p {
        max_time_saved = add64 p.max_time_saved s.max_time_saved;
        max_time_saved_with_doall_only =
            add64 p.max_time_saved_with_doall_only s.max_time_saved_with_doall_only;
      })
      s.selected

pub run_planner : List Selection → Plan
unfolding plan_tree no_plan
run_planner trees = foldl plan_tree no_plan trees
