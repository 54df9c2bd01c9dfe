-- ===== src/Planner/Selection.antt =====
-- Planner::selectTheOrderOfLoopsToParallelize
-- (src/core/parallelization_planner/src/LoopSelector.cpp): the loops of one nesting tree that are
-- worth parallelizing, in the order in which that is to be tried.
pub mod Ordering
mod Tests
use gino.Base.{
  ℕ, ◌*◌, Bool, true, false, not, ◌||◌, List, [], ◌∷◌, filter, is_true, ltb, ◌==◌, if◌then◌else◌,
}
use gino.Planner.LoopTree.{LoopTree}
use gino.Planner.Savings.{evaluate_all_savings}

-- A loop with what the comparison reads: the time saved, and the nesting level.
pub record Candidate : Type 0 where
  pub loop : ℕ
  pub nesting_level : ℕ
  pub time_saved : ℕ

-- Less than 2 percent of the program's instructions, `saved / total * 100 < 2`, on exact numbers.
-- With no instructions at all the source compares an infinity or a NaN, and the test fails too.
pub saves_too_little : ℕ → Candidate → Bool
saves_too_little total_instructions c = ltb (c.time_saved * 100) (2 * total_instructions)

pub is_selected : Bool → ℕ → Candidate → Bool
is_selected force total_instructions c = force || not (saves_too_little total_instructions c)

pub filter_loops : Bool → ℕ → List Candidate → List Candidate
filter_loops force total_instructions =
    filter (λ c. is_true (is_selected force total_instructions c))

-- The comparison that `std::sort` is given.
pub compare_operator : Candidate → Candidate → Bool
compare_operator l1 l2 =
    if not (l1.time_saved == l2.time_saved)
    then ltb l2.time_saved l1.time_saved
    else ltb l1.nesting_level l2.nesting_level

-- `std::sort`, as an insertion sort; it leaves the order of equal loops open.
insert_loop : Candidate → List Candidate → List Candidate
insert_loop c [] = c ∷ []
insert_loop c (d ∷ ds) = if compare_operator d c then d ∷ insert_loop c ds else c ∷ d ∷ ds

pub sort_loops : List Candidate → List Candidate
unfolding insert_loop
sort_loops [] = []
sort_loops (c ∷ cs) = insert_loop c (sort_loops cs)

pub record Selection : Type 0 where
  pub selected : List Candidate
  pub max_time_saved : ℕ
  pub max_time_saved_with_doall_only : ℕ

-- The savings are evaluated only if a loop is selected.
evaluate_selection : List Candidate → ℕ × ℕ → Selection
unfolding sort_loops
evaluate_selection [] savings = record {
  selected = [];
  max_time_saved = 0;
  max_time_saved_with_doall_only = 0;
}
evaluate_selection (c ∷ cs) savings = record {
  selected = sort_loops (c ∷ cs);
  max_time_saved = savings.0;
  max_time_saved_with_doall_only = savings.1;
}

-- `candidates` are the loops of the tree, in the order of the map that holds them.
pub select_the_order :
    Bool → ℕ → List Candidate → (ℕ → ℕ) → (ℕ → Bool) → List LoopTree → LoopTree → Selection
unfolding evaluate_selection filter_loops
select_the_order force total_instructions candidates time_saved doall_loops visits tree =
    evaluate_selection (filter_loops force total_instructions candidates)
      (evaluate_all_savings time_saved doall_loops visits tree)
