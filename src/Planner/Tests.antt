-- ===== src/Planner/Tests.antt =====
-- The filter, the timing model and the plan at concrete inputs.
use gino.Base.{ℕ, ◌*◌, ◌≡◌, true, List, [], ◌∷◌, arith}
use gino.Planner.Profiles.{Profiles}
use gino.Planner.Selection.{Candidate, Selection}
use gino.Planner.Plan.{run_planner}
use gino.Planner.Plan.Numbering.{run_planner-numbered}

abbrev profiles : Profiles
profiles = record {
  is_available = true;
  has_been_executed = λ l. true;
  iterations = λ l. 100;
  insts_per_invocation = λ l. record { num = 2500; den = 1 };
  iterations_per_invocation = λ l. record { num = 25; den = 2 };
  insts_per_iteration = λ l. record { num = 5000; den = 100 };
  coverage = λ l. record { num = 1; den = 2 };
  scc_instructions = λ scc. scc * 100;
  total_instructions = 10000;
}

abbrev select_loops : List Candidate → Selection
select_loops cs = record { selected = cs; max_time_saved = 10; max_time_saved_with_doall_only = 5 }

abbrev loop : ℕ → Candidate
loop l = record { loop = l; nesting_level = 1; time_saved = 10 }

abbrev trees : List Selection
trees = select_loops (loop 4 ∷ loop 2 ∷ []) ∷ select_loops [] ∷ select_loops (loop 7 ∷ []) ∷ []

run_planner-numbered_example :
    (run_planner trees).metadata
    ≡ record { loop = 4; index = 0 }
      ∷ record { loop = 2; index = 1 }
      ∷ record { loop = 7; index = 2 }
      ∷ []
run_planner-numbered_example = run_planner-numbered trees (omega arith)
