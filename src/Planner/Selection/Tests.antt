-- ===== src/Planner/Selection/Tests.antt =====
-- The selection at concrete inputs.
use gino.Base.{◌≡◌, refl, false, List, [], ◌∷◌}
use gino.Planner.Selection.{
  Candidate, compare_operator, filter_loops, is_selected, saves_too_little, sort_loops, insert_loop,
}

abbrev inner : Candidate
inner = record { loop = 1; nesting_level = 2; time_saved = 30 }

abbrev outer : Candidate
outer = record { loop = 0; nesting_level = 1; time_saved = 30 }

abbrev tiny : Candidate
tiny = record { loop = 2; nesting_level = 1; time_saved = 1 }

abbrev candidates : List Candidate
candidates = inner ∷ tiny ∷ outer ∷ []

-- Loop 2 saves less than 2 percent; of the others the one that is nested less deeply comes first.
sorted_candidates : sort_loops (filter_loops false 100 candidates) ≡ outer ∷ inner ∷ []
unfolding sort_loops insert_loop compare_operator filter_loops is_selected saves_too_little
sorted_candidates = refl
