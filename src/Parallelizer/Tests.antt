-- ===== src/Parallelizer/Tests.antt =====
-- The parallelizer at concrete inputs: three loops, of which loop 4 and loop 2 share a basic block.
use gino.Base.{ℕ, ◌≡◌, refl, ◌↔◌, true, false, List, [], ◌∷◌, some, contains, arith}
use gino.Planner.Selection.{Candidate}
use gino.Parallelizer.{Options, select_by, is_selected, order_loops, parallelize_loops}
use gino.Parallelizer.Disjoint.{ArePairwiseApart, parallelize_loops-apart}
use gino.Parallelizer.Order.{get_metadata, order_loops-plan}
use gino.Planner.Plan.Numbering.{numbered}
use gino.Parallelizer.Technique.{
  doall, helix, dswp, Answers, parallelize_loop, IsPreferred, parallelize_loop_iff,
}

abbrev no_options : Options
no_options = record { white_list = []; black_list = [] }

abbrev loop : ℕ → Candidate
loop l = record { loop = l; nesting_level = 1; time_saved = 10 }

abbrev plan : List Candidate
plan = loop 4 ∷ loop 2 ∷ loop 7 ∷ []

abbrev basic_blocks : ℕ → List ℕ
basic_blocks l = l ∷ 2 ∷ []

order_loops-plan_example :
    order_loops no_options (get_metadata (numbered 0 plan)) (2 ∷ 3 ∷ 4 ∷ 7 ∷ [])
    ≡ (0, 4) ∷ (1, 2) ∷ (2, 7) ∷ []
unfolding is_selected select_by contains
order_loops-plan_example =
    order_loops-plan no_options (λ i. refl) plan (2 ∷ 3 ∷ 4 ∷ 7 ∷ []) (refl, (refl, (refl, tt)))
      (
        (λ e. omega (arith, e), (λ e. omega (arith, e), tt)),
        ((λ e. omega (arith, e), tt), (tt, tt)),
      )

parallelize_loops-apart_example :
    ArePairwiseApart basic_blocks
      (parallelize_loops basic_blocks
        (λ done l. true)
        no_options
        (get_metadata (numbered 0 plan))
        (2 ∷ 4 ∷ 7 ∷ [])).parallelized
parallelize_loops-apart_example =
    parallelize_loops-apart basic_blocks (λ done l. true) no_options
      (get_metadata (numbered 0 plan)) (2 ∷ 4 ∷ 7 ∷ [])

-- DOALL is not applicable, HELIX and DSWP are.
abbrev answers : Answers
answers = record {
  is_enabled = λ t. true;
  is_enabled_for_loop = λ t. true;
  can_be_applied = λ t. elim t [ doall ↦ false | helix ↦ true | dswp ↦ true ];
  apply = λ t. true;
}

parallelize_loop_iff_example :
    (parallelize_loop answers ≡ (true, some helix)) ↔ (IsPreferred answers helix × (true ≡ true))
parallelize_loop_iff_example = parallelize_loop_iff answers helix
