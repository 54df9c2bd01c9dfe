-- ===== src/Planner/Plan/Numbering.antt =====
-- The numbers that the plan gives to the loops.
use mathlib.Core.List.{append_assoc, append-nil}
use gino.Base.{
  ℕ, ◌+◌, ◌<◌, ◌≡◌, sym, ◌∙◌, ap, true, List, [], ◌∷◌, ◌++◌, foldl, length, length-append, arith,
}
use gino.Base.Words.{u32_mod, add32, add64}
use gino.Planner.Selection.{Candidate, Selection}
use gino.Planner.Plan.{LoopOrder, Plan, no_plan, number_loops, plan_tree, run_planner}

-- The loops of all selections, tree by tree, each in the order of its selection.
abbrev pub all_selected : List Selection → List Candidate
all_selected [] = []
all_selected (s ∷ ss) = s.selected ++ all_selected ss

-- Loops numbered in sequence.
abbrev pub numbered : ℕ → List Candidate → List LoopOrder
numbered i [] = []
numbered i (c ∷ cs) = record { loop = c.loop; index = i } ∷ numbered (i + 1) cs

numbered-append :
    (i : ℕ) (cs ds : List Candidate)
    → numbered i (cs ++ ds) ≡ numbered i cs ++ numbered (i + length cs) ds
numbered-append i [] ds = ap (λ (k : ℕ). numbered k ds) (omega arith)
numbered-append i (c ∷ cs) ds = rw (numbered-append (i + 1) cs ds) (
    ap (λ (k : ℕ). record { loop = c.loop; index = i } ∷ numbered (i + 1) cs ++ numbered k ds)
      (omega arith))

number_loops-metadata :
    (p : Plan) (cs : List Candidate)
    → p.next_index + length cs < u32_mod
    → ((number_loops p cs).metadata ≡ p.metadata ++ numbered p.next_index cs)
      × ((number_loops p cs).next_index ≡ p.next_index + length cs)
unfolding number_loops
number_loops-metadata p [] h = (rw append-nil, omega arith)
number_loops-metadata p (c ∷ cs) h =
    let q : Plan = record p {
      metadata = p.metadata ++ record { loop = c.loop; index = p.next_index } ∷ [];
      next_index = add32 p.next_index 1;
      modified = true;
    } in
    let step : add32 p.next_index 1 ≡ p.next_index + 1 = omega arith in
    let rest = number_loops-metadata q cs (omega arith) in
    (
      rest.0
          ∙ append_assoc p.metadata (record { loop = c.loop; index = p.next_index } ∷ [])
              (numbered (add32 p.next_index 1) cs)
          ∙ ap
              (λ (k : ℕ).
                p.metadata ++ record { loop = c.loop; index = p.next_index } ∷ numbered k cs)
              step,
      omega (arith, rest.1),
    )

plan_trees-metadata :
    (p : Plan) (trees : List Selection)
    → p.next_index + length (all_selected trees) < u32_mod
    → (foldl plan_tree p trees).metadata ≡ p.metadata ++ numbered p.next_index (all_selected trees)
unfolding plan_tree
plan_trees-metadata p [] h = rw append-nil
plan_trees-metadata p (s ∷ ss) h =
    let one =
      number_loops-metadata
        (record p {
          max_time_saved = add64 p.max_time_saved s.max_time_saved;
          max_time_saved_with_doall_only =
              add64 p.max_time_saved_with_doall_only s.max_time_saved_with_doall_only;
        })
        s.selected (omega (arith, length-append s.selected (all_selected ss))) in
    plan_trees-metadata (plan_tree p s) ss
      (omega (arith, one.1, length-append s.selected (all_selected ss)))
    ∙ rw (one.0, one.1)
        (append_assoc p.metadata (numbered p.next_index s.selected)
            (numbered (p.next_index + length s.selected) (all_selected ss))
          ∙ ap (◌++◌ p.metadata) (sym (numbered-append p.next_index s.selected (all_selected ss))))

-- While there are fewer than 2 ^ 32 selected loops, the plan numbers them from 0 in one sequence:
-- tree by tree, and within a tree in the order of its selection; each index is used once.
pub run_planner-numbered :
    (trees : List Selection)
    → length (all_selected trees) < u32_mod
    → (run_planner trees).metadata ≡ numbered 0 (all_selected trees)
unfolding run_planner
run_planner-numbered trees h = plan_trees-metadata no_plan trees (omega arith)
