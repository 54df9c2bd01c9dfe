-- ===== src/Inliner/Pass.antt =====
-- Inliner::runOnModule, getLoopsToInline and createPreOrderedLoopSummariesFor
-- (src/core/inliner/src/Inliner.cpp).
pub mod Apart
mod Tests
use gino.Base.{
  ℕ, ltb, leb, Bool, true, false, not, Option, some, none, List, [], ◌∷◌, length, if◌then◌else◌,
}
use gino.Inliner.{FnGraph, DepthOrder}
use gino.Inliner.Calls.{BasicBlock, collect_fn_calls_and_called}
use gino.Inliner.Graph.{collect_fn_graph}
use gino.Inliner.Depth.{collect_in_depth_order_fns}
use gino.Inliner.Inline.{State, Code}
use gino.Inliner.Carried.{Analyses, inline_calls_in_loop_carried_dependences}
use gino.Inliner.Hoist.{
  Hoist, inline_fns_of_loops_to_cg_root, get_functions_to_inline, register_remaining_functions,
}

-- What LLVM and NOELLE tell of the program before the pass, and the file that the last run left.
pub record Program : Type 0 where
  pub is_enabled : Bool
  pub entry_function : Option ℕ
  pub number_of_program_instructions : ℕ
  pub fns : List ℕ
  pub records : ℕ → List (Option ℕ)
  pub blocks : ℕ → List BasicBlock
  pub get_parent : ℕ → ℕ
  pub is_loop_header : ℕ → Bool
  pub get_loop_for : ℕ → ℕ
  pub is_profile_available : Bool
  pub is_hot : ℕ → Bool
  pub should_loops_be_hoist_to_main : Bool
  pub file : Option (List ℕ)
  pub analyses : Analyses

abbrev pub max_program_instructions : ℕ
max_program_instructions = 50000

module _ (m : Program) where
  unfoldable pub calls_and_called : ℕ → List ℕ × List ℕ
  calls_and_called f =
      collect_fn_calls_and_called m.analyses.code.called_function m.analyses.is_empty m.get_parent
        (m.records f) (m.blocks f)

  unfoldable pub calls : ℕ → List ℕ
  calls f = (calls_and_called f).0

  unfoldable pub called : ℕ → List ℕ
  called f = (calls_and_called f).1

  -- The loops of a function in program order.
  unfoldable pub collect_pre_ordered_loops : List BasicBlock → List ℕ
  collect_pre_ordered_loops [] = []
  collect_pre_ordered_loops (b ∷ bs) =
      let rest = collect_pre_ordered_loops bs in
      if m.is_loop_header b.id then m.get_loop_for b.id ∷ rest else rest

  -- The loops of each function that is ordered; there is no entry for a function with no loop.
  unfoldable pub create_pre_ordered_loops : DepthOrder → ℕ → Option (List ℕ)
  create_pre_ordered_loops d f = elim (d.fn_orders f) [
    | none ↦ none
    | some order ↦ elim (collect_pre_ordered_loops (m.blocks f)) [
      | [] ↦ none
      | l ∷ ls ↦ some (l ∷ ls)
    ]
  ]

  unfoldable pub filter_hot : List ℕ → List ℕ
  filter_hot [] = []
  filter_hot (l ∷ ls) =
      let rest = filter_hot ls in
      if m.is_profile_available then (if m.is_hot l then l ∷ rest else rest) else l ∷ rest

  -- `loopsToCheck`; a function has an entry when some loop is left.
  unfoldable pub get_loops_to_inline : (ℕ → Option (List ℕ)) → ℕ → List ℕ
  get_loops_to_inline loops f = elim (loops f) [ none ↦ [] | some ls ↦ filter_hot ls ]

  unfoldable pub keys_with : (ℕ → List ℕ) → List ℕ → List ℕ
  keys_with entries [] = []
  keys_with entries (f ∷ fs) =
      let rest = keys_with entries fs in elim (entries f) [ [] ↦ rest | l ∷ ls ↦ f ∷ rest ]

  unfoldable pub collect_graph : ℕ → FnGraph
  collect_graph main = (collect_fn_graph calls called (length m.fns) main).graph

  unfoldable pub collect_order : ℕ → DepthOrder
  collect_order main =
      let g = collect_graph main in
      collect_in_depth_order_fns g.children_fns g.parent_fns (length m.fns) main

  -- The members before the first inlining.
  unfoldable pub prepare : ℕ → State
  prepare main =
      let d = collect_order main in
      let loops = create_pre_ordered_loops d in
      record {
        graph = collect_graph main;
        order = d;
        pre_ordered_loops = loops;
        fns_affected = [];
        loops_to_check = get_loops_to_inline loops;
        fns_to_check = [];
      }

  -- The functions with an entry in loopsToCheck.
  unfoldable pub fns_of_loops : State → List ℕ
  fns_of_loops s = keys_with s.loops_to_check s.order.depth_ordered_fns

  unfoldable pub inline_carried : ℕ → Bool × State
  inline_carried main =
      let s = prepare main in inline_calls_in_loop_carried_dependences m.analyses (fns_of_loops s) s

-- What the pass returns: whether the program changed, the members at its end, and the file.
pub record Ran : Type 0 where
  pub modified : Bool
  pub state : State
  pub file : Option (List ℕ)

abbrev loops_or_none : (ℕ → Option (List ℕ)) → ℕ → List ℕ
loops_or_none loops f = elim (loops f) [ none ↦ [] | some ls ↦ ls ]

module _ (m : Program) where
  -- The part after the file is read. `after` is the program after the hoisting, whose graph and order
  -- are collected again if something was inlined.
  unfoldable pub finish : Program → ℕ → State → Ran
  finish after main s =
      let hoisted = (inline_fns_of_loops_to_cg_root m.analyses.code (length m.fns) s).1 in
      let d = if hoisted.inlined then collect_order after main else hoisted.state.order in
      record {
        modified = hoisted.inlined;
        state = record hoisted.state {
          order = d;
          graph = if hoisted.inlined then collect_graph after main else hoisted.state.graph;
        };
        file = (register_remaining_functions d hoisted.state.fns_to_check).0;
      }

  unfoldable pub hoist_loops : Program → ℕ → State → Option Ran
  hoist_loops after main s =
      let with_loops = keys_with m (loops_or_none s.pre_ordered_loops) s.order.depth_ordered_fns in
      elim (get_functions_to_inline m.file with_loops s.order) [
        | none ↦ none
        | some fns ↦ some (finish after main (record s { fns_to_check = fns }))
      ]

  -- none stands for a failed assertion; the first part is none where the pass stops before its start.
  unfoldable pub run_inliner : Program → Option (Option Ran)
  run_inliner after = elim m.entry_function [
    | none ↦ some none
    | some main ↦
        let carried = inline_carried m main in
        let ran : Ran = record { modified = carried.0; state = carried.1; file = m.file } in
        if not m.is_enabled
        then some none
        else if leb max_program_instructions m.number_of_program_instructions
        then some none
        else if carried.0
        then some (some ran)
        else if not m.should_loops_be_hoist_to_main
        then some (some ran)
        else elim (hoist_loops after main carried.1) [ none ↦ none | some r ↦ some (some r) ]
  ]
