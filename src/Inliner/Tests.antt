-- ===== src/Inliner/Tests.antt =====
-- The theorems of the inliner at a program with four functions.
use gino.Base.{
  ◌≢◌, ℕ, zero, suc, ◌<◌, ◌≡◌, ◌↔◌, refl, ◌==◌, true, false, ◌&&◌, some, List, [], ◌∷◌, map, length,
  get_elem?, contains, set_insert, arith, if◌then◌else◌, ℕ_discrete,
}
use gino.Inliner.{FnGraph, Mirrors}
use gino.Inliner.Calls.{
  scan_block, collect_unordered_calls, collect_fn_calls_and_called, is_linked, order_calls,
  callees_of, calls_of_block, collect_block,
}
use gino.Inliner.Calls.Order.{instructions_of, is_recorded, collect_fn_calls_and_called-in_order}
use gino.Inliner.Graph.{
  collect_fn_graph, traverse, traverse_fn, added, collected as collected_by, add_children, enqueue,
  enqueue_child,
}
use gino.Inliner.Graph.Reached.{Reaches}
use gino.Inliner.Graph.Collected.{collect_fn_graph_lem}
use gino.Inliner.Depth.{
  collect_in_depth_order_fns, order_fns, drain, visit_children_of, visit_child, push_fn, enter,
  are_all_reached, order_deferred, start_order,
}
use gino.Inliner.Depth.Ordered.{Descends, is_some}
use gino.Inliner.Depth.Whole.{collect_in_depth_order_fns_lem, collect_in_depth_order_fns-parents}
use gino.Inliner.Adjust.{adjust_fn_graph_after_inline}
use gino.Inliner.Adjust.Replaced.{replaced}
use gino.Inliner.Adjust.Mirror.{adjust_fn_graph_after_inline-Mirrors}
use gino.Inliner.Adjust.Loops.{loops_of}
use gino.Inliner.Inline.{record_inline}
use gino.Inliner.Inline.Misplaced.{record_inline-misplaced}
use gino.Inliner.Pass.{called, calls_and_called}
use gino.Inliner.Samples.{
  callee, block_of, blocks_of, records_of, code, program, called_in, callers_of, fns, graph, state,
}

called_runs :
    (called program 0 ≡ 1 ∷ 2 ∷ []) × (called program 1 ≡ 2 ∷ []) × (called program 2 ≡ 3 ∷ 3 ∷ [])
unfolding called calls_and_called collect_fn_calls_and_called order_calls callees_of calls_of_block
    collect_block collect_unordered_calls is_linked scan_block contains set_insert
called_runs = (refl, refl, refl)

called_in_closed : (f c : ℕ) → contains (called_in f) c ≡ true → contains fns c ≡ true
unfolding contains
called_in_closed zero c h = ground arith
called_in_closed (suc zero) c h = ground arith
called_in_closed (suc (suc zero)) c h = ground arith
called_in_closed (suc (suc (suc f))) c h = ground arith

abbrev collected : FnGraph
collected = (collect_fn_graph graph.ordered_calls called_in (length fns) 0).graph

collect_fn_graph_lem_example :
    ((collect_fn_graph graph.ordered_calls called_in (length fns) 0).func_to_traverse ≡ [])
    × ((f : ℕ)
        → (contains (collect_fn_graph graph.ordered_calls called_in (length fns) 0).reached f
            ≡ true)
          ↔ Reaches called_in 0 f)
    × Mirrors collected
    × ((f : ℕ)
        → collected.ordered_called f ≡ (
            if contains (collect_fn_graph graph.ordered_calls called_in (length fns) 0).reached f
            then called_in f
            else []))
unfolding contains
collect_fn_graph_lem_example =
    collect_fn_graph_lem graph.ordered_calls called_in fns 0 refl called_in_closed

called_first : get_elem? (collected.ordered_called 1) 0 ≡ some 2
unfolding collect_fn_graph traverse traverse_fn added collected_by add_children enqueue
    enqueue_child contains set_insert ℕ_discrete
called_first = refl

collected-Mirrors : Mirrors collected
unfolding contains
collected-Mirrors =
    (collect_fn_graph_lem graph.ordered_calls called_in fns 0 refl called_in_closed).2

-- The call of function 2 in function 1 is inlined.
adjust_fn_graph_after_inline-Mirrors_example :
    Mirrors (adjust_fn_graph_after_inline 1 2 0 collected)
    × ((f : ℕ)
        → (adjust_fn_graph_after_inline 1 2 0 collected).ordered_called f ≡ (
            if f == 1
            then replaced 0 (collected.ordered_called 2) (collected.ordered_called 1)
            else collected.ordered_called f))
    × ((f c : ℕ)
        → f ≢ 1
        → (contains ((adjust_fn_graph_after_inline 1 2 0 collected).children_fns f) c
            ≡ contains (collected.children_fns f) c)
          × (contains ((adjust_fn_graph_after_inline 1 2 0 collected).parent_fns c) f
              ≡ contains (collected.parent_fns c) f))
adjust_fn_graph_after_inline-Mirrors_example =
    adjust_fn_graph_after_inline-Mirrors 1 2 0 collected (omega arith) called_first
      collected-Mirrors

collect_in_depth_order_fns_lem_example :
    ((collect_in_depth_order_fns called_in callers_of (length fns) 0).fn_orders 0 ≡ some 0)
    × ((f : ℕ)
        → (is_some ((collect_in_depth_order_fns called_in callers_of (length fns) 0).fn_orders f)
            ≡ true)
          ↔ Descends called_in 0 f)
    × ((f i : ℕ)
        → ((collect_in_depth_order_fns called_in callers_of (length fns) 0).fn_orders f ≡ some i)
          ↔ (get_elem?
                (collect_in_depth_order_fns called_in callers_of (length fns) 0).depth_ordered_fns
                i
              ≡ some f))
unfolding contains
collect_in_depth_order_fns_lem_example =
    collect_in_depth_order_fns_lem called_in callers_of fns 0 refl called_in_closed

order_runs :
    ((collect_in_depth_order_fns called_in callers_of 4 0).depth_ordered_fns ≡ 0 ∷ 1 ∷ 2 ∷ 3 ∷ [])
    × ((collect_in_depth_order_fns called_in callers_of 4 0).fn_orders 2 ≡ some 2)
    × (contains (collect_in_depth_order_fns called_in callers_of 4 0).recursive_chain_entrance_fns 2
        ≡ false)
unfolding collect_in_depth_order_fns order_fns drain visit_children_of visit_child push_fn enter
    are_all_reached order_deferred start_order contains set_insert ℕ_discrete
order_runs = (refl, refl, refl)

collect_in_depth_order_fns-parents_example :
    (j : ℕ) × ((collect_in_depth_order_fns called_in callers_of (length fns) 0).fn_orders 1
      ≡ some j)
    × (j < 2)
unfolding contains
collect_in_depth_order_fns-parents_example =
    collect_in_depth_order_fns-parents called_in callers_of fns 0 2 2 1 refl called_in_closed
      order_runs.1 (omega arith) order_runs.2 refl

-- Function 3 is called by 2 and by main. The functions 1 and 2 call one another, and 3 calls nothing; it
-- is entered as an entrance of a recursive chain all the same.
abbrev calls_around : ℕ → List ℕ
calls_around zero = 1 ∷ 3 ∷ []
calls_around (suc zero) = 2 ∷ []
calls_around (suc (suc zero)) = 1 ∷ 3 ∷ []
calls_around (suc (suc (suc f))) = []

abbrev called_around : ℕ → List ℕ
called_around zero = []
called_around (suc zero) = 0 ∷ 2 ∷ []
called_around (suc (suc zero)) = 1 ∷ []
called_around (suc (suc (suc zero))) = 0 ∷ 2 ∷ []
called_around (suc (suc (suc (suc f)))) = []

entrance_without_chain :
    (collect_in_depth_order_fns calls_around called_around 4 0).recursive_chain_entrance_fns
    ≡ 1 ∷ 3 ∷ []
unfolding collect_in_depth_order_fns order_fns drain visit_children_of visit_child push_fn enter
    are_all_reached order_deferred start_order contains set_insert ℕ_discrete
entrance_without_chain = refl

collect_fn_calls_and_called-in_order_example :
    ((collect_fn_calls_and_called callee (λ f. f == 9) block_of (records_of 2) (blocks_of 2)).0
      ≡ scan_block
          (collect_unordered_calls callee (λ f. f == 9) (records_of 2))
          (instructions_of (blocks_of 2)))
    × ((x : ℕ)
        → contains (collect_unordered_calls callee (λ f. f == 9) (records_of 2)) x
          ≡ (is_recorded (records_of 2) x && is_linked callee (λ f. f == 9) x))
    × (map some
          (collect_fn_calls_and_called callee (λ f. f == 9) block_of (records_of 2) (blocks_of 2)).1
        ≡ map callee
            (collect_fn_calls_and_called callee
              (λ f. f == 9)
              block_of
              (records_of 2)
              (blocks_of 2)).0)
unfolding collect_unordered_calls is_linked set_insert
collect_fn_calls_and_called-in_order_example =
    collect_fn_calls_and_called-in_order callee (λ f. f == 9) block_of (records_of 2) (blocks_of 2)
      (((refl, (refl, tt)), (λ e. refl, (λ e. refl, tt))), tt)

-- The loop of function 1 is put before the loop of function 0.
record_inline-misplaced_example :
    loops_of (record_inline code 0 1 10 state).pre_ordered_loops 0 ≡ 210 ∷ 190 ∷ []
unfolding contains
record_inline-misplaced_example =
    record_inline-misplaced code 0 1 10 101 [] state 210 [] refl refl refl 0
