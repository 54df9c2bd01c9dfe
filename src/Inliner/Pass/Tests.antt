-- ===== src/Inliner/Pass/Tests.antt =====
-- The theorem on the pass at the program with four functions.
use gino.Base.{
  set_erase, ℕ, zero, suc, ◌≡◌, refl, true, false, [], ◌∷◌, contains, set_insert, arith, ℕ_discrete,
}
use gino.Inliner.Graph.Reached.{entry, by_call}
use gino.Inliner.Pass.Apart.{inline_carried-apart}
use gino.Inliner.Adjust.{
  adjust_fn_graph_after_inline, adjust_loop_orders_after_inline, called_after_inline, erase_at,
  insert_entries, shift_entries, unlink, write_entries,
}
use gino.Inliner.Inline.{
  inline_function_call, is_inlined, can_inline_without_recursive_loop, record_inline, find_index,
  get_next_preorder_loop_after, get_summary_if_header, next_loop_in,
}
use gino.Inliner.Depth.{
  collect_in_depth_order_fns, order_fns, start_order, push_fn, enter, are_all_reached,
  order_deferred, drain, visit_children_of, visit_child, sort_in_depth_order_fns,
  insert_in_depth_order,
}
use gino.Inliner.Carried.{
  inline_calls_in_loop_carried_dependences, inline_in_fns, avoid_all, inline_in_loops, is_enabled,
  disable_sub_loop, disable_sub_loops, kept_entries, remove, inline_within_loop, choose_call,
  check_sccs, check_nodes, check_node, may_inline, consider, count_memory_edges,
}
use gino.Inliner.Graph.{
  collect_fn_graph, traverse, traverse_fn, added, collected as collected_by, add_child,
  add_children, enqueue, enqueue_child,
}
use gino.Inliner.Calls.{
  collect_fn_calls_and_called, callees_of, calls_of_block, order_calls, collect_block,
  collect_unordered_calls, is_linked, scan_block,
}
use gino.Inliner.Pass.{
  calls, called, calls_and_called, collect_pre_ordered_loops, create_pre_ordered_loops, filter_hot,
  get_loops_to_inline, inline_carried, fns_of_loops, keys_with, prepare, collect_order,
  collect_graph,
}
use gino.Inliner.Samples.{program}

program_closed : (q c : ℕ) → contains (called program q) c ≡ true → contains program.fns c ≡ true
unfolding called calls_and_called collect_fn_calls_and_called order_calls callees_of calls_of_block
    collect_block collect_unordered_calls is_linked scan_block contains set_insert
program_closed zero c h = ground arith
program_closed (suc zero) c h = ground arith
program_closed (suc (suc zero)) c h = ground arith
program_closed (suc (suc (suc q))) c h = ground arith

carried_runs : (inline_carried program 0).1.fns_affected ≡ 2 ∷ []
unfolding calls called calls_and_called collect_pre_ordered_loops create_pre_ordered_loops
    filter_hot get_loops_to_inline inline_carried fns_of_loops keys_with prepare collect_order
    collect_graph inline_calls_in_loop_carried_dependences inline_in_fns avoid_all inline_in_loops
    is_enabled disable_sub_loop disable_sub_loops kept_entries remove inline_within_loop choose_call
    check_sccs check_nodes check_node may_inline consider count_memory_edges
    collect_in_depth_order_fns order_fns start_order push_fn enter are_all_reached order_deferred
    drain visit_children_of visit_child sort_in_depth_order_fns insert_in_depth_order
    collect_fn_graph traverse traverse_fn added collected_by add_child add_children enqueue
    enqueue_child collect_fn_calls_and_called callees_of calls_of_block order_calls collect_block
    collect_unordered_calls is_linked scan_block inline_function_call is_inlined
    can_inline_without_recursive_loop record_inline find_index get_next_preorder_loop_after
    get_summary_if_header next_loop_in adjust_fn_graph_after_inline adjust_loop_orders_after_inline
    called_after_inline erase_at insert_entries set_erase shift_entries unlink write_entries
    contains set_insert ℕ_discrete
carried_runs = refl

no_entrance : contains (collect_order program 0).recursive_chain_entrance_fns 2 ≡ false
unfolding collect_order collect_graph calls called calls_and_called collect_in_depth_order_fns
    order_fns start_order push_fn enter are_all_reached order_deferred drain visit_children_of
    visit_child collect_fn_graph traverse traverse_fn added collected_by add_child add_children
    enqueue enqueue_child collect_fn_calls_and_called callees_of calls_of_block order_calls
    collect_block collect_unordered_calls is_linked scan_block contains set_insert ℕ_discrete
no_entrance = refl

calls_first : contains (called program 0) 1 ≡ true
unfolding called contains calls_and_called collect_fn_calls_and_called callees_of order_calls
    collect_unordered_calls set_insert
calls_first = refl

calls_second : contains (called program 1) 2 ≡ true
unfolding called contains calls_and_called collect_fn_calls_and_called callees_of order_calls
    collect_unordered_calls set_insert
calls_second = refl

inline_carried-apart_example : contains (inline_carried program 0).1.fns_affected 1 ≡ false
unfolding contains
inline_carried-apart_example =
    inline_carried-apart program 0 2 1 refl program_closed (omega arith) no_entrance
      (by_call 0 1 entry calls_first) calls_second (rw carried_runs refl)
