-- ===== src/Inliner/Hoist/Tests.antt =====
-- The theorems on the hoisting at the program with four functions.
use gino.Base.{
  false, set_erase, ℕ, zero, suc, ◌≡◌, ◌↔◌, refl, ◌==◌, true, not, ◌&&◌, some, none, List, [], ◌∷◌,
  subst, length, get_elem?, contains, set_insert, arith, ℕ_discrete,
}
use gino.Inliner.{order_of}
use gino.Inliner.Hoist.Ends.{inline_fns_of_loops_to_cg_root-ends}
use gino.Inliner.Hoist.Safe.{inline_fns_of_loops_to_cg_root-safe, MayChange}
use gino.Inliner.Hoist.File.{get_functions_to_inline-register_remaining_functions}
use gino.Inliner.Adjust.{
  adjust_fn_graph_after_inline, adjust_loop_orders_after_inline, called_after_inline, erase_at,
  insert_entries, shift_entries, unlink, write_entries,
}
use gino.Inliner.Inline.{
  inline_function_call, is_inlined, can_inline_without_recursive_loop, record_inline, find_index,
  get_next_preorder_loop_after, get_summary_if_header, next_loop_in,
}
use gino.Inliner.Depth.{sort_in_depth_order_fns, insert_in_depth_order}
use gino.Inliner.Graph.{add_child, add_children}
use gino.Inliner.Hoist.{
  inline_fns_of_loops_to_cg_root, hoist, start_hoist, hoist_fn, try_parents, try_parent, is_tried,
  record_parent, try_calls, as_set, insert_fns, calls_fn, get_functions_to_inline,
  register_remaining_functions, remaining_inds, insert_sorted,
}
use gino.Inliner.Samples.{graph, code, callers_of, fns, order, order_in, state}

callers_within : (c p : ℕ) → contains (callers_of c) p ≡ true → contains fns p ≡ true
unfolding contains
callers_within zero p h = ground arith
callers_within (suc zero) p h = ground arith
callers_within (suc (suc zero)) p h = ground arith
callers_within (suc (suc (suc zero))) p h = ground arith
callers_within (suc (suc (suc (suc c)))) p h = ground arith

inline_fns_of_loops_to_cg_root-ends_example :
    get_elem?
      (inline_fns_of_loops_to_cg_root code (length fns) state).1.ordered_fns
      (inline_fns_of_loops_to_cg_root code (length fns) state).0
    ≡ none
inline_fns_of_loops_to_cg_root-ends_example =
    inline_fns_of_loops_to_cg_root-ends code fns state callers_within

hoisted : (inline_fns_of_loops_to_cg_root code 4 state).1.state.fns_affected ≡ 0 ∷ 1 ∷ []
unfolding inline_fns_of_loops_to_cg_root hoist start_hoist hoist_fn try_parents try_parent is_tried
    record_parent try_calls as_set insert_fns calls_fn sort_in_depth_order_fns insert_in_depth_order
    inline_function_call is_inlined can_inline_without_recursive_loop record_inline find_index
    get_next_preorder_loop_after get_summary_if_header next_loop_in adjust_fn_graph_after_inline
    adjust_loop_orders_after_inline called_after_inline erase_at insert_entries set_erase
    shift_entries unlink write_entries add_child add_children contains set_insert ℕ_discrete
hoisted = refl

-- Function 0 is changed.
inline_fns_of_loops_to_cg_root-safe_example :
    ((inline_fns_of_loops_to_cg_root code 4 state).1.state.order ≡ order)
    × ((p : ℕ)
        → contains [] p ≡ false
        → contains (inline_fns_of_loops_to_cg_root code 4 state).1.state.fns_affected p ≡ true
        → MayChange code graph.ordered_calls order p)
inline_fns_of_loops_to_cg_root-safe_example = inline_fns_of_loops_to_cg_root-safe code 4 state

changed_first : MayChange code graph.ordered_calls order 0
unfolding contains
changed_first = (inline_fns_of_loops_to_cg_root-safe code 4 state).1 0 refl (rw hoisted refl)

order_in_agrees : (f i : ℕ) → (order_in f ≡ some i) ↔ (get_elem? fns i ≡ some f)
order_in_agrees f i = (number_of f i, numbered f i)
  where
    number_of : (f i : ℕ) → order_in f ≡ some i → get_elem? fns i ≡ some f
    number_of zero i h = let e : 0 ≡ i = cc h in subst (λ k. get_elem? fns k ≡ some 0) e refl
    number_of (suc zero) i h = let e : 1 ≡ i = cc h in subst (λ k. get_elem? fns k ≡ some 1) e refl
    number_of (suc (suc zero)) i h =
        let e : 2 ≡ i = cc h in subst (λ k. get_elem? fns k ≡ some 2) e refl
    number_of (suc (suc (suc zero))) i h =
        let e : 3 ≡ i = cc h in subst (λ k. get_elem? fns k ≡ some 3) e refl
    number_of (suc (suc (suc (suc f)))) i h = absurd (ground arith)

    numbered : (f i : ℕ) → get_elem? fns i ≡ some f → order_in f ≡ some i
    numbered f zero h = let e : 0 ≡ f = cc h in subst (λ g. order_in g ≡ some 0) e refl
    numbered f (suc zero) h = let e : 1 ≡ f = cc h in subst (λ g. order_in g ≡ some 1) e refl
    numbered f (suc (suc zero)) h = let e : 2 ≡ f = cc h in subst (λ g. order_in g ≡ some 2) e refl
    numbered f (suc (suc (suc zero))) h =
        let e : 3 ≡ f = cc h in subst (λ g. order_in g ≡ some 3) e refl
    numbered f (suc (suc (suc (suc i)))) h = absurd (ground arith)

get_functions_to_inline-register_remaining_functions_example :
    (r : List ℕ) × (get_functions_to_inline
        (register_remaining_functions order (2 ∷ 0 ∷ 1 ∷ [])).0
        []
        order
      ≡ some r)
    × ((f : ℕ) → contains r f ≡ (contains (2 ∷ 0 ∷ 1 ∷ []) f && not (order_of order f == 0)))
unfolding register_remaining_functions remaining_inds insert_sorted
get_functions_to_inline-register_remaining_functions_example =
    get_functions_to_inline-register_remaining_functions order (2 ∷ 0 ∷ 1 ∷ []) [] (1 ∷ 2 ∷ [])
      order_in_agrees (λ e. cc e, (λ e. cc e, (λ e. cc e, tt))) refl
