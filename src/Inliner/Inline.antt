-- ===== src/Inliner/Inline.antt =====
-- Inliner::inlineFunctionCall, getNextPreorderLoopAfter and canInlineWithoutRecursiveLoop
-- (src/core/inliner/src/Inliner.cpp).
pub mod Misplaced
use gino.Base.{
  ℕ, suc, ◌+◌, ◌==◌, ltb, Bool, true, false, not, Option, some, none, List, [], ◌∷◌, contains,
  set_insert, if◌then◌else◌, ◌≡◌, refl, ◌⊎◌, inl, inr, Bool-cases,
}
use gino.Inliner.{FnGraph, DepthOrder}
use gino.Inliner.Adjust.{adjust_fn_graph_after_inline, adjust_loop_orders_after_inline}

-- The members of Inliner that the inlining changes or reads.
pub record State : Type 0 where
  pub graph : FnGraph
  pub order : DepthOrder
  pub pre_ordered_loops : ℕ → Option (List ℕ)
  pub fns_affected : List ℕ
  pub loops_to_check : ℕ → List ℕ
  pub fns_to_check : List ℕ

-- What LLVM and the profiles tell: the blocks behind the one of a call, in the order of the function;
-- the header of a loop; the number of instructions of a function; the callee of a call; and whether
-- InlineFunction succeeds on a call.
pub record Code : Type 0 where
  pub blocks_after : ℕ → List ℕ
  pub header : ℕ → ℕ
  pub static_instructions : ℕ → ℕ
  pub called_function : ℕ → Option ℕ
  pub inline_function : ℕ → Bool

unfoldable pub can_inline_without_recursive_loop : ℕ → DepthOrder → Bool
can_inline_without_recursive_loop child d = not (contains d.recursive_chain_entrance_fns child)

-- `std::find` from `begin`, as an index: the length if the call is not there.
unfoldable pub find_index : ℕ → List ℕ → ℕ
find_index call [] = 0
find_index call (c ∷ calls) = let rest = find_index call calls in if c == call then 0 else suc rest

module _ (code : Code) where
  -- The index of the loop with this header, and 0 where there is none.
  unfoldable pub get_summary_if_header : ℕ → List ℕ → ℕ → ℕ
  get_summary_if_header b [] i = 0
  get_summary_if_header b (l ∷ loops) i =
      let rest = get_summary_if_header b loops (suc i) in if code.header l == b then i else rest

  -- The test of the loop is `sInd != -1`, and `sInd` is never -1: the first block decides.
  unfoldable pub next_loop_in : List ℕ → List ℕ → ℕ
  unfolding get_summary_if_header
  next_loop_in loops [] = 0
  next_loop_in loops (b ∷ bs) = get_summary_if_header b loops 0

  unfoldable pub get_next_preorder_loop_after : ℕ → ℕ → (ℕ → Option (List ℕ)) → ℕ
  unfolding next_loop_in
  get_next_preorder_loop_after f call loops = elim (loops f) [
    | none ↦ 0
    | some ls ↦ next_loop_in ls (code.blocks_after call)
  ]

  -- The guards before the call of InlineFunction, and that call.
  unfoldable pub is_inlined : ℕ → ℕ → ℕ → State → Bool
  unfolding can_inline_without_recursive_loop
  is_inlined f child call s =
      if contains s.fns_affected f
      then false
      else if not (can_inline_without_recursive_loop child s.order)
      then false
      else if ltb 1000 (code.static_instructions f)
      then false
      else code.inline_function call

  unfoldable pub record_inline : ℕ → ℕ → ℕ → State → State
  record_inline f child call s = record s {
    fns_affected = set_insert f s.fns_affected;
    pre_ordered_loops =
        adjust_loop_orders_after_inline f child
          (get_next_preorder_loop_after f call s.pre_ordered_loops) s.pre_ordered_loops;
    graph =
        adjust_fn_graph_after_inline f child (find_index call (s.graph.ordered_calls f)) s.graph;
  }

  -- The arguments of the source are never null: both callers test the callee.
  unfoldable pub inline_function_call : ℕ → ℕ → ℕ → State → Bool × State
  inline_function_call f child call s =
      if is_inlined f child call s then (true, record_inline f child call s) else (false, s)

module _ (code : Code) (f child call : ℕ) (s : State) where
  pub inline_function_call-cases :
      ((is_inlined code f child call s ≡ true)
        × (inline_function_call code f child call s ≡ (true, record_inline code f child call s)))
      ⊎ (inline_function_call code f child call s ≡ (false, s))
  unfolding inline_function_call
  inline_function_call-cases = elim (Bool-cases (is_inlined code f child call s)) [
    | inl inlined ↦ inl (inlined, rw inlined refl)
    | inr refused ↦ inr (rw refused refl)
  ]
