-- ===== src/Inliner/Calls.antt =====
-- Inliner::collectFnCallsAndCalled (src/core/inliner/src/Inliner.cpp).
pub mod Order
use gino.Base.{
  ℕ, ◌==◌, Bool, true, false, not, Option, some, none, List, [], ◌∷◌, ◌++◌, length, contains,
  set_insert, if◌then◌else◌,
}

pub data Instruction : Type 0 where
  call_inst : ℕ → Instruction
  other_inst : Instruction

pub record BasicBlock : Type 0 where
  pub id : ℕ
  pub instructions : List Instruction

-- The scan of a block with several calls.
unfoldable pub scan_block : List ℕ → List Instruction → List ℕ
scan_block calls [] = []
scan_block calls (other_inst ∷ is) = scan_block calls is
scan_block calls (call_inst call ∷ is) =
    let rest = scan_block calls is in if contains calls call then call ∷ rest else rest

-- A block with one call is not scanned.
unfoldable pub collect_block : List ℕ → List Instruction → List ℕ
unfolding scan_block
collect_block [] is = []
collect_block (call ∷ []) is = call ∷ []
collect_block (call ∷ call' ∷ calls) is = scan_block (call ∷ call' ∷ calls) is

-- `called_function` is the callee of a call, none for an indirect one, and `is_empty` tells whether a
-- function has no body.
module _ (called_function : ℕ → Option ℕ) (is_empty : ℕ → Bool) where
  unfoldable pub is_linked : ℕ → Bool
  is_linked call = elim (called_function call) [ none ↦ false | some f ↦ not (is_empty f) ]

  -- The records of a node of the call graph: none for one whose handle is dead or that is no CallInst.
  unfoldable pub collect_unordered_calls : List (Option ℕ) → List ℕ
  unfolding is_linked
  collect_unordered_calls [] = []
  collect_unordered_calls (none ∷ records) = collect_unordered_calls records
  collect_unordered_calls (some call ∷ records) =
      let rest = collect_unordered_calls records in
      if is_linked call then set_insert call rest else rest

-- `get_parent` is the block of a call.
module _ (get_parent : ℕ → ℕ) where
  -- `bbCalls[&B]`.
  unfoldable pub calls_of_block : List ℕ → ℕ → List ℕ
  calls_of_block [] b = []
  calls_of_block (call ∷ calls) b =
      let rest = calls_of_block calls b in if get_parent call == b then call ∷ rest else rest

  -- `orderedCalls[parentF]`, for the calls of its records.
  unfoldable pub order_calls : List ℕ → List BasicBlock → List ℕ
  unfolding calls_of_block collect_block
  order_calls calls [] = []
  order_calls calls (b ∷ bs) =
      collect_block (calls_of_block calls b.id) b.instructions ++ order_calls calls bs

-- `orderedCalled[parentF]`: the callees of these calls.
unfoldable pub callees_of : (ℕ → Option ℕ) → List ℕ → List ℕ
callees_of called_function [] = []
callees_of called_function (call ∷ calls) =
    let rest = callees_of called_function calls in
    elim (called_function call) [ some f ↦ f ∷ rest | none ↦ rest ]

-- Both lists, for the records of a function.
unfoldable pub collect_fn_calls_and_called :
    (ℕ → Option ℕ) → (ℕ → Bool) → (ℕ → ℕ) → List (Option ℕ) → List BasicBlock → List ℕ × List ℕ
collect_fn_calls_and_called called_function is_empty get_parent records blocks =
    let calls =
      order_calls get_parent (collect_unordered_calls called_function is_empty records) blocks in
    (calls, callees_of called_function calls)
