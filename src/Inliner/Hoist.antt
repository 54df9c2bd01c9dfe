-- ===== src/Inliner/Hoist.antt =====
-- Inliner::inlineFnsOfLoopsToCGRoot, getFunctionsToInline and registerRemainingFunctions
-- (src/core/inliner/src/Inliner.cpp).
pub mod Ends
pub mod Safe
pub mod File
mod Tests
use gino.Base.{
  set_erase, ℕ, zero, suc, ◌+◌, ◌==◌, ltb, Bool, true, false, not, ◌&&◌, ◌||◌, Option, some, none,
  List, [], ◌∷◌, length, get_elem?, contains, set_insert, if◌then◌else◌,
}
use gino.Inliner.{DepthOrder, order_of}
use gino.Inliner.Depth.{sort_in_depth_order_fns}
use gino.Inliner.Inline.{State, Code, can_inline_without_recursive_loop, inline_function_call}

-- The locals of the loops. `inlined_in_parents` is that of the function at hand.
pub record Hoist : Type 0 where
  pub state : State
  pub ordered_fns : List ℕ
  pub fns_will_check : List ℕ
  pub fns_to_avoid : List ℕ
  pub inlined : Bool
  pub inlined_in_parents : Bool

-- The results of the loop over the calls of a parent.
pub record Tried : Type 0 where
  pub state : State
  pub inlined : Bool
  pub inlined_calls : Bool

unfoldable pub as_set : List ℕ → List ℕ
as_set [] = []
as_set (x ∷ xs) = set_insert x (as_set xs)

unfoldable pub insert_fns : List ℕ → List ℕ → List ℕ
insert_fns [] avoid = avoid
insert_fns (f ∷ fs) avoid = insert_fns fs (set_insert f avoid)

-- The tests before the calls of a parent are tried.
unfoldable pub is_tried : ℕ → ℕ → State → Bool
is_tried child parent s =
    not (contains s.fns_affected parent)
    && (can_inline_without_recursive_loop child s.order
        && (not (parent == child) && not (ltb (order_of s.order child) (order_of s.order parent))))

-- The loop that computes `insertIndex` never assigns it, so the parent is inserted at 0.
unfoldable pub record_parent : ℕ → Tried → Hoist → Hoist
record_parent parent t h =
    let h' : Hoist = record h {
      state = t.state;
      inlined = t.inlined;
      inlined_in_parents = h.inlined_in_parents && t.inlined_calls;
    } in
    if not t.inlined_calls
    then record h' { fns_to_avoid = set_insert parent h.fns_to_avoid }
    else if contains h.fns_will_check parent
    then h'
    else record h' {
      fns_will_check = set_insert parent h.fns_will_check;
      ordered_fns = parent ∷ h.ordered_fns;
    }

unfoldable pub start_hoist : State → Hoist
start_hoist s =
    let fns = sort_in_depth_order_fns s.order s.fns_to_check in
    record {
      state = s;
      ordered_fns = fns;
      fns_will_check = as_set fns;
      fns_to_avoid = [];
      inlined = false;
      inlined_in_parents = true;
    }

module _ (code : Code) where
  unfoldable pub calls_fn : ℕ → ℕ → Bool
  calls_fn child call = elim (code.called_function call) [ none ↦ false | some f ↦ f == child ]

  -- The calls of the parent, in the order of a std::set.
  unfoldable pub try_calls : ℕ → ℕ → List ℕ → Tried → Tried
  try_calls parent child [] t = t
  try_calls parent child (call ∷ calls) t =
      let skip = try_calls parent child calls t in
      let (done, s) = inline_function_call code parent child call t.state in
      let t' : Tried = record {
        state = s;
        inlined = t.inlined || done;
        inlined_calls = t.inlined_calls && done;
      } in
      let next = try_calls parent child calls t' in
      if not (calls_fn child call) then skip else if t'.inlined then t' else next

  unfoldable pub try_parent : ℕ → ℕ → Hoist → Hoist
  try_parent child parent h =
      if not (is_tried child parent h.state)
      then h
      else record_parent parent
          (try_calls parent child (as_set (h.state.graph.ordered_calls parent))
            (record { state = h.state; inlined = h.inlined; inlined_calls = true }))
          h

  unfoldable pub try_parents : ℕ → List ℕ → Hoist → Hoist
  try_parents child [] h = h
  try_parents child (parent ∷ parents) h = try_parents child parents (try_parent child parent h)

  -- The body of the while loop.
  unfoldable pub hoist_fn : ℕ → Hoist → Hoist
  hoist_fn child h =
      let parents = h.state.graph.parent_fns child in
      let tried = try_parents child parents (record h { inlined_in_parents = true }) in
      if contains h.fns_to_avoid child
      then record h { fns_to_avoid = insert_fns parents h.fns_to_avoid }
      else if tried.inlined_in_parents
      then record tried {
        state = record tried.state { fns_to_check = set_erase child tried.state.fns_to_check };
      }
      else tried

  -- The while loop, with fuel: `fn_index` is the next function.
  unfoldable pub hoist : ℕ → ℕ → Hoist → ℕ × Hoist
  hoist zero fn_index h = (fn_index, h)
  hoist (suc fuel) fn_index h = elim (get_elem? h.ordered_fns fn_index) [
    | none ↦ (fn_index, h)
    | some child ↦ hoist fuel (suc fn_index) (hoist_fn child h)
  ]

  -- `num_fns` is the number of functions of the program.
  unfoldable pub inline_fns_of_loops_to_cg_root : ℕ → State → ℕ × Hoist
  inline_fns_of_loops_to_cg_root num_fns s =
      hoist (length s.fns_to_check + num_fns) 0 (start_hoist s)

-- The numbers of a file, or the functions with loops if there is no file; none is a failed assertion.
unfoldable pub read_fns : List ℕ → List ℕ → List ℕ → Option (List ℕ)
read_fns depth_ordered_fns [] fns = some fns
read_fns depth_ordered_fns (ind ∷ inds) fns = elim (get_elem? depth_ordered_fns ind) [
  | none ↦ none
  | some f ↦ if ind == 0 then none else read_fns depth_ordered_fns inds (set_insert f fns)
]

unfoldable pub get_functions_to_inline : Option (List ℕ) → List ℕ → DepthOrder → Option (List ℕ)
get_functions_to_inline (some inds) fns_with_loops d = read_fns d.depth_ordered_fns inds []
get_functions_to_inline none fns_with_loops d = some (as_set fns_with_loops)

unfoldable pub insert_sorted : ℕ → List ℕ → List ℕ
insert_sorted i [] = i ∷ []
insert_sorted i (j ∷ js) = if ltb j i then j ∷ insert_sorted i js else i ∷ j ∷ js

-- The orders of the functions, without 0, sorted.
unfoldable pub remaining_inds : DepthOrder → List ℕ → List ℕ
remaining_inds d [] = []
remaining_inds d (f ∷ fs) =
    let rest = remaining_inds d fs in
    if order_of d f == 0 then rest else insert_sorted (order_of d f) rest

-- The file that is left, and whether functions remain.
unfoldable pub register_remaining_functions : DepthOrder → List ℕ → Option (List ℕ) × Bool
register_remaining_functions d [] = (none, false)
register_remaining_functions d (f ∷ fs) =
    let inds = remaining_inds d (f ∷ fs) in (some inds, ltb 0 (length inds))
