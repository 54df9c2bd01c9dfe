-- ===== src/Inliner/Depth.antt =====
-- Inliner::collectInDepthOrderFns and sortInDepthOrderFns (src/core/inliner/src/Inliner.cpp).
pub mod Ordered
pub mod Sorted
pub mod Grown
pub mod Fuel
pub mod Numbered
pub mod Whole
use gino.Base.{
  ℕ, zero, suc, ◌+◌, ltb, Bool, true, false, ◌&&◌, Option, some, none, List, [], ◌∷◌, ◌++◌, length,
  contains, set_insert, update, if◌then◌else◌,
}
use gino.Inliner.{DepthOrder, order_of}

pub record DepthSearch : Type 0 where
  pub order : DepthOrder
  pub func_to_traverse : List ℕ
  pub reached : List ℕ
  pub deferred : List ℕ

-- Gives the function the next order and enqueues it.
unfoldable pub push_fn : ℕ → DepthSearch → DepthSearch
push_fn f s = record s {
  order = record s.order {
    fn_orders = update s.order.fn_orders f (some (length s.order.depth_ordered_fns));
    depth_ordered_fns = s.order.depth_ordered_fns ++ f ∷ [];
  };
  func_to_traverse = s.func_to_traverse ++ f ∷ [];
  reached = f ∷ s.reached;
}

unfoldable pub enter : ℕ → DepthSearch → DepthSearch
enter f s = record s {
  order = record s.order {
    recursive_chain_entrance_fns = set_insert f s.order.recursive_chain_entrance_fns;
  };
}

unfoldable pub are_all_reached : List ℕ → List ℕ → Bool
are_all_reached reached [] = true
are_all_reached reached (parent ∷ parents) =
    contains reached parent && are_all_reached reached parents

unfoldable pub start_order : ℕ → DepthSearch
start_order main = push_fn main (record {
  order = record {
    depth_ordered_fns = [];
    recursive_chain_entrance_fns = [];
    fn_orders = λ f. none;
  };
  func_to_traverse = [];
  reached = [];
  deferred = [];
})

module _ (children_fns parent_fns : ℕ → List ℕ) where
  unfoldable pub visit_child : ℕ → DepthSearch → DepthSearch
  visit_child f s =
      if contains s.reached f
      then s
      else if are_all_reached s.reached (parent_fns f)
      then push_fn f s
      else record s { deferred = s.deferred ++ f ∷ [] }

  unfoldable pub visit_children_of : List ℕ → DepthSearch → DepthSearch
  visit_children_of [] s = s
  visit_children_of (f ∷ fs) s = visit_children_of fs (visit_child f s)

  -- The inner while loop, with fuel.
  unfoldable pub drain : ℕ → DepthSearch → DepthSearch
  drain zero s = s
  drain (suc fuel) s = elim s.func_to_traverse [
    | [] ↦ s
    | func ∷ rest ↦
        drain fuel (visit_children_of (children_fns func) (record s { func_to_traverse = rest }))
  ]

  -- The loop over the deferred functions, with those that remain.
  unfoldable pub order_deferred : List ℕ → List ℕ → DepthSearch → DepthSearch
  order_deferred [] remaining s = record s { deferred = remaining }
  order_deferred (left ∷ deferred) remaining s = elim (s.order.fn_orders left) [
    | some order ↦ order_deferred deferred remaining s
    | none ↦ order_deferred deferred (remaining ++ left ∷ []) (push_fn left (enter left s))
  ]

  -- The outer while loop, with fuel.
  unfoldable pub order_fns : ℕ → DepthSearch → DepthSearch
  order_fns zero s = s
  order_fns (suc fuel) s = elim s.func_to_traverse [
    | [] ↦ s
    | func ∷ rest ↦
        let drained = drain (suc fuel) s in
        order_fns fuel (order_deferred drained.deferred [] drained)
  ]

  -- `num_fns` is the number of functions of the program.
  unfoldable pub collect_in_depth_order_fns : ℕ → ℕ → DepthOrder
  collect_in_depth_order_fns num_fns main = (order_fns num_fns (start_order main)).order

-- std::sort as an insertion sort, deepest function first.
unfoldable pub insert_in_depth_order : DepthOrder → ℕ → List ℕ → List ℕ
insert_in_depth_order d f [] = f ∷ []
insert_in_depth_order d f (g ∷ gs) =
    if ltb (order_of d g) (order_of d f) then f ∷ g ∷ gs else g ∷ insert_in_depth_order d f gs

unfoldable pub sort_in_depth_order_fns : DepthOrder → List ℕ → List ℕ
unfolding insert_in_depth_order
sort_in_depth_order_fns d [] = []
sort_in_depth_order_fns d (f ∷ fs) = insert_in_depth_order d f (sort_in_depth_order_fns d fs)
