-- ===== src/Inliner/Graph.antt =====
-- Inliner::collectFnGraph (src/core/inliner/src/Inliner.cpp): the breadth-first search of the call graph
-- from the entry function.
pub mod Reached
pub mod Fuel
pub mod Children
pub mod Collected
use gino.Base.{
  ℕ, zero, suc, Bool, true, false, List, [], ◌∷◌, ◌++◌, contains, set_insert, update, if◌then◌else◌,
}
use gino.Inliner.{FnGraph, no_graph}

-- The locals of the search beside the members.
pub record GraphSearch : Type 0 where
  pub graph : FnGraph
  pub func_to_traverse : List ℕ
  pub reached : List ℕ

unfoldable pub add_child : ℕ → ℕ → FnGraph → FnGraph
add_child parent child g = record g {
  children_fns = update g.children_fns parent (g.children_fns parent ++ child ∷ []);
  parent_fns = update g.parent_fns child (set_insert parent (g.parent_fns child));
}

-- The loop over the callees of a function: `met` are those already met.
unfoldable pub add_children : ℕ → List ℕ → List ℕ → FnGraph → FnGraph
unfolding add_child
add_children parent met [] g = g
add_children parent met (child ∷ called) g =
    if contains met child
    then add_children parent met called g
    else add_children parent (child ∷ met) called (add_child parent child g)

unfoldable pub enqueue_child : ℕ → GraphSearch → GraphSearch
enqueue_child child s = if contains s.reached child then s else record s {
  func_to_traverse = s.func_to_traverse ++ child ∷ [];
  reached = child ∷ s.reached;
}

-- The loop that enqueues the children that are not reached.
unfoldable pub enqueue : List ℕ → GraphSearch → GraphSearch
unfolding enqueue_child
enqueue [] s = s
enqueue (child ∷ children) s = enqueue children (enqueue_child child s)

-- `calls` and `called` are what collectFnCallsAndCalled finds for a function.
module _ (calls called : ℕ → List ℕ) where
  -- After collectFnCallsAndCalled, with the old children cleared.
  unfoldable pub collected : ℕ → GraphSearch → FnGraph
  collected parent s = record s.graph {
    ordered_calls = update s.graph.ordered_calls parent (calls parent);
    ordered_called = update s.graph.ordered_called parent (called parent);
    children_fns = update s.graph.children_fns parent [];
  }

  unfoldable pub added : ℕ → GraphSearch → FnGraph
  added parent s = add_children parent [] (called parent) (collected parent s)

  unfoldable pub traverse_fn : ℕ → GraphSearch → GraphSearch
  traverse_fn parent s =
      let g = added parent s in enqueue (g.children_fns parent) (record s { graph = g })

  -- The while loop, with fuel.
  unfoldable pub traverse : ℕ → GraphSearch → GraphSearch
  traverse zero s = s
  traverse (suc fuel) s = elim s.func_to_traverse [
    | [] ↦ s
    | parent ∷ rest ↦ traverse fuel (traverse_fn parent (record s { func_to_traverse = rest }))
  ]

  -- `num_fns` is the number of functions of the program.
  unfoldable pub collect_fn_graph : ℕ → ℕ → GraphSearch
  collect_fn_graph num_fns main =
      traverse num_fns
        (record { graph = no_graph; func_to_traverse = main ∷ []; reached = main ∷ [] })
