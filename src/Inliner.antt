-- ===== src/Inliner.antt =====
-- The inliner (src/core/inliner/src): functions, calls and loops are numbers, maps from functions are
-- functions.
pub mod Calls
pub mod Graph
pub mod Depth
pub mod Adjust
pub mod Inline
pub mod Carried
pub mod Hoist
pub mod Pass
mod Samples
mod Tests
use gino.Base.{ℕ, ◌≡◌, Option, some, none, List, [], contains}

-- The call graph as the inliner keeps it: members of Inliner in Inliner.hpp.
pub record FnGraph : Type 0 where
  pub parent_fns : ℕ → List ℕ
  pub children_fns : ℕ → List ℕ
  pub ordered_calls : ℕ → List ℕ
  pub ordered_called : ℕ → List ℕ

abbrev pub no_graph : FnGraph
no_graph = record {
  parent_fns = λ f. [];
  children_fns = λ f. [];
  ordered_calls = λ f. [];
  ordered_called = λ f. [];
}

-- The two sides of the graph agree, and the children of a function are the callees of its calls.
pub record Mirrors (g : FnGraph) : Type 0 where
  pub mirrored : (p c : ℕ) → contains (g.children_fns p) c ≡ contains (g.parent_fns c) p
  pub callees : (p c : ℕ) → contains (g.children_fns p) c ≡ contains (g.ordered_called p) c

-- The depth order. `fn_orders` gives none to a function without an entry.
pub record DepthOrder : Type 0 where
  pub depth_ordered_fns : List ℕ
  pub recursive_chain_entrance_fns : List ℕ
  pub fn_orders : ℕ → Option ℕ

-- `fnOrders[f]`, which is 0 for a function without an entry.
abbrev pub order_of : DepthOrder → ℕ → ℕ
order_of d f = elim (d.fn_orders f) [ some order ↦ order | none ↦ 0 ]
