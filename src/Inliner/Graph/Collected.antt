-- ===== src/Inliner/Graph/Collected.antt =====
-- What the search collects: the functions that main reaches by calls, and the graph of their calls.
use gino.Base.{
  ℕ, ◌≡◌, ◌↔◌, refl, sym, ◌∙◌, true, List, [], ◌∷◌, length, contains, count_unvisited-all,
  count_unvisited-less, arith, if◌then◌else◌,
}
use gino.Inliner.{Mirrors, no_graph}
use gino.Inliner.Graph.{GraphSearch, traverse, collect_fn_graph}
use gino.Inliner.Graph.Fuel.{traverse-ends}
use gino.Inliner.Graph.Reached.{Reaches, Inv, traverse-Inv, start-Inv, Reaches-reached}

-- For every call graph over the functions of the program, the search ends with an empty queue; it has
-- reached exactly the functions to which a chain of calls leads from the entry function; it lists the
-- callees of these functions and of no others; the children of each function are the callees of its
-- calls, and the parents are the children read backwards.
pub collect_fn_graph_lem :
    (calls called : ℕ → List ℕ) (fns : List ℕ) (main : ℕ)
    → contains fns main ≡ true
    → ((f c : ℕ) → contains (called f) c ≡ true → contains fns c ≡ true)
    → ((collect_fn_graph calls called (length fns) main).func_to_traverse ≡ [])
      × ((f : ℕ)
          → (contains (collect_fn_graph calls called (length fns) main).reached f ≡ true)
            ↔ Reaches called main f)
      × Mirrors (collect_fn_graph calls called (length fns) main).graph
      × ((f : ℕ)
          → (collect_fn_graph calls called (length fns) main).graph.ordered_called f ≡ (
              if contains (collect_fn_graph calls called (length fns) main).reached f
              then called f
              else []))
unfolding collect_fn_graph contains
collect_fn_graph_lem calls called fns main has_main closed = (
  empty,
  λ f. (v.sound f, Reaches-reached calls called main s v empty f),
  record {
    mirrored = λ p c. v.children p c ∙ sym (v.parents p c);
    callees = λ p c. ground (arith, v.children p c, v.callees p);
  },
  λ f. ground (arith, v.callees f, empty),
)
  where
    start : GraphSearch
    start = record { graph = no_graph; func_to_traverse = main ∷ []; reached = main ∷ [] }

    s : GraphSearch
    s = traverse calls called (length fns) start

    empty : s.func_to_traverse ≡ []
    empty =
        traverse-ends fns calls called closed (length fns) start
          (omega (arith, count_unvisited-less [] main fns refl has_main, count_unvisited-all fns))

    v : Inv calls called main s
    v = traverse-Inv calls called main (length fns) start (start-Inv calls called main)
