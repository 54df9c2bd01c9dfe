-- ===== src/Dswp/Clones.antt =====
-- DSWP::addClonableSCCsToStages (src/core/dswp/src/Pipeline.cpp): the breadth-first search, against
-- the edges of the SCCDAG, for the clonable SCCs that a stage depends on.
pub mod Found
pub mod Fuel
mod Tests
use gino.Base.{
  ℕ, zero, suc, ◌+◌, Bool, true, false, List, [], ◌∷◌, ◌++◌, length, contains, set_insert,
  if◌then◌else◌,
}

-- The queue, the visited nodes, and the clonable SCCs of the stage.
pub record Search : Type 0 where
  pub dependent_nodes : List ℕ
  pub visited_nodes : List ℕ
  pub clonable_sccs : List ℕ

pub start_search : List ℕ → Search
start_search stage_sccs = record {
  dependent_nodes = stage_sccs;
  visited_nodes = [];
  clonable_sccs = [];
}

-- `can_be_cloned` is DSWP::canBeCloned, `incoming` the sources of the edges into a node.
module _ (can_be_cloned : ℕ → Bool) (incoming : ℕ → List ℕ) where
  pub visit_edge : Search → ℕ → Search
  visit_edge s from = if contains s.visited_nodes from then s else record {
    dependent_nodes = s.dependent_nodes ++ from ∷ [];
    visited_nodes = from ∷ s.visited_nodes;
    clonable_sccs = if can_be_cloned from then set_insert from s.clonable_sccs else s.clonable_sccs;
  }

  -- The loop over the edges into a node.
  pub visit_edges : Search → List ℕ → Search
  unfolding visit_edge
  visit_edges s [] = s
  visit_edges s (from ∷ edges) = visit_edges (visit_edge s from) edges

  -- The while loop, with fuel.
  pub search : ℕ → Search → Search
  unfolding visit_edges
  search zero s = s
  search (suc fuel) s = elim s.dependent_nodes [
    | [] ↦ s
    | node ∷ nodes ↦
        search fuel (visit_edges (record s { dependent_nodes = nodes }) (incoming node))
  ]

  -- `num_nodes` is the number of nodes of the SCCDAG.
  pub add_clonable_sccs : ℕ → List ℕ → List ℕ
  unfolding search start_search
  add_clonable_sccs num_nodes stage_sccs =
      (search (length stage_sccs + num_nodes) (start_search stage_sccs)).clonable_sccs
