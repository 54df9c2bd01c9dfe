-- ===== src/Dswp/Controlled.antt =====
-- DSWP::collectTransitivelyControlledTasks (src/core/dswp/src/Queue.cpp): the breadth-first search, along
-- the edges of the SCCDAG, for the stages that a conditional branch controls.
pub mod Fuel
pub mod Edges
pub mod Found
mod Tests
use gino.Base.{
  ℕ, zero, suc, ◌+◌, Option, some, none, List, [], ◌∷◌, ◌++◌, length, contains, set_insert,
  set_erase, if◌then◌else◌,
}

-- The queue, the visited nodes and the stages found.
pub record ControlSearch : Type 0 where
  pub queued_nodes : List ℕ
  pub visited_nodes : List ℕ
  pub controlled_tasks : List ℕ

unfoldable pub insert_task : Option ℕ → List ℕ → List ℕ
insert_task none tasks = tasks
insert_task (some task) tasks = set_insert task tasks

unfoldable pub erase_task : Option ℕ → List ℕ → List ℕ
erase_task none tasks = tasks
erase_task (some task) tasks = set_erase task tasks

-- `get_task_of_node` is none for an SCC that can be cloned.
module _ (get_task_of_node : ℕ → Option ℕ) where
  unfoldable pub follow_edge : ℕ → ControlSearch → ControlSearch
  follow_edge dependent s = record s {
    queued_nodes = s.queued_nodes ++ dependent ∷ [];
    controlled_tasks = insert_task (get_task_of_node dependent) s.controlled_tasks;
  }

  unfoldable pub follow_edges : List ℕ → ControlSearch → ControlSearch
  follow_edges [] s = s
  follow_edges (dependent ∷ edges) s = follow_edges edges (follow_edge dependent s)

unfoldable pub start_control : ℕ → ControlSearch
start_control controlling = record {
  queued_nodes = controlling ∷ [];
  visited_nodes = [];
  controlled_tasks = [];
}

-- The number of edges that leave the nodes of a list.
unfoldable pub count_edges : (ℕ → List ℕ) → List ℕ → ℕ
count_edges outgoing [] = 0
count_edges outgoing (node ∷ nodes) = length (outgoing node) + count_edges outgoing nodes

-- `outgoing` are the targets of the edges of a node.
module _ (get_task_of_node : ℕ → Option ℕ) (outgoing : ℕ → List ℕ) where
  -- The rest of a round, after a node is taken from the queue.
  unfoldable pub take_node : ℕ → ControlSearch → ControlSearch
  take_node node s =
      if contains s.visited_nodes node
      then s
      else follow_edges get_task_of_node (outgoing node)
          (record s { visited_nodes = node ∷ s.visited_nodes })

  -- The while loop, with fuel.
  unfoldable pub search_controlled : ℕ → ControlSearch → ControlSearch
  search_controlled zero s = s
  search_controlled (suc fuel) s = elim s.queued_nodes [
    | [] ↦ s
    | node ∷ rest ↦ search_controlled fuel (take_node node (record s { queued_nodes = rest }))
  ]

  -- `nodes` are those of the SCCDAG.
  unfoldable pub run_control : List ℕ → ℕ → ControlSearch
  run_control nodes controlling =
      search_controlled (suc (count_edges outgoing nodes)) (start_control controlling)

  unfoldable pub collect_transitively_controlled_tasks : List ℕ → ℕ → List ℕ
  collect_transitively_controlled_tasks nodes controlling =
      erase_task (get_task_of_node controlling) (run_control nodes controlling).controlled_tasks
