-- ===== src/Dswp/Requests.antt =====
-- DSWP::collectDataAndMemoryQueueInfo (src/core/dswp/src/Queue.cpp): the queues that are requested for the
-- dependences between stages.
pub mod Forward
use gino.Base.{
  ℕ, ◌==◌, Bool, true, false, not, ◌&&◌, ◌||◌, Option, some, none, List, [], ◌∷◌, ◌++◌,
  if◌then◌else◌,
}
use gino.Dswp.Queues.{Request}

-- A dependence between instructions: its producer and its consumer.
pub data InstructionEdge : Type 0 where
  control_edge : InstructionEdge
  memory_edge data_edge : ℕ → ℕ → InstructionEdge

-- An edge into a node of the SCCDAG, with the dependences that it stands for.
pub record SccEdge : Type 0 where
  pub from_scc : ℕ
  pub sub_edges : List InstructionEdge

-- The requests of two parts of a loop; none is a failed assertion.
unfoldable pub both_requests : Option (List Request) → Option (List Request) → Option (List Request)
both_requests first rest = elim first [
  | none ↦ none
  | some rs ↦ elim rest [ none ↦ none | some qs ↦ some (rs ++ qs) ]
]

unfoldable pub request_queue : ℕ → ℕ → InstructionEdge → Option (List Request)
request_queue from to control_edge = some []
request_queue from to (memory_edge x y) = none
request_queue from to (data_edge x y) = some (
    record {
      from_task = from;
      to_task = to;
      producer = x;
      consumer = y;
      is_memory_dependence = false;
    }
    ∷ [])

unfoldable pub request_queues : ℕ → ℕ → List InstructionEdge → Option (List Request)
request_queues from to [] = some []
request_queues from to (edge ∷ edges) =
    both_requests (request_queue from to edge) (request_queues from to edges)

-- `scc_to_stage` is the stage of an SCC that is not cloned, `incoming` the edges into a node.
module _ (can_be_cloned : ℕ → Bool) (scc_to_stage : ℕ → ℕ) where
  unfoldable pub request_edge : ℕ → SccEdge → Option (List Request)
  request_edge to e =
      if can_be_cloned e.from_scc
      then some []
      else if scc_to_stage e.from_scc == to
      then some []
      else request_queues (scc_to_stage e.from_scc) to e.sub_edges

  unfoldable pub request_edges : ℕ → List SccEdge → Option (List Request)
  request_edges to [] = some []
  request_edges to (e ∷ es) = both_requests (request_edge to e) (request_edges to es)

module _ (can_be_cloned : ℕ → Bool) (scc_to_stage : ℕ → ℕ) (incoming : ℕ → List SccEdge) where
  unfoldable pub request_sccs : ℕ → List ℕ → Option (List Request)
  request_sccs to [] = some []
  request_sccs to (scc ∷ sccs) =
      both_requests (request_edges can_be_cloned scc_to_stage to (incoming scc))
        (request_sccs to sccs)

  -- `all_sccs` are the SCCs of a stage and its clones.
  unfoldable pub collect_data_and_memory_queue_info : (ℕ → List ℕ) → List ℕ → Option (List Request)
  collect_data_and_memory_queue_info all_sccs [] = some []
  collect_data_and_memory_queue_info all_sccs (task ∷ tasks) =
      both_requests (request_sccs task (all_sccs task))
        (collect_data_and_memory_queue_info all_sccs tasks)
