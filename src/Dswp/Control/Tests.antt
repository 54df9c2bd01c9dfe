-- ===== src/Dswp/Control/Tests.antt =====
-- Three stages of one SCC each: SCC 0 has the branch 50 with the condition 40, which controls the others,
-- and makes value 10 for SCC 1.
use gino.Base.{
  ◌≢◌, ℕ, zero, suc, ◌<◌, ◌≡◌, ◌↔◌, refl, true, false, some, List, [], ◌∷◌, All, arith, contains,
  set_insert, set_erase, ℕ_discrete,
}
use gino.Dswp.Widths.{ProducerType, get_bit_length, round_up, double_until, queue_size_to_index}
use gino.Dswp.Queues.{
  Pipeline, Request, no_queues, register_queue, register_queues, find_queue, make_queue_info,
  add_queue, track, track_stages, track_queue, connect, are_queues_acyclical,
}
use gino.Dswp.Requests.{
  data_edge, SccEdge, both_requests, request_queue, request_queues, request_edge, request_edges,
  request_sccs, collect_data_and_memory_queue_info,
}
use gino.Dswp.Controlled.{
  insert_task, erase_task, follow_edge, follow_edges, start_control, count_edges, take_node,
  search_controlled, run_control, collect_transitively_controlled_tasks,
}
use gino.Dswp.Control.{
  data_dependence, ControlFacts, has_data_dependency, leaves_loop, insert_branches,
  collect_branches, insert_conditions, find_condition, stage_of, controlled_by, request_tasks,
  request_branch, request_branches, collect_control_queue_info,
}
use gino.Dswp.Control.Controls.{NeedsQueue, ControlsTask}
use gino.Dswp.Control.Forward.{DataForward, collect_control_queue_info-acyclical}

abbrev type_of : ℕ → ProducerType
type_of x = record { is_pointer = false; alloc_size = 4; primitive_size_in_bits = 32 }

abbrev stage_in : ℕ → ℕ
stage_in zero = 0
stage_in (suc zero) = 1
stage_in (suc (suc scc)) = 2

abbrev edges_of : ℕ → List ℕ
edges_of zero = 1 ∷ []
edges_of (suc zero) = 2 ∷ []
edges_of (suc (suc scc)) = []

abbrev facts : ControlFacts
facts = record {
  control_sources = λ scc. 50 ∷ [];
  scc_of_value = λ x. 0;
  can_be_cloned = λ scc. false;
  scc_to_stage = stage_in;
  incoming = λ x. data_dependence 40 ∷ [];
  outgoing = edges_of;
  nodes = 0 ∷ 1 ∷ 2 ∷ [];
  successors = λ b. 7 ∷ [];
  exit_blocks = 9 ∷ [];
}

abbrev incoming : ℕ → List SccEdge
incoming zero = []
incoming (suc zero) = record { from_scc = 0; sub_edges = data_edge 10 20 ∷ [] } ∷ []
incoming (suc (suc scc)) = []

abbrev sccs_of : ℕ → List ℕ
sccs_of t = t ∷ []

abbrev tasks : List ℕ
tasks = 0 ∷ 1 ∷ 2 ∷ []

abbrev request : ℕ → ℕ → ℕ → Request
request to x y = record {
  from_task = 0;
  to_task = to;
  producer = x;
  consumer = y;
  is_memory_dependence = false;
}

abbrev requests : List Request
requests = request 1 10 20 ∷ request 1 40 50 ∷ request 2 40 50 ∷ []

branches : collect_branches facts facts.nodes [] ≡ 50 ∷ []
unfolding collect_branches insert_branches has_data_dependency set_insert ℕ_discrete
branches = refl

controlled : controlled_by facts tasks 50 ≡ 1 ∷ 2 ∷ []
unfolding controlled_by leaves_loop collect_transitively_controlled_tasks run_control
    search_controlled take_node follow_edges follow_edge insert_task erase_task start_control
    count_edges stage_of contains set_insert set_erase ℕ_discrete
controlled = refl

collected :
    both_requests
      (collect_data_and_memory_queue_info facts.can_be_cloned facts.scc_to_stage incoming sccs_of
        tasks)
      (collect_control_queue_info facts tasks)
    ≡ some requests
unfolding collect_data_and_memory_queue_info request_sccs request_edges request_edge request_queues
    request_queue both_requests collect_control_queue_info request_branches request_branch
    request_tasks find_condition insert_conditions collect_branches insert_branches
    has_data_dependency controlled_by leaves_loop collect_transitively_controlled_tasks run_control
    search_controlled take_node follow_edges follow_edge insert_task erase_task start_control
    count_edges stage_of contains set_insert set_erase ℕ_discrete
collected = refl

abbrev built : (p : Pipeline) × (register_queues type_of (λ t. t) no_queues requests ≡ some p)
unfolding register_queues register_queue no_queues find_queue make_queue_info add_queue track
    track_stages track_queue connect get_bit_length round_up double_until queue_size_to_index
    set_insert ℕ_discrete
built = (_, refl)

staged : (scc : ℕ) → stage_in scc < 3
staged zero = omega arith
staged (suc zero) = omega arith
staged (suc (suc scc)) = omega arith

edges_within : (n : ℕ) → All (λ x. contains (0 ∷ 1 ∷ 2 ∷ []) x ≡ true) (edges_of n)
unfolding contains
edges_within zero = (refl, tt)
edges_within (suc zero) = (refl, tt)
edges_within (suc (suc n)) = tt

collect_control_queue_info-acyclical_example : (are_queues_acyclical 3 built.0 ≡ true) ↔ (
    DataForward facts.can_be_cloned facts.scc_to_stage incoming sccs_of tasks
    × ((branch task : ℕ)
        → NeedsQueue facts branch
        → ControlsTask facts tasks branch task
        → 0 ≢ task
        → 0 < task))
unfolding contains
collect_control_queue_info-acyclical_example =
    collect_control_queue_info-acyclical type_of facts incoming sccs_of tasks 3 requests built.0
      (omega arith, (omega arith, (omega arith, tt))) staged (λ x. refl) edges_within collected
      built.1
