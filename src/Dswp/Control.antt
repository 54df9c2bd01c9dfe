-- ===== src/Dswp/Control.antt =====
-- DSWP::collectControlQueueInfo (src/core/dswp/src/Queue.cpp): the queues that are requested for the
-- conditions of branches that control other stages.
pub mod Controls
pub mod Forward
mod Tests
use gino.Base.{
  ℕ, ◌==◌, Bool, true, false, not, ◌&&◌, ◌||◌, Option, some, none, List, [], ◌∷◌, contains,
  set_insert, if◌then◌else◌,
}
use gino.Dswp.Queues.{Request}
use gino.Dswp.Requests.{both_requests}
use gino.Dswp.Controlled.{collect_transitively_controlled_tasks}

-- An incoming dependence of an instruction, with its source.
pub data Dependence : Type 0 where
  control_dependence memory_dependence data_dependence : ℕ → Dependence

-- What NOELLE and LLVM tell of the loop: the sources of the control dependences inside an SCC, the SCC
-- of an instruction, the edges of the SCCDAG, the blocks behind the block of a branch, and the exits.
pub record ControlFacts : Type 0 where
  pub control_sources : ℕ → List ℕ
  pub scc_of_value : ℕ → ℕ
  pub can_be_cloned : ℕ → Bool
  pub scc_to_stage : ℕ → ℕ
  pub incoming : ℕ → List Dependence
  pub outgoing : ℕ → List ℕ
  pub nodes : List ℕ
  pub successors : ℕ → List ℕ
  pub exit_blocks : List ℕ

unfoldable pub has_data_dependency : List Dependence → Bool
has_data_dependency [] = false
has_data_dependency (control_dependence x ∷ ds) = has_data_dependency ds
has_data_dependency (memory_dependence x ∷ ds) = true
has_data_dependency (data_dependence x ∷ ds) = true

unfoldable pub leaves_loop : List ℕ → List ℕ → Bool
leaves_loop exits [] = false
leaves_loop exits (b ∷ bs) = contains exits b || leaves_loop exits bs

module _ (d : ControlFacts) where
  -- The branches among the sources of the control dependences of an SCC.
  unfoldable pub insert_branches : List ℕ → List ℕ → List ℕ
  insert_branches [] branches = branches
  insert_branches (x ∷ xs) branches = insert_branches xs (
      if d.can_be_cloned (d.scc_of_value x)
      then branches
      else if has_data_dependency (d.incoming x)
      then set_insert x branches
      else branches)

  unfoldable pub collect_branches : List ℕ → List ℕ → List ℕ
  collect_branches [] branches = branches
  collect_branches (scc ∷ sccs) branches =
      collect_branches sccs (insert_branches (d.control_sources scc) branches)

  -- The conditions of a branch; none is a failed assertion on a memory dependence.
  unfoldable pub insert_conditions : List Dependence → List ℕ → Option (List ℕ)
  insert_conditions [] conditions = some conditions
  insert_conditions (control_dependence x ∷ ds) conditions = insert_conditions ds conditions
  insert_conditions (memory_dependence x ∷ ds) conditions = none
  insert_conditions (data_dependence x ∷ ds) conditions =
      insert_conditions ds
        (if d.can_be_cloned (d.scc_of_value x) then conditions else set_insert x conditions)

  -- The only condition of a branch; none where the assertion on their number fails too.
  unfoldable pub find_condition : ℕ → Option ℕ
  find_condition branch = elim (insert_conditions (d.incoming branch) []) [
    | none ↦ none
    | some conditions ↦ elim conditions [
      | [] ↦ none
      | x ∷ xs ↦ elim xs [ [] ↦ some x | y ∷ ys ↦ none ]
    ]
  ]

  unfoldable pub stage_of : ℕ → Option ℕ
  stage_of scc = if d.can_be_cloned scc then none else some (d.scc_to_stage scc)

  unfoldable pub controlled_by : List ℕ → ℕ → List ℕ
  controlled_by tasks branch =
      if leaves_loop d.exit_blocks (d.successors branch)
      then tasks
      else collect_transitively_controlled_tasks stage_of d.outgoing d.nodes (d.scc_of_value branch)

  -- The loop over the tasks under a branch.
  unfoldable pub request_tasks : ℕ → ℕ → List ℕ → Option (List Request)
  request_tasks condition branch [] = some []
  request_tasks condition branch (task ∷ tasks) =
      both_requests
        (if d.scc_to_stage (d.scc_of_value branch) == task
          then some []
          else some (
              record {
                from_task = d.scc_to_stage (d.scc_of_value branch);
                to_task = task;
                producer = condition;
                consumer = branch;
                is_memory_dependence = false;
              }
              ∷ []))
        (request_tasks condition branch tasks)

  unfoldable pub request_branch : List ℕ → ℕ → Option (List Request)
  request_branch tasks branch = elim (find_condition branch) [
    | none ↦ none
    | some condition ↦ request_tasks condition branch (controlled_by tasks branch)
  ]

  unfoldable pub request_branches : List ℕ → List ℕ → Option (List Request)
  request_branches tasks [] = some []
  request_branches tasks (branch ∷ branches) =
      both_requests (request_branch tasks branch) (request_branches tasks branches)

  -- `tasks` are all stages.
  unfoldable pub collect_control_queue_info : List ℕ → Option (List Request)
  collect_control_queue_info tasks = request_branches tasks (collect_branches d.nodes [])
