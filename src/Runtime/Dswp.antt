-- ===== src/Runtime/Dswp.antt =====
-- NOELLE_DSWPDispatcher and NOELLE_DSWPTrampoline (src/core/runtime/Parallelizer_utils.cpp): the
-- dispatcher allocates the queues, submits a task for each stage, waits for each task at its lock, and
-- gives back the cores and the queues. The tasks run on other threads, in any order.
pub mod Invariant
pub mod Once
mod Tests
use gino.Base.{
  ℕ, ◌+◌, ◌≤◌, ◌<◌, ◌≡◌, Bool, true, false, Option, some, none, List, [], ◌∷◌, map, update,
}
use gino.Dswp.Widths.{new_queues, delete_queue}
use gino.Runtime.Cores.{Cores, reserve_cores, release_cores}
use gino.Runtime.Doall.{
  Task, waiting, submitted, returned, finished, Phase, submitting, joining, complete,
}

-- The queues are known by the bits of their elements.
pub record DswpArgs : Type 0 where
  pub func_to_invoke : ℕ
  pub env : ℕ
  pub local_queues : List ℕ
  pub end_lock : Bool

-- A call of a stage, with the index of the task that made it.
pub record StageCall : Type 0 where
  pub stage : ℕ
  pub func_to_invoke : ℕ
  pub env : ℕ
  pub local_queues : List ℕ

-- A queue: allocated, or deleted, with elements of some bits each.
pub data QueueSlot : Type 0 where
  live deleted : ℕ → QueueSlot

-- Deletes the queue as one with elements of `width` bits.
pub delete_as : ℕ → QueueSlot → QueueSlot
delete_as width slot = deleted width

-- The loop that deletes the queues: a queue of any other size is skipped.
unfoldable pub delete_queues : List ℕ → List QueueSlot → List QueueSlot
unfolding delete_as
delete_queues [] slots = slots
delete_queues (size ∷ sizes) [] = []
delete_queues (size ∷ sizes) (slot ∷ slots) =
    let rest = delete_queues sizes slots in
    elim (delete_queue size) [ none ↦ slot ∷ rest | some width ↦ delete_as width slot ∷ rest ]

-- `local_queues` are what the dispatcher's array points to.
pub record StageDispatch : Type 0 where
  pub args : ℕ → DswpArgs
  pub tasks : ℕ → Task
  pub phase : Phase
  pub calls : List StageCall
  pub local_queues : List QueueSlot
  pub cores : Cores
  pub num_cores : ℕ

-- Before the first task is submitted: the memory of the arguments holds `garbage`.
pub with_queues : (ℕ → DswpArgs) → Cores × ℕ → List ℕ → StageDispatch
with_queues garbage reserved queues = record {
  args = garbage;
  tasks = λ _. waiting;
  phase = submitting 0;
  calls = [];
  local_queues = map live queues;
  cores = reserved.0;
  num_cores = reserved.1;
}

-- The cores are reserved and the queues allocated; none is an abort on the size of a queue.
unfoldable pub start_stages : (ℕ → DswpArgs) → Cores → ℕ → List ℕ → Option StageDispatch
start_stages garbage cores number_of_stages queue_sizes = elim (new_queues queue_sizes) [
  | none ↦ none
  | some queues ↦ some (with_queues garbage (reserve_cores cores number_of_stages) queues)
]

-- What the trampoline calls.
pub stage_call : ℕ → DswpArgs → StageCall
stage_call i a = record {
  stage = i;
  func_to_invoke = a.func_to_invoke;
  env = a.env;
  local_queues = a.local_queues;
}

-- `numberOfThreadsUsed`: the number of stages, whatever number of cores was reserved.
pub number_of_threads_used : ℕ → StageDispatch → ℕ
number_of_threads_used number_of_stages s = number_of_stages

module _ (env : ℕ) (stages : ℕ → ℕ) (number_of_stages : ℕ) (queue_sizes queues : List ℕ) where
  -- The lock is taken before the task is submitted.
  pub prepare_stage : ℕ → DswpArgs
  prepare_stage i = record {
    func_to_invoke = stages i;
    env = env;
    local_queues = queues;
    end_lock = true;
  }

  pub data StageStep (s : StageDispatch) : StageDispatch → Type 0 where
    submit_stage :
        (i : ℕ)
        → s.phase ≡ submitting i
        → i < number_of_stages
        → StageStep s (record s {
          args = update s.args i (prepare_stage i);
          tasks = update s.tasks i submitted;
          phase = submitting (i + 1);
        })
    wait_stages :
        (i : ℕ)
        → s.phase ≡ submitting i
        → number_of_stages ≤ i
        → StageStep s (record s { phase = joining 0 })
    invoke_stage :
        (i : ℕ)
        → s.tasks i ≡ submitted
        → StageStep s (record s {
          calls = stage_call i (s.args i) ∷ s.calls;
          tasks = update s.tasks i returned;
        })
    unlock_stage :
        (i : ℕ)
        → s.tasks i ≡ returned
        → StageStep s (record s {
          args = update s.args i (record (s.args i) { end_lock = false });
          tasks = update s.tasks i finished;
        })
    join_stage :
        (i : ℕ)
        → s.phase ≡ joining i
        → i < number_of_stages
        → (s.args i).end_lock ≡ false
        → StageStep s (record s {
          args = update s.args i (record (s.args i) { end_lock = true });
          phase = joining (i + 1);
        })
    finish_stages :
        (i : ℕ)
        → s.phase ≡ joining i
        → number_of_stages ≤ i
        → StageStep s (record s {
          cores = release_cores s.cores s.num_cores;
          local_queues = delete_queues queue_sizes s.local_queues;
          phase = complete;
        })

  pub data StageReach (first : StageDispatch) : StageDispatch → Type 0 where
    start_stage : StageReach first first
    later_stage : {s t : StageDispatch} → StageReach first s → StageStep s t → StageReach first t
