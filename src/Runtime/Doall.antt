-- ===== src/Runtime/Doall.antt =====
-- NOELLE_DOALLDispatcher and NOELLE_DOALLTrampoline (src/core/runtime/Parallelizer_utils.cpp): the
-- dispatcher submits a task for each core but the last, runs the last one itself, and waits for
-- each task at its lock. The tasks run on other threads, in any order.
pub mod Invariant
pub mod Once
pub mod Remaining
pub mod Whole
mod Tests
use gino.Base.{ℕ, ◌+◌, ◌-◌, ◌≤◌, ◌<◌, ◌≡◌, Bool, true, false, List, [], ◌∷◌, update}
use gino.Runtime.ArgPool.{DoallArgs, Block}

-- Where a task stands: not yet submitted, in the queue of VIRGIL, back from the loop, or done with
-- its lock released.
pub data Task : Type 0 where
  waiting submitted returned finished : Task

pub data Phase : Type 0 where
  submitting : ℕ → Phase
  joining : ℕ → Phase
  complete : Phase

-- A call of the parallelized loop.
pub record Call : Type 0 where
  pub parallelized_loop : ℕ
  pub env : ℕ
  pub core_id : ℕ
  pub num_cores : ℕ
  pub chunk_size : ℕ

pub record Dispatch : Type 0 where
  pub args : Block
  pub tasks : ℕ → Task
  pub phase : Phase
  pub calls : List Call

pub start_dispatch : Block → Dispatch
start_dispatch block = record {
  args = block;
  tasks = λ _. waiting;
  phase = submitting 0;
  calls = [];
}

-- What the trampoline calls.
pub call_of : DoallArgs → Call
call_of a = record {
  parallelized_loop = a.parallelized_loop;
  env = a.env;
  core_id = a.core_id;
  num_cores = a.num_cores;
  chunk_size = a.chunk_size;
}

module _ (parallelized_loop env num_cores chunk_size : ℕ) where
  -- The core and the lock of a task are left as the pool gave them.
  pub prepare : DoallArgs → DoallArgs
  prepare a = record a {
    parallelized_loop = parallelized_loop;
    env = env;
    num_cores = num_cores;
    chunk_size = chunk_size;
  }

  pub own_call : Call
  own_call = record {
    parallelized_loop = parallelized_loop;
    env = env;
    core_id = num_cores - 1;
    num_cores = num_cores;
    chunk_size = chunk_size;
  }

  pub data Step (s : Dispatch) : Dispatch → Type 0 where
    submit :
        (i : ℕ)
        → s.phase ≡ submitting i
        → i < num_cores - 1
        → Step s (record s {
          args = update s.args i (prepare (s.args i));
          tasks = update s.tasks i submitted;
          phase = submitting (i + 1);
        })
    run_own :
        (i : ℕ)
        → s.phase ≡ submitting i
        → num_cores - 1 ≤ i
        → Step s (record s { calls = own_call ∷ s.calls; phase = joining 0 })
    invoke :
        (i : ℕ)
        → s.tasks i ≡ submitted
        → Step s
            (record s { calls = call_of (s.args i) ∷ s.calls; tasks = update s.tasks i returned })
    unlock :
        (i : ℕ)
        → s.tasks i ≡ returned
        → Step s (record s {
          args = update s.args i (record (s.args i) { end_lock = false });
          tasks = update s.tasks i finished;
        })
    join :
        (i : ℕ)
        → s.phase ≡ joining i
        → i < num_cores - 1
        → (s.args i).end_lock ≡ false
        → Step s (record s {
          args = update s.args i (record (s.args i) { end_lock = true });
          phase = joining (i + 1);
        })
    finish :
        (i : ℕ) → s.phase ≡ joining i → num_cores - 1 ≤ i → Step s (record s { phase = complete })

  pub data Reach (block : Block) : Dispatch → Type 0 where
    start : Reach block (start_dispatch block)
    later : {s t : Dispatch} → Reach block s → Step s t → Reach block t
