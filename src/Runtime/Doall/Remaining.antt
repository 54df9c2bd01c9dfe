-- ===== src/Runtime/Doall/Remaining.antt =====
-- How many steps a DOALL dispatch has left.
use gino.Base.{zero, suc, ℕ, ◌+◌, ◌-◌, ◌≡◌, ltb, arith, if◌then◌else◌, update}
use gino.Runtime.ArgPool.{Block}
use gino.Runtime.Doall.{
  Task, waiting, submitted, returned, finished, Phase, submitting, joining, complete, Dispatch,
  Step, submit, run_own, invoke, unlock, join, finish,
}
use gino.Runtime.Doall.Invariant.{Inv}

-- A task calls the loop and releases its lock.
abbrev pub steps_of_task : Task → ℕ
steps_of_task waiting = 2
steps_of_task submitted = 2
steps_of_task returned = 1
steps_of_task finished = 0

abbrev pub steps_of_tasks : ℕ → (ℕ → Task) → ℕ
steps_of_tasks zero tasks = 0
steps_of_tasks (suc n) tasks = steps_of_task (tasks n) + steps_of_tasks n tasks

-- For `n` tasks the dispatcher submits each, calls the loop itself, joins each, and returns.
abbrev pub steps_of_phase : ℕ → Phase → ℕ
steps_of_phase n (submitting i) = (n - i) + n + 2
steps_of_phase n (joining i) = (n - i) + 1
steps_of_phase n complete = 0

abbrev pub remaining : ℕ → Dispatch → ℕ
remaining num_cores s =
    steps_of_phase (num_cores - 1) s.phase + steps_of_tasks (num_cores - 1) s.tasks

steps_of_tasks-update :
    (n : ℕ) (tasks : ℕ → Task) (i : ℕ) (task : Task)
    → steps_of_tasks n (update tasks i task) + (if ltb i n then steps_of_task (tasks i) else 0)
      ≡ steps_of_tasks n tasks + (if ltb i n then steps_of_task task else 0)
steps_of_tasks-update zero tasks i task = ground arith
steps_of_tasks-update (suc n) tasks i task = ground (arith, steps_of_tasks-update n tasks i task)

module _ (parallelized_loop env num_cores chunk_size : ℕ) where
  -- Each step is one of the steps that are left.
  pub Step-remaining :
      {block : Block} {s t : Dispatch}
      → Inv parallelized_loop env num_cores chunk_size block s
      → Step parallelized_loop env num_cores chunk_size s t
      → remaining num_cores s ≡ remaining num_cores t + 1
  Step-remaining {s = s} v (submit i at below) =
      ground (arith, steps_of_tasks-update (num_cores - 1) s.tasks i submitted, v.fresh i)
  Step-remaining {s = s} v (run_own i at past) = ground arith
  Step-remaining {s = s} v (invoke i at) =
      ground (arith, steps_of_tasks-update (num_cores - 1) s.tasks i returned, v.ranged i)
  Step-remaining {s = s} v (unlock i at) =
      ground (arith, steps_of_tasks-update (num_cores - 1) s.tasks i finished, v.ranged i)
  Step-remaining {s = s} v (join i at below free) = ground arith
  Step-remaining {s = s} v (finish i at past) = ground arith
