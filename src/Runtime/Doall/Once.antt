-- ===== src/Runtime/Doall/Once.antt =====
-- A DOALL dispatch calls the loop once for each core, and does not get stuck.
use gino.Base.{ℕ, ◌+◌, ◌-◌, ◌≤◌, ◌<◌, ◌≡◌, ◌≢◌, refl, All, arith, dec_lt}
use gino.Runtime.ArgPool.{Block}
use gino.Runtime.ArgPool.Blocks.{HasCores, IsLocked}
use gino.Runtime.Doall.{
  Task, waiting, submitted, returned, finished, Phase, submitting, joining, complete, Dispatch,
  Step, submit, run_own, invoke, unlock, join, finish, Reach,
}
use gino.Runtime.Doall.Invariant.{count_core, IsRight, Inv, Reach-Inv}
use gino.Runtime.Doall.Remaining.{remaining, Step-remaining}

module _ (parallelized_loop env num_cores chunk_size : ℕ) where
  -- When the dispatcher has joined all tasks, the loop was called exactly once for each core and for
  -- no other core, always with the arguments of the dispatch, and the block is again fit to be given
  -- back: all its locks are held, at every size that it had at the start.
  pub dispatch_once :
      {block : Block} {s : Dispatch} (size : ℕ)
      → 1 ≤ num_cores
      → num_cores - 1 ≤ size
      → HasCores size block
      → IsLocked size block
      → Reach parallelized_loop env num_cores chunk_size block s
      → s.phase ≡ complete
      → ((c : ℕ) → c < num_cores → count_core c s.calls ≡ 1)
        × All
            (λ c. IsRight parallelized_loop env num_cores chunk_size c × (c.core_id < num_cores))
            s.calls
        × HasCores size s.args
        × IsLocked size s.args
  dispatch_once {block} {s} size pos enough h k r done = (
    λ c below. elim (dec_lt c (num_cores - 1)) [
      | yes task ↦ ground (arith, v.counted c task, v.joined c task)
      | no own ↦
          let last : c ≡ num_cores - 1 = omega arith in rw last (ground (arith, v.own_counted))
    ],
    v.right,
    λ i below. ground (arith, v.cores i, v.spare i, h i below),
    λ i below. ground (arith, v.locks i, v.joined i, v.spare i, k i below),
  )
    where
      v : Inv parallelized_loop env num_cores chunk_size block s
      v =
          Reach-Inv parallelized_loop env num_cores chunk_size pos (λ i b. h i (omega arith))
            (λ i b. k i (omega arith)) r

  -- In every state that a dispatch over at least one core reaches, from arguments with their core ids and
  -- held locks: until the dispatcher is done, some thread can take a step, a submitted task being always
  -- able to run; and every step, whichever thread takes it, takes one from the steps that remain, which
  -- are two for each task that has not called the loop, one for each that has not released its lock, and
  -- those of the dispatcher. So no run has more steps, and none stops before the dispatcher is done.
  pub dispatch_progress :
      {block : Block} {s : Dispatch}
      → 1 ≤ num_cores
      → HasCores (num_cores - 1) block
      → IsLocked (num_cores - 1) block
      → Reach parallelized_loop env num_cores chunk_size block s
      → (s.phase ≢ complete → (t : Dispatch) × Step parallelized_loop env num_cores chunk_size s t)
        × ((t : Dispatch)
            → Step parallelized_loop env num_cores chunk_size s t
            → remaining num_cores s ≡ remaining num_cores t + 1)
  dispatch_progress {block} {s} pos h k r = (
    λ open'. go open' s.phase refl,
    λ t st. Step-remaining parallelized_loop env num_cores chunk_size v st,
  )
    where
      v : Inv parallelized_loop env num_cores chunk_size block s
      v = Reach-Inv parallelized_loop env num_cores chunk_size pos h k r

      joins :
          (i : ℕ)
          → s.phase ≡ joining i
          → i < num_cores - 1
          → (task : Task) → s.tasks i ≡ task
          → (t : Dispatch) × Step parallelized_loop env num_cores chunk_size s t
      joins i e below waiting f = absurd (ground (arith, v.begun i below))
      joins i e below submitted f = (_, invoke i f)
      joins i e below returned f = (_, unlock i f)
      joins i e below finished f = (_, join i e below (ground (arith, v.locks i below)))

      go :
          s.phase ≢ complete
          → (p : Phase) → s.phase ≡ p
          → (t : Dispatch) × Step parallelized_loop env num_cores chunk_size s t
      go open' (submitting i) e = elim (dec_lt i (num_cores - 1)) [
        | yes below ↦ (_, submit i e below)
        | no past ↦ (_, run_own i e (omega arith))
      ]
      go open' (joining i) e = elim (dec_lt i (num_cores - 1)) [
        | yes below ↦ joins i e below (s.tasks i) refl
        | no past ↦ (_, finish i e (omega arith))
      ]
      go open' complete e = absurd (open' e)
