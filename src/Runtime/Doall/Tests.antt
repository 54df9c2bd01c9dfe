-- ===== src/Runtime/Doall/Tests.antt =====
-- A DOALL dispatch over two cores: the task of core 0 is submitted, core 1 is the dispatcher's own.
use gino.Base.{◌+◌, ◌≢◌, ℕ, ◌<◌, ◌≡◌, refl, true, [], ◌∷◌, All, arith, ℕ_discrete}
use gino.Runtime.Cores.{reserve_cores}
use gino.Runtime.ArgPool.{Block, get_doall_args, take_block, find_block}
use gino.Runtime.ArgPool.Blocks.{HasCores, IsLocked, IsValid}
use gino.Runtime.Doall.{
  complete, Dispatch, Reach, start, later, Step, submit, run_own, invoke, unlock, join, finish,
  start_dispatch,
}
use gino.Runtime.Doall.Invariant.{count_core, IsRight}
use gino.Runtime.Doall.Once.{dispatch_once, dispatch_progress}
use gino.Runtime.Doall.Remaining.{remaining}
use gino.Runtime.Doall.Whole.{
  NoelleRuntime, Taken, begin_dispatch, end_dispatch, end_dispatch-begin_dispatch,
}

abbrev fresh_block : Block
fresh_block i = record {
  parallelized_loop = 0;
  env = 0;
  core_id = i;
  num_cores = 0;
  chunk_size = 0;
  end_lock = true;
}

-- A whole run, up to the dispatcher's return.
abbrev whole_run : (s : Dispatch) × Reach 7 9 2 4 fresh_block s × (s.phase ≡ complete)
unfolding start_dispatch ℕ_discrete
whole_run = (
  _,
  later
      (later
        (later
          (later (later (later start (submit 0 refl (omega arith))) (run_own 1 refl (omega arith)))
            (invoke 0 refl))
          (unlock 0 refl))
        (join 0 refl (omega arith) refl))
      (finish 1 refl (omega arith)),
  refl,
)

-- The state in which the task has not yet run, and the dispatcher waits for it.
abbrev waiting_run : (s : Dispatch) × Reach 7 9 2 4 fresh_block s
unfolding start_dispatch
waiting_run = (_, later (later start (submit 0 refl (omega arith))) (run_own 1 refl (omega arith)))

dispatch_once_example :
    ((c : ℕ) → c < 2 → count_core c (whole_run.0).calls ≡ 1)
    × All (λ c. IsRight 7 9 2 4 c × (c.core_id < 2)) (whole_run.0).calls
    × HasCores 1 (whole_run.0).args
    × IsLocked 1 (whole_run.0).args
dispatch_once_example =
    dispatch_once 7 9 2 4 1 (omega arith) (omega arith) (λ i h. refl) (λ i h. refl) whole_run.1
      whole_run.2

dispatch_progress_example :
    ((waiting_run.0).phase ≢ complete → (t : Dispatch) × Step 7 9 2 4 waiting_run.0 t)
    × ((t : Dispatch)
        → Step 7 9 2 4 waiting_run.0 t
        → remaining 2 waiting_run.0 ≡ remaining 2 t + 1)
dispatch_progress_example =
    dispatch_progress 7 9 2 4 (omega arith) (λ i h. refl) (λ i h. refl) waiting_run.1

-- The task has to call the loop and to release its lock, the dispatcher to join and to return.
waiting_remaining : remaining 2 waiting_run.0 ≡ 4
unfolding start_dispatch ℕ_discrete
waiting_remaining = refl

-- A runtime with four idle cores and one block, which is available.
abbrev one_block : NoelleRuntime
one_block = record {
  cores = record { idle_cores = 4; max_cores = 4 };
  pool = record {
    doall_memory_sizes = 3 ∷ [];
    doall_memory_availability = true ∷ [];
    doall_memory = fresh_block ∷ [];
  };
}

abbrev taken : Taken
taken = begin_dispatch fresh_block 2 one_block

end_dispatch-begin_dispatch_example :
    ((c : ℕ) → c < (end_dispatch (whole_run.0).args taken).1 → count_core c (whole_run.0).calls ≡ 1)
    × ((end_dispatch (whole_run.0).args taken).0.cores ≡ one_block.cores)
    × IsValid (end_dispatch (whole_run.0).args taken).0.pool
unfolding begin_dispatch reserve_cores get_doall_args take_block find_block
end_dispatch-begin_dispatch_example =
    end_dispatch-begin_dispatch fresh_block 2 one_block 7 9 4 fresh_block (omega arith)
      (omega arith) (λ i h. refl, λ e i h. refl, tt) refl whole_run.1 whole_run.2
