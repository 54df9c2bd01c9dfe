-- ===== src/Runtime/Doall/Whole.antt =====
-- A whole call of NOELLE_DOALLDispatcher: cores and memory are taken, the tasks run, and both are
-- given back (src/core/runtime/Parallelizer_utils.cpp).
use gino.Base.{ℕ, ◌-◌, ◌<◌, ◌≡◌, some, get_elem?}
use gino.Base.Words.{u32_mod}
use gino.Runtime.Cores.{Cores, reserve_cores, release_cores}
use gino.Runtime.Cores.Ledger.{release_cores-reserve_cores, reserve_cores_pos}
use gino.Runtime.ArgPool.{Block, ArgPool, get_doall_args, release_doall_args, store_block}
use gino.Runtime.ArgPool.Blocks.{IsValid, HasCores, IsLocked}
use gino.Runtime.ArgPool.Sharing.{Handed, get_doall_args-Handed, release_doall_args-IsValid}
use gino.Runtime.Doall.{Dispatch, complete, Reach}
use gino.Runtime.Doall.Invariant.{count_core}
use gino.Runtime.Doall.Once.{dispatch_once}

pub record NoelleRuntime : Type 0 where
  pub cores : Cores
  pub pool : ArgPool

-- The runtime after both are taken, the cores granted, and the index of the block.
pub record Taken : Type 0 where
  pub runtime : NoelleRuntime
  pub num_cores : ℕ
  pub index : ℕ

unfoldable pub begin_dispatch : Block → ℕ → NoelleRuntime → Taken
begin_dispatch garbage max_number_of_cores rt =
    let (cores, num_cores) = reserve_cores rt.cores max_number_of_cores in
    let (pool, index) = get_doall_args garbage (num_cores - 1) rt.pool in
    record { runtime = record { cores = cores; pool = pool }; num_cores = num_cores; index = index }

-- `block` is what the tasks have left in the memory. `numberOfThreadsUsed` is `num_cores`.
pub end_dispatch : Block → Taken → NoelleRuntime × ℕ
end_dispatch block t = (
  record {
    cores = release_cores t.runtime.cores t.num_cores;
    pool = release_doall_args t.index (store_block t.index block t.runtime.pool);
  },
  t.num_cores,
)

-- A DOALL dispatch on a runtime with a valid pool, with no other dispatch in between: whatever the
-- order in which its tasks run, when it is done the loop was called once for each core that it
-- reports as used, the cores are as they were before, and the pool is valid again.
pub end_dispatch-begin_dispatch :
    (garbage : Block) (requested : ℕ) (rt : NoelleRuntime) (parallelized_loop env chunk_size : ℕ)
    (block : Block) {s : Dispatch}
    → rt.cores.idle_cores < u32_mod
    → requested < u32_mod
    → IsValid rt.pool
    → get_elem?
        (begin_dispatch garbage requested rt).runtime.pool.doall_memory
        (begin_dispatch garbage requested rt).index
      ≡ some block
    → Reach parallelized_loop env (begin_dispatch garbage requested rt).num_cores chunk_size block s
    → s.phase ≡ complete
    → ((c : ℕ)
        → c < (end_dispatch s.args (begin_dispatch garbage requested rt)).1
        → count_core c s.calls ≡ 1)
      × ((end_dispatch s.args (begin_dispatch garbage requested rt)).0.cores ≡ rt.cores)
      × IsValid (end_dispatch s.args (begin_dispatch garbage requested rt)).0.pool
unfolding begin_dispatch end_dispatch
end_dispatch-begin_dispatch garbage requested rt loop env chunk block {s} fits small valid at r
      done =
    (
      once.0,
      release_cores-reserve_cores rt.cores requested fits small,
      (release_doall_args-IsValid (get_doall_args garbage (num_cores - 1) rt.pool).1 s.args
          (get_doall_args garbage (num_cores - 1) rt.pool).0 handed.1
          (λ size e.
            let fits : size ≡ handed.0.size = cc handed.0.sized in rw fits (once.1, once.2))).0,
    )
  where
    num_cores : ℕ
    num_cores = (reserve_cores rt.cores requested).1

    handed :
        Handed
          (num_cores - 1)
          rt.pool
          (get_doall_args garbage (num_cores - 1) rt.pool).0
          (get_doall_args garbage (num_cores - 1) rt.pool).1
        × IsValid (get_doall_args garbage (num_cores - 1) rt.pool).0
    handed = get_doall_args-Handed garbage (num_cores - 1) rt.pool valid

    same : block ≡ handed.0.block
    same = cc handed.0.stored

    once :
        ((c : ℕ) → c < num_cores → count_core c s.calls ≡ 1)
        × HasCores handed.0.size s.args
        × IsLocked handed.0.size s.args
    once =
        let result =
          dispatch_once loop env num_cores chunk handed.0.size
            (reserve_cores_pos rt.cores requested) handed.0.enough (rw same handed.0.with_cores)
            (rw same handed.0.locked) r done in
        (result.0, result.2, result.3)
