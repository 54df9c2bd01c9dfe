-- ===== src/Runtime/ArgPool.antt =====
-- The memory for the arguments of DOALL tasks: getDOALLArgs and releaseDOALLArgs of NoelleRuntime
-- (src/core/runtime/Parallelizer_utils.cpp). A block is handed to one dispatcher at a time and is
-- used again later. Both methods run under the runtime's `doallMemoryLock`.
pub mod Blocks
pub mod Sharing
mod Tests
use gino.Base.{
  ℕ, zero, suc, ◌+◌, Bool, true, false, ◌&&◌, List, [], ◌∷◌, ◌++◌, Option, none, some, leb, ltb,
  set, length, if◌then◌else◌,
}

-- `DOALL_args_t`. Functions and environments are numbers; `end_lock` says whether the lock is held.
pub record DoallArgs : Type 0 where
  pub parallelized_loop : ℕ
  pub env : ℕ
  pub core_id : ℕ
  pub num_cores : ℕ
  pub chunk_size : ℕ
  pub end_lock : Bool

-- An array of arguments; its size stands beside it in the pool.
abbrev pub Block : Type 0
Block = ℕ → DoallArgs

-- The three vectors of the runtime, one entry for each block.
pub record ArgPool : Type 0 where
  pub doall_memory_sizes : List ℕ
  pub doall_memory_availability : List Bool
  pub doall_memory : List Block

-- The search for a block that is available and large enough; `i` is the index of the first entry.
unfoldable pub find_block : ℕ → List Bool → List ℕ → ℕ → Option ℕ
find_block cores [] sizes i = none
find_block cores (available ∷ others) [] i = none
find_block cores (available ∷ others) (size ∷ sizes) i =
    let rest = find_block cores others sizes (i + 1) in
    if available && leb cores size then some i else rest

-- A fresh block: each of the tasks has its core and a lock that is held. The other fields, and what is
-- past the last task, are whatever the allocation `garbage` holds.
pub init_block : Block → ℕ → Block
init_block garbage cores i =
    if ltb i cores then record (garbage i) { core_id = i; end_lock = true } else garbage i

allocate : Block → ℕ → ArgPool → ArgPool
unfolding init_block
allocate garbage cores pool = record {
  doall_memory_sizes = pool.doall_memory_sizes ++ cores ∷ [];
  doall_memory_availability = pool.doall_memory_availability ++ false ∷ [];
  doall_memory = pool.doall_memory ++ init_block garbage cores ∷ [];
}

unfoldable pub take_block : Block → ℕ → ArgPool → Option ℕ → ArgPool × ℕ
unfolding allocate
take_block garbage cores pool (some i) =
    (record pool { doall_memory_availability = set pool.doall_memory_availability i false }, i)
take_block garbage cores pool none =
    (allocate garbage cores pool, length pool.doall_memory_availability)

-- The new pool, and the index of the block.
unfoldable pub get_doall_args : Block → ℕ → ArgPool → ArgPool × ℕ
unfolding take_block find_block
get_doall_args garbage cores pool =
    take_block garbage cores pool
      (find_block cores pool.doall_memory_availability pool.doall_memory_sizes 0)

pub release_doall_args : ℕ → ArgPool → ArgPool
release_doall_args index pool = record pool {
  doall_memory_availability = set pool.doall_memory_availability index true;
}

-- What a dispatcher leaves in its block.
pub store_block : ℕ → Block → ArgPool → ArgPool
store_block index block pool = record pool { doall_memory = set pool.doall_memory index block }
