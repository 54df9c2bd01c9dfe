-- ===== src/Runtime/ArgPool/Sharing.antt =====
-- Blocks are well formed, and no block is handed out while it is in use.
use gino.Runtime.ArgPool.Blocks.{
  HasCores, IsLocked, IsValid, AreBlocks-append, AreBlocks-set-false, AreBlocks-set-true, Found,
  find_block_lem, AreBlocks-get, AreBlocks-lengths,
}
use gino.Base.{
  get_elem?-set_ne, get_elem?-set_hit, get_elem?-append_last, get_elem?-append_ne, get_elem?-length,
  ℕ, ◌≤◌, ◌≡◌, ◌≢◌, sym, true, false, some, set, length, get_elem?, arith, Option-cases, inl, inr,
}
use gino.Runtime.ArgPool.{
  Block, ArgPool, find_block, init_block, allocate, get_doall_args, release_doall_args, store_block,
}

-- What a dispatcher gets: a block in use by nobody, now in use, with room for its tasks, the core
-- of each task in place, and every lock held.
pub record Handed (cores : ℕ) (before after : ArgPool) (i : ℕ) : Type 0 where
  pub unused : get_elem? before.doall_memory_availability i ≢ some false
  pub taken : get_elem? after.doall_memory_availability i ≡ some false
  pub others :
      (j : ℕ)
      → j ≢ i
      → get_elem? after.doall_memory_availability j ≡ get_elem? before.doall_memory_availability j
  pub size : ℕ
  pub block : Block
  pub sized : get_elem? after.doall_memory_sizes i ≡ some size
  pub stored : get_elem? after.doall_memory i ≡ some block
  pub enough : cores ≤ size
  pub with_cores : HasCores size block
  pub locked : IsLocked size block

reuse-Handed :
    (cores : ℕ) (pool : ArgPool) (i : ℕ)
    → IsValid pool
    → Found cores pool.doall_memory_availability pool.doall_memory_sizes i
    → Handed cores pool
        (record pool { doall_memory_availability = set pool.doall_memory_availability i false })
        i
reuse-Handed cores pool i v f =
    let (block, stored, with_cores, locked) =
      AreBlocks-get pool.doall_memory_sizes pool.doall_memory_availability pool.doall_memory i v
        f.free f.sized in
    record {
      unused = λ e. cc f.free;
      taken = get_elem?-set_hit pool.doall_memory_availability i false f.free;
      others = λ j h. get_elem?-set_ne pool.doall_memory_availability false (λ e. h (sym e));
      size = f.size;
      block = block;
      sized = f.sized;
      stored = stored;
      enough = f.enough;
      with_cores = with_cores;
      locked = locked;
    }

allocate-Handed :
    (garbage : Block) (cores : ℕ) (pool : ArgPool)
    → IsValid pool
    → Handed cores pool (allocate garbage cores pool) (length pool.doall_memory_availability)
unfolding allocate
allocate-Handed garbage cores pool v =
    let (e, f) =
      AreBlocks-lengths pool.doall_memory_sizes pool.doall_memory_availability pool.doall_memory
        v in
    record {
      unused = λ u. cc (get_elem?-length pool.doall_memory_availability);
      taken = get_elem?-append_last pool.doall_memory_availability false;
      others = λ j h. get_elem?-append_ne pool.doall_memory_availability false j h;
      size = cores;
      block = init_block garbage cores;
      sized = rw (← e) (get_elem?-append_last pool.doall_memory_sizes cores);
      stored = rw (← f) (get_elem?-append_last pool.doall_memory (init_block garbage cores));
      enough = omega arith;
      with_cores = λ i h. ground arith;
      locked = λ i h. ground arith;
    }

-- From a valid pool, `get_doall_args` hands out a block that nobody uses, large enough, with every
-- lock held; it marks that block alone as in use, and the pool stays valid.
pub get_doall_args-Handed :
    (garbage : Block) (cores : ℕ) (pool : ArgPool)
    → IsValid pool
    → Handed cores pool (get_doall_args garbage cores pool).0 (get_doall_args garbage cores pool).1
      × IsValid (get_doall_args garbage cores pool).0
unfolding get_doall_args allocate
get_doall_args-Handed garbage cores pool v =
    elim (Option-cases
      (find_block cores pool.doall_memory_availability pool.doall_memory_sizes 0)) [
        | inl missing ↦ rw missing (
          allocate-Handed garbage cores pool v,
          AreBlocks-append pool.doall_memory_sizes pool.doall_memory_availability pool.doall_memory
              cores (init_block garbage cores) v (λ i h. ground arith) (λ i h. ground arith),
        )
        | inr (j, hit) ↦
            let (k, at, f) =
              find_block_lem cores pool.doall_memory_availability pool.doall_memory_sizes 0 j hit in
            let same : j ≡ k = omega arith in
            rw (hit, same)
              (
                reuse-Handed cores pool k v f,
                AreBlocks-set-false pool.doall_memory_sizes pool.doall_memory_availability
                    pool.doall_memory k v,
              )
      ]

-- Giving back a block whose cores stand and whose locks are held keeps the pool valid, and leaves
-- the marks of the other blocks alone.
pub release_doall_args-IsValid :
    (i : ℕ) (block : Block) (pool : ArgPool)
    → IsValid pool
    → ((size : ℕ)
        → get_elem? pool.doall_memory_sizes i ≡ some size
        → HasCores size block × IsLocked size block)
    → IsValid (release_doall_args i (store_block i block pool))
      × ((j : ℕ)
          → j ≢ i
          → get_elem? (release_doall_args i (store_block i block pool)).doall_memory_availability j
            ≡ get_elem? pool.doall_memory_availability j)
unfolding release_doall_args store_block
release_doall_args-IsValid i block pool v h = (
  AreBlocks-set-true pool.doall_memory_sizes pool.doall_memory_availability pool.doall_memory i
      block v h,
  λ j ne. get_elem?-set_ne pool.doall_memory_availability true (λ e. ne (sym e)),
)
