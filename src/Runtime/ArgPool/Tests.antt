-- ===== src/Runtime/ArgPool/Tests.antt =====
-- The pool of argument blocks at concrete inputs: two blocks, the second one available.
use gino.Base.{◌≡◌, refl, true, false, [], ◌∷◌}
use gino.Runtime.ArgPool.{Block, ArgPool, find_block, take_block, get_doall_args}
use gino.Runtime.ArgPool.Blocks.{IsValid}
use gino.Runtime.ArgPool.Sharing.{Handed, get_doall_args-Handed}

abbrev locked_block : Block
locked_block i = record {
  parallelized_loop = 0;
  env = 0;
  core_id = i;
  num_cores = 0;
  chunk_size = 0;
  end_lock = true;
}

abbrev two_blocks : ArgPool
two_blocks = record {
  doall_memory_sizes = 3 ∷ 8 ∷ [];
  doall_memory_availability = false ∷ true ∷ [];
  doall_memory = locked_block ∷ locked_block ∷ [];
}

two_blocks-IsValid : IsValid two_blocks
two_blocks-IsValid = (λ i h. refl, λ e i h. refl, (λ i h. refl, λ e i h. refl, tt))

-- The second block is used again for 5 cores; for 9 cores a third one is made.
second_block : (get_doall_args locked_block 5 two_blocks).1 ≡ 1
unfolding get_doall_args take_block find_block
second_block = refl

third_block : (get_doall_args locked_block 9 two_blocks).1 ≡ 2
unfolding get_doall_args take_block find_block
third_block = refl

get_doall_args-Handed_example :
    Handed 5 two_blocks
      (get_doall_args locked_block 5 two_blocks).0
      (get_doall_args locked_block 5 two_blocks).1
    × IsValid (get_doall_args locked_block 5 two_blocks).0
get_doall_args-Handed_example = get_doall_args-Handed locked_block 5 two_blocks two_blocks-IsValid
