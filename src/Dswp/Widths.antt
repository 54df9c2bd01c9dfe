-- ===== src/Dswp/Widths.antt =====
-- Sizes of the queues between pipeline stages: QueueInfo (src/core/dswp/include/arcana/gino/core/
-- DSWPTask.hpp), the table of Parallelizer::collectThreadPoolHelperFunctionsAndTypes
-- (src/core/parallelizer/src/Helper.cpp), and the two switches of NOELLE_DSWPDispatcher
-- (src/core/runtime/Parallelizer_utils.cpp).
pub mod Agreement
mod Tests
use gino.Base.{
  ℕ, zero, suc, ◌*◌, ◌==◌, Bool, true, false, List, [], ◌∷◌, Option, none, some, leb, if◌then◌else◌,
}

-- What LLVM tells of the type of a producer.
pub record ProducerType : Type 0 where
  pub is_pointer : Bool
  pub alloc_size : ℕ
  pub primitive_size_in_bits : ℕ

-- The least of p, 2 p, 4 p, ... that is at least n, when `fuel` doublings reach it.
unfoldable pub double_until : ℕ → ℕ → ℕ → ℕ
double_until zero p n = p
double_until (suc fuel) p n = let more = double_until fuel (2 * p) n in if leb n p then p else more

-- `pow(2, ceil(log2(n)))`, where 2 to the power of `log2(0)`, minus infinity, is 0.
unfoldable pub round_up : ℕ → ℕ
unfolding double_until
round_up zero = 0
round_up (suc n) = double_until (suc n) 1 (suc n)

unfoldable pub get_bit_length : ProducerType → Bool → ℕ
unfolding round_up
get_bit_length t is_memory_dependence =
    if is_memory_dependence
    then 1
    else if t.is_pointer
    then t.alloc_size * 8
    else round_up t.primitive_size_in_bits

-- The table of the compiler from the sizes that it supports to the functions and types below.
unfoldable pub queue_size_to_index : ℕ → Option ℕ
queue_size_to_index size =
    if size == 1
    then some 0
    else if size == 8
    then some 0
    else if size == 16
    then some 1
    else if size == 32
    then some 2
    else if size == 64
    then some 3
    else none

-- Bits that queuePush8 to queuePush64, and queuePop8 to queuePop64, move, in the order of the table.
pub queue_pushes : List ℕ
queue_pushes = 8 ∷ 16 ∷ 32 ∷ 64 ∷ []

pub queue_pops : List ℕ
queue_pops = 8 ∷ 16 ∷ 32 ∷ 64 ∷ []

pub queue_element_types : List ℕ
queue_element_types = 8 ∷ 16 ∷ 32 ∷ 64 ∷ []

-- The element bits of the queue that the dispatcher allocates; it aborts on any other size.
unfoldable pub new_queue : ℕ → Option ℕ
new_queue size =
    if size == 1
    then some 8
    else if size == 8
    then some 8
    else if size == 16
    then some 16
    else if size == 32
    then some 32
    else if size == 64
    then some 64
    else none

-- The element bits of the queue type that the dispatcher deletes the queue as; it skips any other size.
unfoldable pub delete_queue : ℕ → Option ℕ
delete_queue size =
    if size == 1
    then some 8
    else if size == 8
    then some 8
    else if size == 16
    then some 16
    else if size == 32
    then some 32
    else if size == 64
    then some 64
    else none

-- The loop of the dispatcher that allocates the queues.
unfoldable pub new_queues : List ℕ → Option (List ℕ)
new_queues [] = some []
new_queues (size ∷ sizes) = elim (new_queue size) [
  | none ↦ none
  | some queue ↦ elim (new_queues sizes) [ none ↦ none | some queues ↦ some (queue ∷ queues) ]
]
