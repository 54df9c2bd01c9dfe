-- ===== src/Dswp/Queues.antt =====
-- DSWP::registerQueue and DSWP::areQueuesAcyclical (src/core/dswp/src/Queue.cpp), over the structs
-- QueueInfo and DSWPTask (src/core/dswp/include/arcana/gino/core/DSWPTask.hpp). Stages are numbered by
-- their place in `tasks`, producers and consumers by any numbers.
pub mod Tracking
pub mod Registered
pub mod Log
pub mod Sharing
pub mod Acyclic
mod Tests
use gino.Base.{
  ℕ, zero, suc, ◌≡◌, Bool, true, false, not, ◌&&◌, List, [], ◌∷◌, ◌++◌, Option, none, some, length,
  get_elem?, set, update, leb, ◌==◌, if◌then◌else◌, set_insert,
}
use gino.Dswp.Widths.{ProducerType, get_bit_length, queue_size_to_index}

pub record QueueInfo : Type 0 where
  pub from_stage : ℕ
  pub to_stage : ℕ
  pub bit_length : ℕ
  pub is_memory_dependence : Bool
  pub producer : ℕ
  pub consumers : List ℕ

pub record Stage : Type 0 where
  pub producer_to_queues : ℕ → List ℕ
  pub produced_pop_queue : ℕ → Option ℕ
  pub push_value_queues : List ℕ
  pub pop_value_queues : List ℕ

pub record Pipeline : Type 0 where
  pub queues : List QueueInfo
  pub stages : ℕ → Stage

-- The arguments of registerQueue.
pub record Request : Type 0 where
  pub from_task : ℕ
  pub to_task : ℕ
  pub producer : ℕ
  pub consumer : ℕ
  pub is_memory_dependence : Bool

unfoldable pub no_queues : Pipeline
no_queues = record {
  queues = [];
  stages = λ t. record {
    producer_to_queues = λ x. [];
    produced_pop_queue = λ x. none;
    push_value_queues = [];
    pop_value_queues = [];
  };
}

-- The first of the queues `indices` that goes to the stage with the id `to`. Every index is one of
-- `queues`; one that is not would be skipped.
unfoldable pub find_queue : List QueueInfo → ℕ → List ℕ → Option ℕ
find_queue queues to [] = none
find_queue queues to (i ∷ indices) =
    let rest = find_queue queues to indices in
    elim (get_elem? queues i) [
      | none ↦ rest
      | some queue ↦ if queue.to_stage == to then some i else rest
    ]

-- The part of registerQueue that new and known queues share.
unfoldable pub track_stages : (ℕ → Stage) → Request → ℕ → ℕ → Stage
track_stages stages r i =
    let from : Stage = stages r.from_task in
    let pushing =
      update stages r.from_task
        (record from { push_value_queues = set_insert i from.push_value_queues }) in
    let to : Stage = pushing r.to_task in
    update pushing r.to_task (record to {
      pop_value_queues = set_insert i to.pop_value_queues;
      produced_pop_queue = update to.produced_pop_queue r.producer (some i);
    })

module _ (id_of : ℕ → ℕ) where
  unfoldable pub connect : Request → QueueInfo → QueueInfo
  connect r queue = record queue {
    consumers = set_insert r.consumer queue.consumers;
    from_stage = id_of r.from_task;
    to_stage = id_of r.to_task;
  }

  unfoldable pub track_queue : List QueueInfo → Request → ℕ → List QueueInfo
  track_queue queues r i = elim (get_elem? queues i) [
    | none ↦ queues
    | some queue ↦ set queues i (connect r queue)
  ]

  unfoldable pub track : Pipeline → Request → ℕ → Pipeline
  track p r i = record { queues = track_queue p.queues r i; stages = track_stages p.stages r i }

-- `type_of` is the LLVM type of a producer, `id_of` the id that NOELLE gives to a task.
module _ (type_of : ℕ → ProducerType) (id_of : ℕ → ℕ) where
  unfoldable pub make_queue_info : Request → QueueInfo
  make_queue_info r = record {
    from_stage = id_of r.from_task;
    to_stage = id_of r.to_task;
    bit_length = get_bit_length (type_of r.producer) r.is_memory_dependence;
    is_memory_dependence = r.is_memory_dependence;
    producer = r.producer;
    consumers = r.consumer ∷ [];
  }

  unfoldable pub add_queue : Pipeline → Request → Pipeline
  add_queue p r =
      let stage = p.stages r.from_task in
      record {
        queues = p.queues ++ make_queue_info r ∷ [];
        stages = update p.stages r.from_task (record stage {
          producer_to_queues =
              update stage.producer_to_queues r.producer
                (set_insert (length p.queues) (stage.producer_to_queues r.producer));
        });
      }

  -- None when the compiler aborts.
  unfoldable pub register_queue : Pipeline → Request → Option Pipeline
  register_queue p r =
      let known = (p.stages r.from_task).producer_to_queues r.producer in
      elim (find_queue p.queues (id_of r.to_task) known) [
        | some i ↦ some (track id_of p r i)
        | none ↦ elim (queue_size_to_index (make_queue_info r).bit_length) [
          | none ↦ none
          | some index ↦ some (track id_of (add_queue p r) r (length p.queues))
        ]
      ]

  -- The calls of collectDataAndMemoryQueueInfo and collectControlQueueInfo, one after the other.
  unfoldable pub register_queues : Pipeline → List Request → Option Pipeline
  register_queues p [] = some p
  register_queues p (r ∷ rs) = elim (register_queue p r) [
    | none ↦ none
    | some after ↦ register_queues after rs
  ]

-- The two loops over the queues of the stage at place `i`; a queue index is always in range.
unfoldable pub pushes_forward : List QueueInfo → ℕ → List ℕ → Bool
pushes_forward queues i [] = true
pushes_forward queues i (q ∷ qs) =
    let rest = pushes_forward queues i qs in
    elim (get_elem? queues q) [ none ↦ false | some queue ↦ not (leb queue.to_stage i) && rest ]

unfoldable pub pops_forward : List QueueInfo → ℕ → List ℕ → Bool
pops_forward queues i [] = true
pops_forward queues i (q ∷ qs) =
    let rest = pops_forward queues i qs in
    elim (get_elem? queues q) [ none ↦ false | some queue ↦ not (leb i queue.from_stage) && rest ]

-- The loop over the `left` stages from place `i` on.
unfoldable pub stages_forward : Pipeline → ℕ → ℕ → Bool
stages_forward p i zero = true
stages_forward p i (suc left) =
    pushes_forward p.queues i (p.stages i).push_value_queues
    && pops_forward p.queues i (p.stages i).pop_value_queues
    && stages_forward p (suc i) left

unfoldable pub are_queues_acyclical : ℕ → Pipeline → Bool
are_queues_acyclical num_tasks p = stages_forward p 0 num_tasks
