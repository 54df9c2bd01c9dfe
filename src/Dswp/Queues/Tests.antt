-- ===== src/Dswp/Queues/Tests.antt =====
-- The queues of a pipeline of three stages at concrete inputs.
use gino.Base.{
  ℕ, ◌<◌, ◌≡◌, refl, ◌↔◌, true, false, List, [], ◌∷◌, some, All, set_insert, arith, ℕ_discrete,
}
use gino.Dswp.Widths.{ProducerType, get_bit_length, round_up, double_until, queue_size_to_index}
use gino.Dswp.Queues.{
  Pipeline, Request, no_queues, register_queue, register_queues, find_queue, make_queue_info,
  add_queue, track, track_stages, track_queue, connect, are_queues_acyclical,
}
use gino.Dswp.Queues.Log.{Serves}
use gino.Dswp.Queues.Sharing.{register_queues-one_queue}
use gino.Dswp.Queues.Acyclic.{are_queues_acyclical_iff}

-- Every producer has 32 bits; the id of a stage is its place.
abbrev type_of : ℕ → ProducerType
type_of x = record { is_pointer = false; alloc_size = 4; primitive_size_in_bits = 32 }

abbrev id_of : ℕ → ℕ
id_of t = t

abbrev request : ℕ → ℕ → ℕ → ℕ → Request
request from to x y = record {
  from_task = from;
  to_task = to;
  producer = x;
  consumer = y;
  is_memory_dependence = false;
}

-- Stage 1 takes value 10 at two instructions, which share a queue.
abbrev requests : List Request
requests = request 0 1 10 20 ∷ request 0 1 10 21 ∷ request 1 2 20 30 ∷ []

abbrev built : (p : Pipeline) × (register_queues type_of id_of no_queues requests ≡ some p)
unfolding register_queues register_queue no_queues find_queue make_queue_info add_queue track
    track_stages track_queue connect get_bit_length round_up double_until queue_size_to_index
    set_insert ℕ_discrete
built = (_, refl)

register_queues-one_queue_example :
    All
      (λ r.
        (q : ℕ) × Serves type_of id_of built.0 r q
        × ((q' : ℕ) → Serves type_of id_of built.0 r q' → q ≡ q'))
      requests
register_queues-one_queue_example = register_queues-one_queue type_of id_of requests built.0 built.1

are_queues_acyclical_iff_example :
    (are_queues_acyclical 3 built.0 ≡ true)
    ↔ All (λ r. (r.from_task < r.to_task) × (r.from_task < r.to_task)) requests
are_queues_acyclical_iff_example =
    are_queues_acyclical_iff type_of id_of requests built.0 3 built.1
      ((omega arith, omega arith), ((omega arith, omega arith), ((omega arith, omega arith), tt)))
