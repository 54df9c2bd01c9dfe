-- ===== src/Dswp/Queues/Sharing.antt =====
-- The queues that the registrations of a pipeline end with.
use gino.Base.{
  ℕ, suc, ◌≡◌, ◌≢◌, refl, ◌∙◌, sym, List, [], ◌∷◌, map, none, some, get_elem?, All, All-map,
}
use gino.Dswp.Widths.{ProducerType, queue_size_to_index, new_queues}
use gino.Dswp.Widths.Agreement.{new_queues-supported}
use gino.Dswp.Queues.{QueueInfo, Pipeline, Request, no_queues, register_queues}
use gino.Dswp.Queues.Tracking.{ends_of, get_ends}
use gino.Dswp.Queues.Log.Built.{built-Logs}
use gino.Dswp.Queues.Log.{Serves, All-reversed_onto}

All-get_elem? :
    {P : QueueInfo → Type 0} (queues : List QueueInfo)
    → ((q : ℕ) (x : QueueInfo) → get_elem? queues q ≡ some x → P x)
    → All P queues
All-get_elem? [] h = tt
All-get_elem? (x ∷ xs) h = (h 0 x refl, All-get_elem? xs (λ q. h (suc q)))

All-sizes :
    (queues : List QueueInfo)
    → All (λ queue. queue_size_to_index queue.bit_length ≢ none) queues
    → All (λ size. queue_size_to_index size ≢ none) (map QueueInfo.bit_length queues)
All-sizes [] a = tt
All-sizes (x ∷ xs) a = (a.0, All-sizes xs a.1)

module _ (type_of : ℕ → ProducerType) (id_of : ℕ → ℕ) (requests : List Request) (p : Pipeline)
    (built : register_queues type_of id_of no_queues requests ≡ some p) where
  -- Whatever queues are requested, when the compiler does not abort, each request is served by exactly
  -- one queue: the stage of the producer pushes to it for this producer, the other stage pops from it,
  -- and it records the ids of the two stages. So two requests for the same producer and the same two
  -- stages share a queue.
  pub register_queues-one_queue :
      All
        (λ r.
          (q : ℕ) × Serves type_of id_of p r q × ((q' : ℕ) → Serves type_of id_of p r q' → q ≡ q'))
        requests
  register_queues-one_queue =
      let l = built-Logs type_of id_of requests p built in
      All-map requests
        (λ r s. (
          s.0,
          s.1,
          λ q' s'.
              l.unique r.from_task r.producer s.0 q' s.1.3.0 s'.3.0 s.1.2 s'.2 s.1.3.1 s'.3.1
                (s.1.3.2.1 ∙ sym s'.3.2.1),
        ))
        (All-reversed_onto (λ r. (q : ℕ) × Serves type_of id_of p r q) [] requests l.served).1

  -- The dispatcher can allocate every queue of a pipeline that the compiler has built: it does not
  -- abort.
  pub register_queues-allocated : new_queues (map QueueInfo.bit_length p.queues) ≢ none
  register_queues-allocated =
      let l = built-Logs type_of id_of requests p built in
      new_queues-supported (map QueueInfo.bit_length p.queues) (
        All-sizes p.queues
          (All-get_elem? p.queues (λ q x here. l.sizes q (ends_of x) (rw (here, get_ends) refl))))
