-- ===== src/Dswp/Queues/Tracking.antt =====
-- What one registration changes in the sets of the stages and in the ends of the queues.
use gino.Base.{
  ℕ, ◌≡◌, ◌≢◌, refl, ◌∙◌, sym, ◌⊎◌, inl, inr, ◌&&◌, ◌||◌, List, Option, none, some, length,
  get_elem?, ◌==◌, Option-cases, contains, contains-set_insert, arith, ℕ_discrete,
  get_elem?-set_hit, get_elem?-set_ne, get_elem?-append_last, get_elem?-append_ne, get_elem?-length,
}
use gino.Dswp.Widths.{ProducerType}
use gino.Dswp.Queues.{
  QueueInfo, Stage, Pipeline, Request, make_queue_info, add_queue, track_stages, connect,
  track_queue,
}

module _ (stages : ℕ → Stage) (r : Request) (i t q : ℕ) where
  pub pushes-track_stages :
      contains (track_stages stages r i t).push_value_queues q
      ≡ ((r.from_task == t && i == q) || contains (stages t).push_value_queues q)
  unfolding track_stages
  pushes-track_stages = ground (arith, contains-set_insert i (stages t).push_value_queues q)

  pub pops-track_stages :
      contains (track_stages stages r i t).pop_value_queues q
      ≡ ((r.to_task == t && i == q) || contains (stages t).pop_value_queues q)
  unfolding track_stages
  pops-track_stages = ground (arith, contains-set_insert i (stages t).pop_value_queues q)

  pub known-track_stages :
      (x : ℕ) → (track_stages stages r i t).producer_to_queues x ≡ (stages t).producer_to_queues x
  unfolding track_stages
  known-track_stages x = ground arith

module _ (type_of : ℕ → ProducerType) (id_of : ℕ → ℕ) (p : Pipeline) (r : Request) (t q : ℕ) where
  pub known-add_queue :
      (x : ℕ)
      → contains (((add_queue type_of id_of p r).stages t).producer_to_queues x) q ≡ (
          (r.from_task == t && r.producer == x && length p.queues == q)
          || contains ((p.stages t).producer_to_queues x) q)
  unfolding add_queue
  known-add_queue x =
      ground (arith, contains-set_insert (length p.queues) ((p.stages t).producer_to_queues x) q)

  pub pushes-add_queue :
      ((add_queue type_of id_of p r).stages t).push_value_queues ≡ (p.stages t).push_value_queues
  unfolding add_queue
  pushes-add_queue = ground arith

  pub pops-add_queue :
      ((add_queue type_of id_of p r).stages t).pop_value_queues ≡ (p.stages t).pop_value_queues
  unfolding add_queue
  pops-add_queue = ground arith

-- The fields of a queue that the properties speak of.
pub record Ends : Type 0 where
  pub from_stage : ℕ
  pub to_stage : ℕ
  pub bit_length : ℕ

abbrev pub ends_of : QueueInfo → Ends
ends_of queue = record {
  from_stage = queue.from_stage;
  to_stage = queue.to_stage;
  bit_length = queue.bit_length;
}

abbrev pub get_ends : List QueueInfo → ℕ → Option Ends
get_ends queues q = elim (get_elem? queues q) [ none ↦ none | some queue ↦ some (ends_of queue) ]

module _ (id_of : ℕ → ℕ) (queues : List QueueInfo) (r : Request) where
  -- A queue that connects the two stages already keeps its ends, and so do all others.
  pub track_queue-ends :
      (i q : ℕ) (e : Ends)
      → get_ends queues i ≡ some e
      → e.from_stage ≡ id_of r.from_task
      → e.to_stage ≡ id_of r.to_task
      → get_ends (track_queue id_of queues r i) q ≡ get_ends queues q
  unfolding track_queue connect
  track_queue-ends i q e here from to = elim (Option-cases (get_elem? queues i)) [
    | inl absent ↦ rw (absent, track_queue) refl
    | inr (queue, present) ↦
        rw (present, track_queue)
          (elim (ℕ_discrete i q) [
            | yes same ↦
                ground (arith, same, get_elem?-set_hit queues i (connect id_of r queue) present)
            | no other ↦ rw (get_elem?-set_ne queues (connect id_of r queue) other, get_ends) refl
          ])
  ]

module _ (type_of : ℕ → ProducerType) (id_of : ℕ → ℕ) (p : Pipeline) (r : Request) where
  pub add_queue-ends :
      (q : ℕ) (e : Ends)
      → get_ends p.queues q ≡ some e
      → get_ends (add_queue type_of id_of p r).queues q ≡ some e
  unfolding add_queue
  add_queue-ends q e here = elim (ℕ_discrete q (length p.queues)) [
    | yes last ↦ absurd (ground (arith, get_elem?-length p.queues))
    | no inside ↦
        rw (get_elem?-append_ne p.queues (make_queue_info type_of id_of r) q inside, get_ends) here
  ]

  pub add_queue-new :
      get_ends (add_queue type_of id_of p r).queues (length p.queues)
      ≡ some (ends_of (make_queue_info type_of id_of r))
  unfolding add_queue
  add_queue-new =
      rw (get_elem?-append_last p.queues (make_queue_info type_of id_of r), get_ends) refl

  add_queue-ends_ne :
      (q : ℕ)
      → q ≢ length p.queues
      → get_ends (add_queue type_of id_of p r).queues q ≡ get_ends p.queues q
  unfolding add_queue
  add_queue-ends_ne q inside =
      rw (get_elem?-append_ne p.queues (make_queue_info type_of id_of r) q inside, get_ends) refl

  pub add_queue-ends_inv :
      (q : ℕ) (e : Ends)
      → get_ends (add_queue type_of id_of p r).queues q ≡ some e
      → (get_ends p.queues q ≡ some e)
        ⊎ (e.bit_length ≡ (make_queue_info type_of id_of r).bit_length)
  add_queue-ends_inv q e here = elim (ℕ_discrete q (length p.queues)) [
    | yes last ↦ inr (cc (here, last, add_queue-new))
    | no inside ↦ inl (sym (add_queue-ends_ne q inside) ∙ here)
  ]
