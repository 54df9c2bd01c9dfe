-- ===== src/Dswp/Queues/Log.antt =====
-- The pipeline as the record of the requests that have built it.
pub mod Built
use gino.Base.{
  ℕ, ◌≡◌, ◌≢◌, ◌∙◌, sym, ap, inl, inr, true, List, [], ◌∷◌, none, some, contains, arith,
  Option-cases, Bool-cases, All, Any, All-map, Any-map, subst,
}
use gino.Dswp.Widths.{ProducerType, queue_size_to_index}
use gino.Dswp.Queues.{Pipeline, Request, find_queue, no_queues, register_queue, register_queues}
use gino.Dswp.Queues.Tracking.{Ends, get_ends}
use gino.Dswp.Queues.Registered.{
  Connects, Registers, KnownStart, register_queue-Registers, find_queue-found,
}

-- The requests of `register_queues`, last one first.
abbrev pub reversed_onto : List Request → List Request → List Request
reversed_onto log [] = log
reversed_onto log (r ∷ rs) = reversed_onto (r ∷ log) rs

pub All-reversed_onto :
    (P : Request → Type 0) (log requests : List Request)
    → All P (reversed_onto log requests)
    → All P log × All P requests
All-reversed_onto P log [] a = (a, tt)
All-reversed_onto P log (r ∷ rs) a =
    let rest = All-reversed_onto P (r ∷ log) rs a in (rest.0.1, (rest.0.0, rest.1))

pub All-onto :
    (P : Request → Type 0) (log requests : List Request)
    → All P log
    → All P requests
    → All P (reversed_onto log requests)
All-onto P log [] a b = a
All-onto P log (r ∷ rs) a b = All-onto P (r ∷ log) rs (b.0, a) b.1

module _ (type_of : ℕ → ProducerType) (id_of : ℕ → ℕ) where
  -- Queue `q` serves the request: the one stage pushes the producer's values to it, and the other stage
  -- pops from it.
  abbrev pub Serves : Pipeline → Request → ℕ → Type 0
  Serves p r q =
      (contains (p.stages r.from_task).push_value_queues q ≡ true)
      × (contains (p.stages r.to_task).pop_value_queues q ≡ true)
      × (contains ((p.stages r.from_task).producer_to_queues r.producer) q ≡ true)
      × ((e : Ends) × (get_ends p.queues q ≡ some e) × Connects type_of id_of r e)

  abbrev pub Pushed : Pipeline → ℕ → ℕ → Request → Type 0
  Pushed p t q r =
      (r.from_task ≡ t)
      × ((e : Ends) × (get_ends p.queues q ≡ some e) × (e.to_stage ≡ id_of r.to_task))

  abbrev pub Popped : Pipeline → ℕ → ℕ → Request → Type 0
  Popped p t q r =
      (r.to_task ≡ t)
      × ((e : Ends) × (get_ends p.queues q ≡ some e) × (e.from_stage ≡ id_of r.from_task))

  pub record Logs (p : Pipeline) (log : List Request) : Type 0 where
    pub start : KnownStart type_of id_of p
    pub unique :
        (t x q q' : ℕ) (e e' : Ends)
        → contains ((p.stages t).producer_to_queues x) q ≡ true
        → contains ((p.stages t).producer_to_queues x) q' ≡ true
        → get_ends p.queues q ≡ some e
        → get_ends p.queues q' ≡ some e'
        → e.to_stage ≡ e'.to_stage
        → q ≡ q'
    pub sizes :
        (q : ℕ) (e : Ends) → get_ends p.queues q ≡ some e → queue_size_to_index e.bit_length ≢ none
    pub served : All (λ r. (q : ℕ) × Serves p r q) log
    pub pushed :
        (t q : ℕ) → contains (p.stages t).push_value_queues q ≡ true → Any (Pushed p t q) log
    pub popped :
        (t q : ℕ) → contains (p.stages t).pop_value_queues q ≡ true → Any (Popped p t q) log

  pub no_queues-Logs : Logs no_queues []
  unfolding no_queues contains
  no_queues-Logs = record {
    start = λ t x q h. absurd (ground arith);
    unique = λ t x q q' e e' h h' g g' s. absurd (ground arith);
    sizes = λ q e h. absurd (ground arith);
    served = tt;
    pushed = λ t q h. absurd (ground arith);
    popped = λ t q h. absurd (ground arith);
  }

  module _ (p : Pipeline) (log : List Request) (r : Request) (i : ℕ) (after : Pipeline)
      (l : Logs p log) (reg : Registers type_of id_of p r i after) where
    pub served-kept : (s : Request) → ((q : ℕ) × Serves p s q) → (q : ℕ) × Serves after s q
    served-kept s (q, (push, pop, known, (e, here, c))) = (
      q,
      (
        ground (arith, reg.pushes s.from_task q),
        ground (arith, reg.pops s.to_task q),
        reg.known_kept s.from_task s.producer q known,
        (e, reg.ends_kept q e here, c),
      ),
    )

    pub served-new : (q : ℕ) × Serves after r q
    served-new = (
      i,
      (
        ground (arith, reg.pushes r.from_task i),
        ground (arith, reg.pops r.to_task i),
        reg.known_new,
        reg.connected,
      ),
    )

    -- A member of a set after the request is an old one, or the queue of the request.
    pub Pushed-kept :
        (t q : ℕ)
        → contains (after.stages t).push_value_queues q ≡ true
        → Any (Pushed after t q) (r ∷ log)
    Pushed-kept t q h = elim (Bool-cases (contains (p.stages t).push_value_queues q)) [
      | inl old ↦ inr (
          Any-map log (λ s x. (x.0, (x.1.0, reg.ends_kept q x.1.0 x.1.1, x.1.2)))
            (l.pushed t q old))
      | inr no_old ↦
          let here : (r.from_task ≡ t) × (i ≡ q) = ground (arith, reg.pushes t q) in
          inl (
            here.0,
            (
              reg.connected.0,
              subst (λ j. get_ends after.queues j ≡ some reg.connected.0) here.1 reg.connected.1,
              reg.connected.2.1,
            ),
          )
    ]

    pub Popped-kept :
        (t q : ℕ)
        → contains (after.stages t).pop_value_queues q ≡ true
        → Any (Popped after t q) (r ∷ log)
    Popped-kept t q h = elim (Bool-cases (contains (p.stages t).pop_value_queues q)) [
      | inl old ↦ inr (
          Any-map log (λ s x. (x.0, (x.1.0, reg.ends_kept q x.1.0 x.1.1, x.1.2)))
            (l.popped t q old))
      | inr no_old ↦
          let here : (r.to_task ≡ t) × (i ≡ q) = ground (arith, reg.pops t q) in
          inl (
            here.0,
            (
              reg.connected.0,
              subst (λ j. get_ends after.queues j ≡ some reg.connected.0) here.1 reg.connected.1,
              reg.connected.2.0,
            ),
          )
    ]

    pub start-kept : KnownStart type_of id_of after
    start-kept t x q h = elim (reg.known t x q h) [
      | inl (from, made, same) ↦ (
        reg.connected.0,
        subst (λ j. get_ends after.queues j ≡ some reg.connected.0) same reg.connected.1,
        reg.connected.2.0 ∙ ap id_of from,
      )
      | inr old ↦ let e = l.start t x q old in (e.0, reg.ends_kept q e.0 e.1, e.2)
    ]

    pub sizes-kept :
        (q : ℕ) (e : Ends)
        → get_ends after.queues q ≡ some e
        → queue_size_to_index e.bit_length ≢ none
    sizes-kept q e h = elim (reg.sizes q e h) [ inl old ↦ l.sizes q e old | inr size ↦ size ]
