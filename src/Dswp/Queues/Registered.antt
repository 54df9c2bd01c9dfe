-- ===== src/Dswp/Queues/Registered.antt =====
-- What a call of registerQueue that returns has done to the pipeline, in either of its two cases.
use gino.Base.{
  ℕ, ◌≡◌, ◌≢◌, refl, subst, ◌∙◌, sym, ap, ◌⊎◌, inl, inr, true, ◌&&◌, ◌||◌, List, [], ◌∷◌, none,
  some, length, get_elem?, ◌==◌, contains, arith, ℕ_discrete, Option-cases, Bool-cases,
}
use gino.Dswp.Widths.{ProducerType, queue_size_to_index}
use gino.Dswp.Queues.{
  QueueInfo, Pipeline, Request, find_queue, make_queue_info, add_queue, track_queue, track,
  register_queue,
}
use gino.Dswp.Queues.Tracking.{
  Ends, ends_of, get_ends, pushes-track_stages, pops-track_stages, known-track_stages,
  known-add_queue, pushes-add_queue, pops-add_queue, track_queue-ends, add_queue-ends,
  add_queue-new, add_queue-ends_inv,
}

pub find_queue-found :
    (queues : List QueueInfo) (to : ℕ) (known : List ℕ) (i : ℕ)
    → find_queue queues to known ≡ some i
    → (contains known i ≡ true) × ((e : Ends) × (get_ends queues i ≡ some e) × (e.to_stage ≡ to))
unfolding find_queue contains
find_queue-found queues to [] i f = cc
find_queue-found queues to (k ∷ ks) i f = elim (Option-cases (get_elem? queues k)) [
  | inl absent ↦ ground (arith, absent, find_queue-found queues to ks i)
  | inr (queue, present) ↦ elim (Bool-cases (queue.to_stage == to)) [
    | inl hit ↦ (ground arith, (ends_of queue, ground arith, ground arith))
    | inr miss ↦ ground (arith, present, miss, find_queue-found queues to ks i)
  ]
]

pub find_queue-none :
    (queues : List QueueInfo) (to : ℕ) (known : List ℕ) (q : ℕ) (e : Ends)
    → find_queue queues to known ≡ none
    → contains known q ≡ true
    → get_ends queues q ≡ some e
    → e.to_stage ≢ to
unfolding find_queue contains
find_queue-none queues to [] q e f h g = absurd (ground arith)
find_queue-none queues to (k ∷ ks) q e f h g = elim (ℕ_discrete k q) [
  | yes same ↦ λ to_it. ground (arith, same, g, f, to_it)
  | no other ↦ find_queue-none queues to ks q e (ground arith) (ground arith) g
]

module _ (type_of : ℕ → ProducerType) (id_of : ℕ → ℕ) where
  abbrev pub Connects : Request → Ends → Type 0
  Connects r e = (e.from_stage ≡ id_of r.from_task) × (e.to_stage ≡ id_of r.to_task)

  -- `p` becomes `after` by the request, which queue `i` serves.
  pub record Registers (p : Pipeline) (r : Request) (i : ℕ) (after : Pipeline) : Type 0 where
    pub ends_kept :
        (q : ℕ) (e : Ends) → get_ends p.queues q ≡ some e → get_ends after.queues q ≡ some e
    pub connected : (e : Ends) × (get_ends after.queues i ≡ some e) × Connects r e
    pub pushes :
        (t q : ℕ)
        → contains (after.stages t).push_value_queues q
          ≡ ((r.from_task == t && i == q) || contains (p.stages t).push_value_queues q)
    pub pops :
        (t q : ℕ)
        → contains (after.stages t).pop_value_queues q
          ≡ ((r.to_task == t && i == q) || contains (p.stages t).pop_value_queues q)
    pub known :
        (t x q : ℕ)
        → contains ((after.stages t).producer_to_queues x) q ≡ true
        → ((r.from_task ≡ t) × (r.producer ≡ x) × (i ≡ q))
          ⊎ (contains ((p.stages t).producer_to_queues x) q ≡ true)
    pub known_kept :
        (t x q : ℕ)
        → contains ((p.stages t).producer_to_queues x) q ≡ true
        → contains ((after.stages t).producer_to_queues x) q ≡ true
    pub known_new : contains ((after.stages r.from_task).producer_to_queues r.producer) i ≡ true
    pub sizes :
        (q : ℕ) (e : Ends)
        → get_ends after.queues q ≡ some e
        → (get_ends p.queues q ≡ some e) ⊎ (queue_size_to_index e.bit_length ≢ none)

  -- Every known queue of a stage starts there.
  abbrev pub KnownStart : Pipeline → Type 0
  KnownStart p =
      (t x q : ℕ)
      → contains ((p.stages t).producer_to_queues x) q ≡ true
      → (e : Ends) × (get_ends p.queues q ≡ some e) × (e.from_stage ≡ id_of t)

  known-Registers :
      (p : Pipeline) (r : Request) (i : ℕ)
      → KnownStart p
      → find_queue p.queues (id_of r.to_task) ((p.stages r.from_task).producer_to_queues r.producer)
        ≡ some i
      → Registers p r i (track id_of p r i)
  unfolding track
  known-Registers p r i start found =
      let hit =
        find_queue-found p.queues (id_of r.to_task)
          ((p.stages r.from_task).producer_to_queues r.producer) i found in
      let known_start = start r.from_task r.producer i hit.0 in
      let from : hit.1.0.from_stage ≡ id_of r.from_task =
        cc (hit.1.1, known_start.1, known_start.2) in
      let kept : (q : ℕ) → get_ends (track_queue id_of p.queues r i) q ≡ get_ends p.queues q =
        λ q. track_queue-ends id_of p.queues r i q hit.1.0 hit.1.1 from hit.1.2 in
      record {
        ends_kept = λ q e h. kept q ∙ h;
        connected = (hit.1.0, kept i ∙ hit.1.1, (from, hit.1.2));
        pushes = λ t q. pushes-track_stages p.stages r i t q;
        pops = λ t q. pops-track_stages p.stages r i t q;
        known = λ t x q h. inr (rw (sym (known-track_stages p.stages r i t q x)) h);
        known_kept = λ t x q h. rw (known-track_stages p.stages r i t q x) h;
        known_new = rw (known-track_stages p.stages r i r.from_task i r.producer) hit.0;
        sizes = λ q e h. inl (sym (kept q) ∙ h);
      }

  new-Registers :
      (p : Pipeline) (r : Request)
      → queue_size_to_index (make_queue_info type_of id_of r).bit_length ≢ none
      → Registers p r
          (length p.queues)
          (track id_of (add_queue type_of id_of p r) r (length p.queues))
  unfolding track make_queue_info
  new-Registers p r supported =
      let added = add_queue type_of id_of p r in
      let fresh = add_queue-new type_of id_of p r in
      let e = ends_of (make_queue_info type_of id_of r) in
      let kept : (q : ℕ)
          → get_ends (track_queue id_of added.queues r (length p.queues)) q
            ≡ get_ends added.queues q =
        λ q. track_queue-ends id_of added.queues r (length p.queues) q e fresh refl refl in
      record {
        ends_kept = λ q f h. kept q ∙ add_queue-ends type_of id_of p r q f h;
        connected = (e, kept (length p.queues) ∙ fresh, (refl, refl));
        pushes = λ t q.
            pushes-track_stages added.stages r (length p.queues) t q
            ∙ rw (pushes-add_queue type_of id_of p r t q) refl;
        pops = λ t q.
            pops-track_stages added.stages r (length p.queues) t q
            ∙ rw (pops-add_queue type_of id_of p r t q) refl;
        known = λ t x q h. ground (
          arith,
          known-track_stages added.stages r (length p.queues) t q x,
          known-add_queue type_of id_of p r t q x,
        );
        known_kept = λ t x q h. ground (
          arith,
          known-track_stages added.stages r (length p.queues) t q x,
          known-add_queue type_of id_of p r t q x,
        );
        known_new = ground (
          arith,
          known-track_stages added.stages r (length p.queues) r.from_task (length p.queues)
              r.producer,
          known-add_queue type_of id_of p r r.from_task (length p.queues) r.producer,
        );
        sizes = λ q f h. elim (add_queue-ends_inv type_of id_of p r q f (sym (kept q) ∙ h)) [
          | inl old ↦ inl old
          | inr size ↦ inr (λ none_is. supported (ap queue_size_to_index (sym size) ∙ none_is))
        ];
      }

  -- Each call that returns registers its request with some queue, and never one more queue than
  -- needed: a known queue to the same stage is the one used.
  pub register_queue-Registers :
      (p : Pipeline) (r : Request) (after : Pipeline)
      → KnownStart p
      → register_queue type_of id_of p r ≡ some after
      → (i : ℕ) × Registers p r i after
        × ((q : ℕ) (e : Ends)
            → contains ((p.stages r.from_task).producer_to_queues r.producer) q ≡ true
            → get_ends p.queues q ≡ some e
            → e.to_stage ≡ id_of r.to_task
            → find_queue p.queues
                (id_of r.to_task)
                ((p.stages r.from_task).producer_to_queues r.producer)
              ≡ some i)
  unfolding register_queue
  register_queue-Registers p r after start done =
      let found =
        find_queue p.queues (id_of r.to_task)
          ((p.stages r.from_task).producer_to_queues r.producer) in
      elim (Option-cases found) [
        | inr (i, hit) ↦ (
          i,
          subst (Registers p r i) (ground arith) (known-Registers p r i start hit),
          λ q e a b c. hit,
        )
        | inl miss ↦
            elim (Option-cases (queue_size_to_index (make_queue_info type_of id_of r).bit_length)) [
              | inl unsupported ↦ absurd (ground arith)
              | inr (index, supported) ↦ (
                length p.queues,
                subst (Registers p r (length p.queues)) (ground arith)
                    (new-Registers p r (λ e. ground arith)),
                λ q e a b c. absurd (
                    find_queue-none p.queues (id_of r.to_task)
                      ((p.stages r.from_task).producer_to_queues r.producer) q e miss a b c),
              )
            ]
      ]
