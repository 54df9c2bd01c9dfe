-- ===== src/Dswp/Queues/Acyclic.antt =====
-- The test of DSWP::areQueuesAcyclical decides a property of the registrations.
use gino.Base.{
  ℕ, zero, suc, ◌+◌, ◌≤◌, ◌<◌, ◌≡◌, refl, ap, ◌↔◌, inl, inr, true, List, [], ◌∷◌, some, get_elem?,
  contains, subst, ℕ_discrete, arith, All, All-zip, All-Any, Option-cases,
}
use gino.Dswp.Widths.{ProducerType}
use gino.Dswp.Queues.{
  QueueInfo, Pipeline, Request, no_queues, register_queues, pushes_forward, pops_forward,
  stages_forward, are_queues_acyclical,
}
use gino.Dswp.Queues.Tracking.{Ends, ends_of, get_ends}
use gino.Dswp.Queues.Log.Built.{built-Logs}
use gino.Dswp.Queues.Log.{Serves, Logs, All-reversed_onto, All-onto, reversed_onto}

module _ (queues : List QueueInfo) (i : ℕ) where
  abbrev PushForward : ℕ → Type 0
  PushForward q = (e : Ends) × (get_ends queues q ≡ some e) × (i < e.to_stage)

  abbrev PopForward : ℕ → Type 0
  PopForward q = (e : Ends) × (get_ends queues q ≡ some e) × (e.from_stage < i)

  pushes_forward-member :
      (qs : List ℕ) (q : ℕ)
      → pushes_forward queues i qs ≡ true
      → contains qs q ≡ true
      → PushForward q
  unfolding pushes_forward contains
  pushes_forward-member [] q f h = absurd (ground arith)
  pushes_forward-member (k ∷ ks) q f h = elim (Option-cases (get_elem? queues k)) [
    | inl absent ↦ absurd (ground arith)
    | inr (queue, present) ↦ elim (ℕ_discrete k q) [
      | yes same ↦ (ends_of queue, ground arith, ground arith)
      | no other ↦ pushes_forward-member ks q (ground arith) (ground arith)
    ]
  ]

  pushes_forward-all :
      (qs : List ℕ)
      → ((q : ℕ) → contains qs q ≡ true → PushForward q)
      → pushes_forward queues i qs ≡ true
  unfolding pushes_forward contains
  pushes_forward-all [] h = refl
  pushes_forward-all (k ∷ ks) h =
      let rest = pushes_forward-all ks (λ q c. h q (ground arith)) in
      let first = h k (ground arith) in
      elim (Option-cases (get_elem? queues k)) [
        | inl absent ↦ absurd (ground (arith, first.1))
        | inr (queue, present) ↦ ground (arith, present, rest, first.1, first.2)
      ]

  pops_forward-member :
      (qs : List ℕ) (q : ℕ) → pops_forward queues i qs ≡ true → contains qs q ≡ true → PopForward q
  unfolding pops_forward contains
  pops_forward-member [] q f h = absurd (ground arith)
  pops_forward-member (k ∷ ks) q f h = elim (Option-cases (get_elem? queues k)) [
    | inl absent ↦ absurd (ground arith)
    | inr (queue, present) ↦ elim (ℕ_discrete k q) [
      | yes same ↦ (ends_of queue, ground arith, ground arith)
      | no other ↦ pops_forward-member ks q (ground arith) (ground arith)
    ]
  ]

  pops_forward-all :
      (qs : List ℕ)
      → ((q : ℕ) → contains qs q ≡ true → PopForward q)
      → pops_forward queues i qs ≡ true
  unfolding pops_forward contains
  pops_forward-all [] h = refl
  pops_forward-all (k ∷ ks) h =
      let rest = pops_forward-all ks (λ q c. h q (ground arith)) in
      let first = h k (ground arith) in
      elim (Option-cases (get_elem? queues k)) [
        | inl absent ↦ absurd (ground (arith, first.1))
        | inr (queue, present) ↦ ground (arith, present, rest, first.1, first.2)
      ]

-- What the loop over the stages finds.
module _ (p : Pipeline) where
  abbrev StageForward : ℕ → Type 0
  StageForward t =
      ((q : ℕ) → contains (p.stages t).push_value_queues q ≡ true → PushForward p.queues t q)
      × ((q : ℕ) → contains (p.stages t).pop_value_queues q ≡ true → PopForward p.queues t q)

  stages_forward-member :
      (i left t : ℕ) → stages_forward p i left ≡ true → i ≤ t → t < i + left → StageForward t
  unfolding stages_forward
  stages_forward-member i zero t f low high = absurd (ground arith)
  stages_forward-member i (suc left) t f low high = elim (ℕ_discrete i t) [
    | yes same ↦ subst StageForward same (
      λ q. pushes_forward-member p.queues i (p.stages i).push_value_queues q (ground arith),
      λ q. pops_forward-member p.queues i (p.stages i).pop_value_queues q (ground arith),
    )
    | no other ↦ stages_forward-member (suc i) left t (ground arith) (ground arith) (ground arith)
  ]

  stages_forward-all : (i left : ℕ) → ((t : ℕ) → StageForward t) → stages_forward p i left ≡ true
  unfolding stages_forward
  stages_forward-all i zero h = refl
  stages_forward-all i (suc left) h = ground (
    arith,
    pushes_forward-all p.queues i (p.stages i).push_value_queues (h i).0,
    pops_forward-all p.queues i (p.stages i).pop_value_queues (h i).1,
    stages_forward-all (suc i) left h,
  )

module _ (type_of : ℕ → ProducerType) (id_of : ℕ → ℕ) (requests : List Request) (p : Pipeline)
    (num_tasks : ℕ) (built : register_queues type_of id_of no_queues requests ≡ some p)
    (in_range : All (λ r. (r.from_task < num_tasks) × (r.to_task < num_tasks)) requests) where
  -- The request goes to a later stage, as far as comparing places in `tasks` with ids tells.
  abbrev pub GoesForward : Request → Type 0
  GoesForward r = (r.from_task < id_of r.to_task) × (id_of r.from_task < r.to_task)

  abbrev logged : Logs type_of id_of p (reversed_onto [] requests)
  logged = built-Logs type_of id_of requests p built

  acyclical→forward : are_queues_acyclical num_tasks p ≡ true → All GoesForward requests
  unfolding are_queues_acyclical
  acyclical→forward e =
      All-zip requests in_range
        (All-reversed_onto (λ r. (q : ℕ) × Serves type_of id_of p r q) [] requests logged.served).1
        (λ r b s.
          let from =
            (stages_forward-member p 0 num_tasks r.from_task e (omega arith) (omega (arith, b.0))).0
              s.0 s.1.0 in
          let to =
            (stages_forward-member p 0 num_tasks r.to_task e (omega arith) (omega (arith, b.1))).1
              s.0 s.1.1 in
          let ends = s.1.3 in
          (
            omega (arith, from.2, to_is from.0 ends.0 (cc (from.1, ends.1)), ends.2.1),
            omega (arith, to.2, from_is to.0 ends.0 (cc (to.1, ends.1)), ends.2.0),
          ))
    where
      to_is : (d e : Ends) → d ≡ e → d.to_stage ≡ e.to_stage
      to_is d e same = ap Ends.to_stage same

      from_is : (d e : Ends) → d ≡ e → d.from_stage ≡ e.from_stage
      from_is d e same = ap Ends.from_stage same

  forward→acyclical : All GoesForward requests → are_queues_acyclical num_tasks p ≡ true
  unfolding are_queues_acyclical
  forward→acyclical f =
      let all = All-onto GoesForward [] requests tt f in
      stages_forward-all p 0 num_tasks (λ t. (
        λ q c.
            let (r, forward, (from, (e, here, to))) =
              All-Any (reversed_onto [] requests) all (logged.pushed t q c) in
            (e, here, omega (arith, forward.0, from, to)),
        λ q c.
            let (r, forward, (to, (e, here, from))) =
              All-Any (reversed_onto [] requests) all (logged.popped t q c) in
            (e, here, omega (arith, forward.1, from, to)),
      ))

  -- For a pipeline that the compiler has built, the test answers true exactly when every request goes
  -- forward: the place of its first stage is below the id of the second, and the id of the first below
  -- the place of the second. With ids that are the places, no queue leads to the same or an earlier
  -- stage.
  pub are_queues_acyclical_iff :
      (are_queues_acyclical num_tasks p ≡ true) ↔ All GoesForward requests
  are_queues_acyclical_iff = (acyclical→forward, forward→acyclical)
