-- ===== src/Dswp/Queues/Log/Built.antt =====
-- Each registration keeps the record of the requests.
use gino.Base.{
  ℕ, ◌≡◌, ◌∙◌, sym, ap, inl, inr, true, List, [], ◌∷◌, some, contains, arith, Option-cases, All-map,
  subst,
}
use gino.Dswp.Widths.{ProducerType}
use gino.Dswp.Queues.{Pipeline, Request, find_queue, no_queues, register_queue, register_queues}
use gino.Dswp.Queues.Tracking.{Ends, get_ends}
use gino.Dswp.Queues.Registered.{Registers, register_queue-Registers, find_queue-found}
use gino.Dswp.Queues.Log.{
  Logs, no_queues-Logs, reversed_onto, start-kept, served-new, served-kept, Pushed-kept,
  Popped-kept, sizes-kept,
}

module _ (type_of : ℕ → ProducerType) (id_of : ℕ → ℕ) where
  module _ (p : Pipeline) (log : List Request) (r : Request) (i : ℕ) (after : Pipeline)
      (l : Logs type_of id_of p log) (reg : Registers type_of id_of p r i after) where
    module _
        (reused : (q : ℕ) (e : Ends)
          → contains ((p.stages r.from_task).producer_to_queues r.producer) q ≡ true
          → get_ends p.queues q ≡ some e
          → e.to_stage ≡ id_of r.to_task
          → find_queue p.queues
              (id_of r.to_task)
              ((p.stages r.from_task).producer_to_queues r.producer)
            ≡ some i) where
      -- The ends of a queue that was known before.
      old_ends :
          (t x q : ℕ) (e : Ends)
          → contains ((p.stages t).producer_to_queues x) q ≡ true
          → get_ends after.queues q ≡ some e
          → get_ends p.queues q ≡ some e
      old_ends t x q e known here =
          let old = l.start t x q known in cc (old.1, here, reg.ends_kept q old.0 old.1)

      -- A queue known before that could serve the request is the one that does.
      reused_same :
          (q : ℕ) (e : Ends)
          → contains ((p.stages r.from_task).producer_to_queues r.producer) q ≡ true
          → get_ends p.queues q ≡ some e
          → e.to_stage ≡ id_of r.to_task
          → i ≡ q
      reused_same q e known here to =
          let found =
            find_queue-found p.queues (id_of r.to_task)
              ((p.stages r.from_task).producer_to_queues r.producer) i (reused q e known here to) in
          l.unique r.from_task r.producer i q found.1.0 e found.0 known found.1.1 here
            (found.1.2 ∙ sym to)

      new_is_old :
          (t x q q' : ℕ) (e e' : Ends)
          → (r.from_task ≡ t) × (r.producer ≡ x) × (i ≡ q)
          → contains ((p.stages t).producer_to_queues x) q' ≡ true
          → get_ends after.queues q ≡ some e
          → get_ends after.queues q' ≡ some e'
          → e.to_stage ≡ e'.to_stage
          → q ≡ q'
      new_is_old t x q q' e e' (from, made, same) known here here' to =
          sym same
          ∙ reused_same q' e' (cc (known, from, made)) (old_ends t x q' e' known here')
              (sym to ∙ ap Ends.to_stage (same_ends same) ∙ reg.connected.2.1)
        where
          same_ends : i ≡ q → e ≡ reg.connected.0
          same_ends s = cc (s, here, reg.connected.1)

      step-Logs : Logs type_of id_of after (r ∷ log)
      step-Logs = record {
        start = start-kept type_of id_of p log r i after l reg;
        unique = λ t x q q' e e' h h' g g' to. elim (reg.known t x q h) [
          | inl new ↦ elim (reg.known t x q' h') [
            | inl new' ↦ sym new.2 ∙ new'.2
            | inr old' ↦ new_is_old t x q q' e e' new old' g g' to
          ]
          | inr old ↦ elim (reg.known t x q' h') [
            | inl new' ↦ sym (new_is_old t x q' q e' e new' old g' g (sym to))
            | inr old' ↦
                l.unique t x q q' e e' old old' (old_ends t x q e old g)
                  (old_ends t x q' e' old' g') to
          ]
        ];
        sizes = sizes-kept type_of id_of p log r i after l reg;
        served = (
          served-new type_of id_of p log r i after l reg,
          All-map log (served-kept type_of id_of p log r i after l reg) l.served,
        );
        pushed = Pushed-kept type_of id_of p log r i after l reg;
        popped = Popped-kept type_of id_of p log r i after l reg;
      }

  register_queues-Logs :
      (p : Pipeline) (log requests : List Request) (after : Pipeline)
      → Logs type_of id_of p log
      → register_queues type_of id_of p requests ≡ some after
      → Logs type_of id_of after (reversed_onto log requests)
  unfolding register_queues
  register_queues-Logs p log [] after l e = subst (λ x. Logs type_of id_of x log) (ground arith) l
  register_queues-Logs p log (r ∷ rs) after l e =
      elim (Option-cases (register_queue type_of id_of p r)) [
        | inl aborted ↦ absurd (ground arith)
        | inr (next, done) ↦
            let reg = register_queue-Registers type_of id_of p r next l.start done in
            register_queues-Logs next (r ∷ log) rs after
              (step-Logs p log r reg.0 next l reg.1 reg.2) (ground arith)
      ]

  pub built-Logs :
      (requests : List Request) (p : Pipeline)
      → register_queues type_of id_of no_queues requests ≡ some p
      → Logs type_of id_of p (reversed_onto [] requests)
  built-Logs requests p e =
      register_queues-Logs no_queues [] requests p (no_queues-Logs type_of id_of) e
