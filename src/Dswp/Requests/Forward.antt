-- ===== src/Dswp/Requests/Forward.antt =====
-- What all queues requested for data satisfy: a predicate on their stages holds for all exactly when it
-- holds for all dependences between the stages.
use gino.Base.{
  ℕ, ◌≡◌, refl, ◌↔◌, Bool, true, false, not, ◌&&◌, Option, some, none, List, [], ◌∷◌, ◌++◌, All,
  All-append, arith, Option-cases, Bool-cases, inl, inr, subst, sym, ◌==◌,
}
use gino.Dswp.Queues.{Request}
use gino.Dswp.Requests.{
  InstructionEdge, control_edge, memory_edge, data_edge, SccEdge, both_requests, request_queue,
  request_queues, request_edge, request_edges, request_sccs, collect_data_and_memory_queue_info,
}

-- Whether a queue is needed for a value.
abbrev pub has_data : List InstructionEdge → Bool
has_data [] = false
has_data (data_edge x y ∷ edges) = true
has_data (control_edge ∷ edges) = has_data edges
has_data (memory_edge x y ∷ edges) = has_data edges

-- A value flows over the edge from another stage.
abbrev pub crosses : (ℕ → Bool) → (ℕ → ℕ) → ℕ → SccEdge → Bool
crosses can_be_cloned scc_to_stage to e =
    not (can_be_cloned e.from_scc) && (not (scc_to_stage e.from_scc == to) && has_data e.sub_edges)

pub All-split :
    {A : Type 0} (P : A → Type 0) (xs ys : List A) → All P (xs ++ ys) → All P xs × All P ys
All-split P [] ys a = (tt, a)
All-split P (x ∷ xs) ys a = let (b, c) = All-split P xs ys a.1 in ((a.0, b), c)

module _ (P : ℕ → ℕ → Type 0) where
  abbrev pub Between : Request → Type 0
  Between r = P r.from_task r.to_task

  -- All requests of a part satisfy the predicate exactly under a condition.
  abbrev pub Means : Option (List Request) → Type 0 → Type 0
  Means part C = (rs : List Request) → part ≡ some rs → All Between rs ↔ C

  pub none-Means : (C : Type 0) → Means none C
  none-Means C rs e = absurd (ground arith)

  pub empty-Means : (C : Type 0) → C → Means (some []) C
  empty-Means C c rs e = let same : [] ≡ rs = cc e in (λ a. c, λ _. subst (All Between) same tt)

  pub both_requests-Means :
      (first rest : Option (List Request)) (C D : Type 0)
      → Means first C
      → Means rest D
      → Means (both_requests first rest) (C × D)
  unfolding both_requests
  both_requests-Means first rest C D c d rs e = elim (Option-cases first) [
    | inl failed ↦ absurd (ground (arith, failed))
    | inr (xs, made) ↦ elim (Option-cases rest) [
      | inl failed ↦ absurd (ground (arith, made, failed))
      | inr (ys, left) ↦
          let same : xs ++ ys ≡ rs = ground (arith, made, left) in
          (
            λ a.
                let (b, b') = All-split Between xs ys (subst (All Between) (sym same) a) in
                ((c xs made).0 b, (d ys left).0 b'),
            λ h.
                subst (All Between) same
                  (All-append Between xs ys ((c xs made).1 h.0) ((d ys left).1 h.1)),
          )
    ]
  ]

  pub change-Means :
      (part : Option (List Request)) (C D : Type 0) → Means part C → (C ↔ D) → Means part D
  change-Means part C D c f rs e = (λ a. f.0 ((c rs e).0 a), λ d. (c rs e).1 (f.1 d))

  data-Means : (from to x y : ℕ) → Means (request_queue from to (data_edge x y)) (P from to)
  unfolding request_queue
  data-Means from to x y rs e =
      let one : Request = record {
        from_task = from;
        to_task = to;
        producer = x;
        consumer = y;
        is_memory_dependence = false;
      } in
      let same : one ∷ [] ≡ rs = cc e in
      (λ a. (subst (All Between) (sym same) a).0, λ p. subst (All Between) same (p, tt))

  request_queues-Means :
      (from to : ℕ) (edges : List InstructionEdge)
      → Means (request_queues from to edges) (has_data edges ≡ true → P from to)
  unfolding request_queues request_queue
  request_queues-Means from to [] = empty-Means _ (λ h. absurd (ground arith))
  request_queues-Means from to (control_edge ∷ edges) =
      change-Means _ _ _
        (both_requests-Means (request_queue from to control_edge) (request_queues from to edges)
          Unit (has_data edges ≡ true → P from to) (empty-Means Unit tt)
          (request_queues-Means from to edges))
        (λ h. h.1, λ h. (tt, h))
  request_queues-Means from to (memory_edge x y ∷ edges) =
      change-Means _ _ _
        (both_requests-Means none (request_queues from to edges) (has_data edges ≡ true → P from to)
          (has_data edges ≡ true → P from to) (none-Means _) (request_queues-Means from to edges))
        (λ h. h.1, λ h. (h, h))
  request_queues-Means from to (data_edge x y ∷ edges) =
      change-Means _ _ _
        (both_requests-Means (request_queue from to (data_edge x y)) (request_queues from to edges)
          (P from to) (has_data edges ≡ true → P from to) (data-Means from to x y)
          (request_queues-Means from to edges))
        (λ h e. h.0, λ h. (h refl, λ e. h refl))

  module _ (can_be_cloned : ℕ → Bool) (scc_to_stage : ℕ → ℕ) where
    abbrev pub EdgeMeans : ℕ → SccEdge → Type 0
    EdgeMeans to e = crosses can_be_cloned scc_to_stage to e ≡ true → P (scc_to_stage e.from_scc) to

    request_edge-Means :
        (to : ℕ) (e : SccEdge)
        → Means (request_edge can_be_cloned scc_to_stage to e) (EdgeMeans to e)
    unfolding request_edge
    request_edge-Means to e = elim (Bool-cases (can_be_cloned e.from_scc)) [
      | inl cloned ↦
          rw (cloned, request_edge) (empty-Means _ (λ h. absurd (ground (arith, cloned))))
      | inr kept ↦ elim (Bool-cases (scc_to_stage e.from_scc == to)) [
        | inl own ↦ rw (kept, own, request_edge) (empty-Means _ (λ h. absurd (ground (arith, own))))
        | inr other ↦
            rw (kept, other, request_edge)
              (request_queues-Means (scc_to_stage e.from_scc) to e.sub_edges)
      ]
    ]

    request_edges-Means :
        (to : ℕ) (es : List SccEdge)
        → Means (request_edges can_be_cloned scc_to_stage to es) (All (EdgeMeans to) es)
    unfolding request_edges
    request_edges-Means to [] = empty-Means _ tt
    request_edges-Means to (e ∷ es) =
        both_requests-Means (request_edge can_be_cloned scc_to_stage to e)
          (request_edges can_be_cloned scc_to_stage to es) (EdgeMeans to e) (All (EdgeMeans to) es)
          (request_edge-Means to e) (request_edges-Means to es)

    module _ (incoming : ℕ → List SccEdge) where
      abbrev pub SccMeans : ℕ → ℕ → Type 0
      SccMeans to scc = All (EdgeMeans to) (incoming scc)

      request_sccs-Means :
          (to : ℕ) (sccs : List ℕ)
          → Means
              (request_sccs can_be_cloned scc_to_stage incoming to sccs)
              (All (SccMeans to) sccs)
      unfolding request_sccs
      request_sccs-Means to [] = empty-Means _ tt
      request_sccs-Means to (scc ∷ sccs) =
          both_requests-Means (request_edges can_be_cloned scc_to_stage to (incoming scc))
            (request_sccs can_be_cloned scc_to_stage incoming to sccs) (SccMeans to scc)
            (All (SccMeans to) sccs) (request_edges-Means to (incoming scc))
            (request_sccs-Means to sccs)

      pub collect_data_and_memory_queue_info-Means :
          (all_sccs : ℕ → List ℕ) (tasks : List ℕ)
          → Means
              (collect_data_and_memory_queue_info can_be_cloned scc_to_stage incoming all_sccs
                tasks)
              (All (λ t. All (SccMeans t) (all_sccs t)) tasks)
      unfolding collect_data_and_memory_queue_info
      collect_data_and_memory_queue_info-Means all_sccs [] = empty-Means _ tt
      collect_data_and_memory_queue_info-Means all_sccs (t ∷ tasks) =
          both_requests-Means (request_sccs can_be_cloned scc_to_stage incoming t (all_sccs t))
            (collect_data_and_memory_queue_info can_be_cloned scc_to_stage incoming all_sccs tasks)
            (All (SccMeans t) (all_sccs t)) (All (λ t'. All (SccMeans t') (all_sccs t')) tasks)
            (request_sccs-Means t (all_sccs t))
            (collect_data_and_memory_queue_info-Means all_sccs tasks)

pub All-of : {A : Type 0} (P : A → Type 0) (xs : List A) → ((x : A) → P x) → All P xs
All-of P [] h = tt
All-of P (x ∷ xs) h = (h x, All-of P xs h)
