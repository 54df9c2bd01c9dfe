-- ===== src/Runtime/Dswp/Once.antt =====
-- A DSWP dispatch calls each stage once, while its queues exist, and does not get stuck.
use gino.Base.{
  ℕ, ◌≤◌, ◌<◌, ◌≡◌, ◌≢◌, refl, sym, some, Option-cases, inl, inr, subst, List, [], ◌∷◌, All, map,
  arith,
}
use gino.Base.Words.{u32_mod}
use gino.Dswp.Widths.{new_queues, new_queue, delete_queue}
use gino.Runtime.Cores.{Cores, reserve_cores}
use gino.Runtime.Cores.Ledger.{release_cores-reserve_cores}
use gino.Runtime.Doall.{waiting, finished, complete}
use gino.Runtime.Dswp.{
  live, deleted, delete_as, delete_queues, DswpArgs, StageDispatch, stage_call, with_queues,
  start_stages, StageReach, number_of_threads_used,
}
use gino.Runtime.Dswp.Invariant.{count_stage, IsStageCall, StageInv, Reach-StageInv}

delete_queue-new_queue :
    (size width : ℕ) → new_queue size ≡ some width → delete_queue size ≡ some width
unfolding delete_queue new_queue
delete_queue-new_queue size width made = ground (arith, made)

-- All queues are deleted, each as what it was allocated as.
deleted-new_queues :
    (sizes queues : List ℕ)
    → new_queues sizes ≡ some queues
    → delete_queues sizes (map live queues) ≡ map deleted queues
unfolding new_queues delete_queues delete_as
deleted-new_queues [] queues e =
    let same : [] ≡ queues = cc e in subst (λ qs. map live qs ≡ map deleted qs) same refl
deleted-new_queues (size ∷ sizes) queues e = elim (Option-cases (new_queue size)) [
  | inl failed ↦ absurd (ground (arith, failed))
  | inr (queue, made) ↦ elim (Option-cases (new_queues sizes)) [
    | inl failed ↦ absurd (ground (arith, made, failed))
    | inr (others, rest) ↦
        let same : queue ∷ others ≡ queues = ground (arith, made, rest) in
        rw
          (
            sym same,
            delete_queues,
            delete_queue-new_queue size queue made,
            deleted-new_queues sizes others rest,
          )
          refl
  ]
]

started_queues :
    (garbage : ℕ → DswpArgs) (cores : Cores) (number_of_stages : ℕ) (sizes queues : List ℕ)
    (first : StageDispatch)
    → new_queues sizes ≡ some queues
    → start_stages garbage cores number_of_stages sizes ≡ some first
    → with_queues garbage (reserve_cores cores number_of_stages) queues ≡ first
unfolding start_stages
started_queues garbage cores number_of_stages sizes queues first made begun = ground arith

reserve_cores-le :
    (cores : Cores) (requested : ℕ) → 1 ≤ requested → (reserve_cores cores requested).1 ≤ requested
unfolding reserve_cores
reserve_cores-le cores requested pos = ground arith

module _ (env : ℕ) (stages : ℕ → ℕ) (number_of_stages : ℕ) where
  with_queues-StageInv :
      (garbage : ℕ → DswpArgs) (reserved : Cores × ℕ) (sizes queues : List ℕ)
      → StageInv env stages number_of_stages sizes queues reserved.0 reserved.1
          (with_queues garbage reserved queues)
  unfolding with_queues
  with_queues-StageInv garbage reserved sizes queues = record {
    fresh = λ i e. refl;
    begun = λ i b e w. ground arith;
    ranged = λ i e. absurd (e refl);
    prepared = λ i e. absurd (e refl);
    locks = λ i e. absurd (e refl);
    joined = λ i b e. cc;
    counted = λ i. refl;
    right = tt;
    held = refl;
    granted = refl;
    ledger = refl;
  }

  started-StageInv :
      (garbage : ℕ → DswpArgs) (cores : Cores) (sizes queues : List ℕ) {first s : StageDispatch}
      → new_queues sizes ≡ some queues
      → start_stages garbage cores number_of_stages sizes ≡ some first
      → StageReach env stages number_of_stages sizes queues first s
      → StageInv env stages number_of_stages sizes queues
          (reserve_cores cores number_of_stages).0
          (reserve_cores cores number_of_stages).1
          s
  started-StageInv garbage cores sizes queues {first} made begun r =
      let reserved = reserve_cores cores number_of_stages in
      Reach-StageInv env stages number_of_stages sizes queues
        (subst (StageInv env stages number_of_stages sizes queues reserved.0 reserved.1)
          (started_queues garbage cores number_of_stages sizes queues first made begun)
          (with_queues-StageInv garbage reserved sizes queues))
        r

  -- When the dispatcher of DSWP has joined all tasks of at least one stage, each stage was called exactly
  -- once, with its own function, the environment of the dispatch and the queues that were allocated; the
  -- loop at the end deletes every queue, each as the type that it was allocated as; the cores are as they were before; and
  -- the number of threads that is reported is at least that of the cores that were reserved.
  pub dispatch_stages_once :
      (garbage : ℕ → DswpArgs) (cores : Cores) (sizes queues : List ℕ) (first s : StageDispatch)
      → cores.idle_cores < u32_mod
      → 1 ≤ number_of_stages
      → number_of_stages < u32_mod
      → new_queues sizes ≡ some queues
      → start_stages garbage cores number_of_stages sizes ≡ some first
      → StageReach env stages number_of_stages sizes queues first s
      → s.phase ≡ complete
      → ((i : ℕ) → i < number_of_stages → count_stage i s.calls ≡ 1)
        × All (IsStageCall env stages number_of_stages sizes queues) s.calls
        × (s.local_queues ≡ map deleted queues)
        × (s.cores ≡ cores)
        × (s.num_cores ≤ number_of_threads_used number_of_stages s)
  unfolding number_of_threads_used
  dispatch_stages_once garbage cores sizes queues first s fits pos small made begun r done =
      let v = started-StageInv garbage cores sizes queues made begun r in
      (
        λ i below. ground (arith, v.counted i, v.joined i below),
        v.right,
        ground (arith, v.held, deleted-new_queues sizes queues made),
        ground (arith, v.ledger, release_cores-reserve_cores cores number_of_stages fits small),
        omega (arith, v.granted, reserve_cores-le cores number_of_stages pos),
      )

  -- While a stage has been submitted and its lock is not yet released, its queues exist and the cores
  -- are held: nothing is given back under a running stage.
  pub running-local_queues :
      (garbage : ℕ → DswpArgs) (cores : Cores) (sizes queues : List ℕ) (first s : StageDispatch)
      (i : ℕ)
      → new_queues sizes ≡ some queues
      → start_stages garbage cores number_of_stages sizes ≡ some first
      → StageReach env stages number_of_stages sizes queues first s
      → s.tasks i ≢ waiting
      → s.tasks i ≢ finished
      → (s.local_queues ≡ map live queues)
        × ((s.args i).local_queues ≡ queues)
        × (s.cores ≡ (reserve_cores cores number_of_stages).0)
  unfolding stage_call
  running-local_queues garbage cores sizes queues first s i made begun r on off =
      let v = started-StageInv garbage cores sizes queues made begun r in
      (
        ground (arith, v.held, v.joined i (v.ranged i on)),
        (v.prepared i on).2,
        ground (arith, v.ledger, v.joined i (v.ranged i on)),
      )
