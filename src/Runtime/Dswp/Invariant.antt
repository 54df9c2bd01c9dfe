-- ===== src/Runtime/Dswp/Invariant.antt =====
-- What holds in every state of a DSWP dispatch.
use gino.Base.{
  ℕ, ◌+◌, ◌<◌, ◌≡◌, ◌≢◌, true, false, List, [], ◌∷◌, map, All, ◌==◌, if◌then◌else◌, arith,
}
use gino.Runtime.Cores.{Cores, release_cores}
use gino.Runtime.Doall.{waiting, finished, Phase, submitting, joining, complete}
use gino.Runtime.Doall.Invariant.{executed, is_started, is_joined, lock_of}
use gino.Runtime.Dswp.{
  QueueSlot, live, delete_queues, StageCall, StageDispatch, stage_call, prepare_stage, StageStep,
  submit_stage, wait_stages, invoke_stage, unlock_stage, join_stage, finish_stages, StageReach,
  start_stage, later_stage,
}

-- How often a stage was called.
abbrev pub count_stage : ℕ → List StageCall → ℕ
count_stage c [] = 0
count_stage c (call ∷ calls) = (if call.stage == c then 1 else 0) + count_stage c calls

-- The queues and the cores by the phase: both are given back at the end only.
abbrev pub queues_in : List ℕ → List ℕ → Phase → List QueueSlot
queues_in sizes queues (submitting _) = map live queues
queues_in sizes queues (joining _) = map live queues
queues_in sizes queues complete = delete_queues sizes (map live queues)

abbrev pub cores_in : Cores → ℕ → Phase → Cores
cores_in reserved num_cores (submitting _) = reserved
cores_in reserved num_cores (joining _) = reserved
cores_in reserved num_cores complete = release_cores reserved num_cores

module _ (env : ℕ) (stages : ℕ → ℕ) (number_of_stages : ℕ) (sizes queues : List ℕ) where
  abbrev pub IsStageCall : StageCall → Type 0
  IsStageCall c =
      (c.func_to_invoke ≡ stages c.stage)
      × (c.env ≡ env)
      × (c.local_queues ≡ queues)
      × (c.stage < number_of_stages)

  pub record StageInv (reserved : Cores) (num_cores : ℕ) (s : StageDispatch) : Type 0 where
    pub fresh : (i : ℕ) → is_started s.phase i ≡ false → s.tasks i ≡ waiting
    pub begun : (i : ℕ) → i < number_of_stages → is_started s.phase i ≡ true → s.tasks i ≢ waiting
    pub ranged : (i : ℕ) → s.tasks i ≢ waiting → i < number_of_stages
    pub prepared : (i : ℕ) → s.tasks i ≢ waiting → IsStageCall (stage_call i (s.args i))
    pub locks :
        (i : ℕ)
        → s.tasks i ≢ waiting
        → (s.args i).end_lock ≡ lock_of (s.tasks i) (is_joined s.phase i)
    pub joined : (i : ℕ) → i < number_of_stages → is_joined s.phase i ≡ true → s.tasks i ≡ finished
    pub counted : (i : ℕ) → count_stage i s.calls ≡ executed (s.tasks i)
    pub right : All IsStageCall s.calls
    pub held : s.local_queues ≡ queues_in sizes queues s.phase
    pub granted : s.num_cores ≡ num_cores
    pub ledger : s.cores ≡ cores_in reserved num_cores s.phase

  Step-StageInv :
      {reserved : Cores} {num_cores : ℕ} {s t : StageDispatch}
      → StageStep env stages number_of_stages sizes queues s t
      → StageInv reserved num_cores s
      → StageInv reserved num_cores t
  unfolding stage_call prepare_stage
  Step-StageInv {s = s} (submit_stage i at below) v = record {
    fresh = λ j e. ground (arith, v.fresh j, v.fresh i);
    begun = λ j b e. ground (arith, v.begun j b);
    ranged = λ j e. ground (arith, v.ranged j);
    prepared = λ j e. ground (arith, v.prepared j, v.fresh i);
    locks = λ j e. ground (arith, v.locks j, v.fresh i);
    joined = λ j b e. ground (arith, v.joined j b);
    counted = λ j. ground (arith, v.counted j, v.fresh i);
    right = v.right;
    held = ground (arith, v.held);
    granted = v.granted;
    ledger = ground (arith, v.ledger);
  }
  Step-StageInv {s = s} (wait_stages i at past) v = record {
    fresh = λ j e. ground (arith, v.fresh j);
    begun = λ j b e. ground (arith, v.begun j b);
    ranged = v.ranged;
    prepared = v.prepared;
    locks = λ j e. ground (arith, v.locks j e);
    joined = λ j b e. ground (arith, v.joined j b);
    counted = v.counted;
    right = v.right;
    held = ground (arith, v.held);
    granted = v.granted;
    ledger = ground (arith, v.ledger);
  }
  Step-StageInv {s = s} (invoke_stage i at) v = record {
    fresh = λ j e. ground (arith, v.fresh j, v.fresh i);
    begun = λ j b e. ground (arith, v.begun j b, v.fresh j);
    ranged = λ j e. ground (arith, v.ranged j);
    prepared = λ j e. ground (arith, v.prepared j, v.prepared i);
    locks = λ j e. ground (arith, v.locks j, v.joined j);
    joined = λ j b e. ground (arith, v.joined j b, v.locks j);
    counted = λ j. ground (arith, v.counted j);
    right = (v.prepared i (λ w. cc), v.right);
    held = v.held;
    granted = v.granted;
    ledger = v.ledger;
  }
  Step-StageInv {s = s} (unlock_stage i at) v = record {
    fresh = λ j e. ground (arith, v.fresh j, v.fresh i);
    begun = λ j b e. ground (arith, v.begun j b, v.fresh j);
    ranged = λ j e. ground (arith, v.ranged j);
    prepared = λ j e. ground (arith, v.prepared j, v.prepared i);
    locks = λ j e. ground (arith, v.locks j, v.joined j, v.ranged i);
    joined = λ j b e. ground (arith, v.joined j b, v.locks j);
    counted = λ j. ground (arith, v.counted j);
    right = v.right;
    held = v.held;
    granted = v.granted;
    ledger = v.ledger;
  }
  Step-StageInv {s = s} (join_stage i at below free) v = record {
    fresh = λ j e. ground (arith, v.fresh j, v.fresh i);
    begun = λ j b e. ground (arith, v.begun j b, v.fresh j);
    ranged = λ j e. ground (arith, v.ranged j);
    prepared = λ j e. ground (arith, v.prepared j, v.prepared i);
    locks = λ j e. ground (arith, v.locks j e, v.joined j, v.begun i below);
    joined = λ j b e. ground (arith, v.joined j b, v.locks j, v.begun i below);
    counted = λ j. ground (arith, v.counted j);
    right = v.right;
    held = ground (arith, v.held);
    granted = v.granted;
    ledger = ground (arith, v.ledger);
  }
  Step-StageInv {s = s} (finish_stages i at past) v = record {
    fresh = λ j e. ground (arith, v.fresh j);
    begun = λ j b e. ground (arith, v.begun j b);
    ranged = v.ranged;
    prepared = v.prepared;
    locks = λ j e. ground (arith, v.locks j e, v.ranged j e);
    joined = λ j b e. ground (arith, v.joined j b);
    counted = v.counted;
    right = v.right;
    held = ground (arith, v.held);
    granted = v.granted;
    ledger = ground (arith, v.ledger, v.granted);
  }

  pub Reach-StageInv :
      {reserved : Cores} {num_cores : ℕ} {first s : StageDispatch}
      → StageInv reserved num_cores first
      → StageReach env stages number_of_stages sizes queues first s
      → StageInv reserved num_cores s
  Reach-StageInv v start_stage = v
  Reach-StageInv v (later_stage r st) = Step-StageInv st (Reach-StageInv v r)
