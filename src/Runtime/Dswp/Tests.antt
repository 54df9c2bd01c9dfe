-- ===== src/Runtime/Dswp/Tests.antt =====
-- A DSWP dispatch of two stages with two queues.
use gino.Base.{ℕ, ◌+◌, ◌≤◌, ◌<◌, ◌≡◌, refl, true, some, List, [], ◌∷◌, All, map, arith, ℕ_discrete}
use gino.Dswp.Widths.{new_queues, new_queue}
use gino.Runtime.Cores.{Cores, reserve_cores}
use gino.Runtime.Doall.{submitted, complete}
use gino.Runtime.Dswp.{
  live, deleted, DswpArgs, StageDispatch, with_queues, start_stages, submit_stage, wait_stages,
  invoke_stage, unlock_stage, join_stage, finish_stages, StageReach, start_stage, later_stage,
  number_of_threads_used,
}
use gino.Runtime.Dswp.Invariant.{count_stage, IsStageCall}
use gino.Runtime.Dswp.Once.{dispatch_stages_once, running-local_queues}

abbrev garbage : ℕ → DswpArgs
garbage i = record { func_to_invoke = 0; env = 0; local_queues = []; end_lock = true }

abbrev cores : Cores
cores = record { idle_cores = 1; max_cores = 4 }

abbrev stages : ℕ → ℕ
stages i = 70 + i

abbrev queues : List ℕ
queues = 32 ∷ 8 ∷ []

abbrev first : StageDispatch
first = with_queues garbage (reserve_cores cores 2) queues

-- The second stage ends before the first one.
abbrev whole_run :
    (s : StageDispatch) × StageReach 9 stages 2 (32 ∷ 1 ∷ []) queues first s × (s.phase ≡ complete)
unfolding with_queues ℕ_discrete
whole_run = (
  _,
  later_stage
      (later_stage
        (later_stage
          (later_stage
            (later_stage
              (later_stage
                (later_stage
                  (later_stage
                    (later_stage (later_stage start_stage (submit_stage 0 refl (omega arith)))
                      (submit_stage 1 refl (omega arith)))
                    (invoke_stage 1 refl))
                  (unlock_stage 1 refl))
                (wait_stages 2 refl (omega arith)))
              (invoke_stage 0 refl))
            (unlock_stage 0 refl))
          (join_stage 0 refl (omega arith) refl))
        (join_stage 1 refl (omega arith) refl))
      (finish_stages 2 refl (omega arith)),
  refl,
)

abbrev running_run :
    (s : StageDispatch) × StageReach 9 stages 2 (32 ∷ 1 ∷ []) queues first s
    × (s.tasks 0 ≡ submitted)
unfolding with_queues ℕ_discrete
running_run = (_, later_stage start_stage (submit_stage 0 refl (omega arith)), refl)

allocated : new_queues (32 ∷ 1 ∷ []) ≡ some queues
unfolding new_queues new_queue ℕ_discrete
allocated = refl

begun : start_stages garbage cores 2 (32 ∷ 1 ∷ []) ≡ some first
unfolding start_stages new_queues with_queues new_queue reserve_cores ℕ_discrete
begun = refl

dispatch_stages_once_example :
    ((i : ℕ) → i < 2 → count_stage i (whole_run.0).calls ≡ 1)
    × All (IsStageCall 9 stages 2 (32 ∷ 1 ∷ []) queues) (whole_run.0).calls
    × ((whole_run.0).local_queues ≡ map deleted queues)
    × ((whole_run.0).cores ≡ cores)
    × ((whole_run.0).num_cores ≤ number_of_threads_used 2 (whole_run.0))
dispatch_stages_once_example =
    dispatch_stages_once 9 stages 2 garbage cores (32 ∷ 1 ∷ []) queues first whole_run.0
      (omega arith) (omega arith) (omega arith) allocated begun whole_run.1 whole_run.2

running-local_queues_example :
    ((running_run.0).local_queues ≡ map live queues)
    × (((running_run.0).args 0).local_queues ≡ queues)
    × ((running_run.0).cores ≡ (reserve_cores cores 2).0)
running-local_queues_example =
    running-local_queues 9 stages 2 garbage cores (32 ∷ 1 ∷ []) queues first running_run.0 0
      allocated begun running_run.1 (λ e. ground (arith, running_run.2))
      (λ e. ground (arith, running_run.2))
