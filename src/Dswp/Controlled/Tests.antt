-- ===== src/Dswp/Controlled/Tests.antt =====
-- A branch in SCC 0, which controls SCC 2 through SCC 1, which can be cloned.
use gino.Base.{
  ℕ, zero, suc, ◌≡◌, ◌≢◌, ◌↔◌, refl, true, Option, some, none, List, [], ◌∷◌, contains, All, ◌==◌,
  if◌then◌else◌,
}
use gino.Dswp.Controlled.{run_control, collect_transitively_controlled_tasks}
use gino.Dswp.Controlled.Edges.{Controls}
use gino.Dswp.Controlled.Found.{collect_transitively_controlled_tasks_iff}

abbrev task_of : ℕ → Option ℕ
task_of x = if x == 1 then none else if x == 2 then some 8 else some 7

abbrev edges_of : ℕ → List ℕ
edges_of zero = 1 ∷ []
edges_of (suc zero) = 2 ∷ 3 ∷ []
edges_of (suc (suc zero)) = 0 ∷ 3 ∷ []
edges_of (suc (suc (suc x))) = []

edges_within : (n : ℕ) → All (λ x. contains (0 ∷ 1 ∷ 2 ∷ 3 ∷ []) x ≡ true) (edges_of n)
unfolding contains
edges_within zero = (refl, tt)
edges_within (suc zero) = (refl, (refl, tt))
edges_within (suc (suc zero)) = (refl, (refl, tt))
edges_within (suc (suc (suc x))) = tt

collect_transitively_controlled_tasks_iff_example :
    ((run_control task_of edges_of (0 ∷ 1 ∷ 2 ∷ 3 ∷ []) 0).queued_nodes ≡ [])
    × ((t : ℕ)
        → (contains
              (collect_transitively_controlled_tasks task_of edges_of (0 ∷ 1 ∷ 2 ∷ 3 ∷ []) 0)
              t
            ≡ true)
          ↔ ((task_of 0 ≢ some t) × ((x : ℕ) × Controls edges_of 0 x × (task_of x ≡ some t))))
unfolding contains
collect_transitively_controlled_tasks_iff_example =
    collect_transitively_controlled_tasks_iff task_of edges_of (0 ∷ 1 ∷ 2 ∷ 3 ∷ []) 0 refl
      edges_within
