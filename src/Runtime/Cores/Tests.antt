-- ===== src/Runtime/Cores/Tests.antt =====
-- The ledger of idle cores at concrete inputs.
use gino.Base.{◌≤◌, ◌≡◌, refl, max, [], ◌∷◌, arith}
use gino.Runtime.Cores.{Cores, reserve_cores, release_cores, get_available_cores, init_cores}
use gino.Runtime.Cores.Ledger.{reserve_cores_bounds, reserve_cores_overdrawn}
use gino.Runtime.Cores.History.{Reach, start, later, reserves, releases, Reach-all_released}

abbrev four_cores : Cores
four_cores = record { idle_cores = 4; max_cores = 4 }

abbrev no_cores : Cores
no_cores = record { idle_cores = 0; max_cores = 4 }

drained : (reserve_cores four_cores 9).1 ≡ 4
unfolding reserve_cores
drained = refl

-- The overdrawn ledger holds -1, and grants a request for a thousand cores.
overdrawn : (reserve_cores (reserve_cores no_cores 1).0 1000).1 ≡ 1000
unfolding reserve_cores
overdrawn = refl

reserve_cores_bounds_example :
    (1 ≤ (reserve_cores four_cores 3).1)
    × ((reserve_cores four_cores 3).1 ≤ 3)
    × ((reserve_cores four_cores 3).1 ≤ max 1 4)
reserve_cores_bounds_example = reserve_cores_bounds four_cores 3 (omega arith) (omega arith)

reserve_cores_overdrawn_example :
    ((reserve_cores no_cores 8).1 ≡ 1)
    × (get_available_cores (reserve_cores no_cores 8).0 ≡ 1)
    × ((reserve_cores (reserve_cores no_cores 8).0 1000).1 ≡ 1000)
reserve_cores_overdrawn_example =
    reserve_cores_overdrawn no_cores 8 1000 refl (omega arith) (omega arith) (omega arith)

-- One dispatcher takes all four cores and another one core too many; both give them back.
nested_dispatch : Reach 4 (record {
  cores = release_cores (release_cores (reserve_cores (reserve_cores four_cores 4).0 8).0 4) 1;
  grants = [];
})
unfolding init_cores reserve_cores
nested_dispatch =
    later
      (later (later (later start (reserves 4 (omega arith))) (reserves 8 (omega arith)))
        (releases (1 ∷ []) 4 [] (omega arith) refl))
      (releases [] 1 [] (omega arith) refl)

Reach-all_released_example :
    (release_cores
      (release_cores (reserve_cores (reserve_cores four_cores 4).0 8).0 4)
      1).idle_cores
    ≡ 4
Reach-all_released_example = Reach-all_released (omega arith) nested_dispatch refl
