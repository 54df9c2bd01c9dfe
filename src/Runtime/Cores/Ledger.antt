-- ===== src/Runtime/Cores/Ledger.antt =====
-- What one reservation and one release do to the ledger of idle cores.
use gino.Base.{ℕ, ◌≤◌, ◌<◌, ◌≡◌, max, arith}
use gino.Base.Words.{u32_mod, i32_sign}
use gino.Runtime.Cores.{Cores, reserve_cores, release_cores, get_available_cores}

-- While the ledger is not overdrawn, a request of at least one core is granted at least one core,
-- never more than the request, and never more than the idle cores when there are any.
pub reserve_cores_bounds :
    (s : Cores) (requested : ℕ)
    → s.idle_cores < i32_sign
    → 1 ≤ requested
    → (1 ≤ (reserve_cores s requested).1)
      × ((reserve_cores s requested).1 ≤ requested)
      × ((reserve_cores s requested).1 ≤ max 1 s.idle_cores)
unfolding reserve_cores
reserve_cores_bounds s requested small pos = ground arith

-- Giving back what was granted restores the ledger, also when it was overdrawn.
pub release_cores-reserve_cores :
    (s : Cores) (requested : ℕ)
    → s.idle_cores < u32_mod
    → requested < u32_mod
    → release_cores (reserve_cores s requested).0 (reserve_cores s requested).1 ≡ s
unfolding release_cores reserve_cores
release_cores-reserve_cores s requested fits small = ground arith

-- When no core is idle, the first request of at least one core is granted one core and overdraws
-- the ledger; from then on `get_available_cores` reports one core while the next request of up to
-- 2 ^ 31 cores is granted in full, since the negative count is compared as an unsigned number.
pub reserve_cores_overdrawn :
    (s : Cores) (first next : ℕ)
    → s.idle_cores ≡ 0
    → 1 ≤ first
    → 1 ≤ next
    → next ≤ i32_sign
    → ((reserve_cores s first).1 ≡ 1)
      × (get_available_cores (reserve_cores s first).0 ≡ 1)
      × ((reserve_cores (reserve_cores s first).0 next).1 ≡ next)
unfolding reserve_cores get_available_cores
reserve_cores_overdrawn s first next drained p q small = ground arith

-- Whatever the ledger and the pool are, at least one core is granted.
pub reserve_cores_pos : (s : Cores) (requested : ℕ) → 1 ≤ (reserve_cores s requested).1
unfolding reserve_cores
reserve_cores_pos s requested = ground arith
