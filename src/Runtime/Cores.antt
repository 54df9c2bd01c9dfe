-- ===== src/Runtime/Cores.antt =====
-- The ledger of idle cores: reserveCores, releaseCores and getAvailableCores of NoelleRuntime
-- (src/core/runtime/Parallelizer_utils.cpp). Every method runs under the runtime's spin lock, so
-- concurrent calls are a sequence of these operations.
pub mod Ledger
pub mod History
mod Tests
use gino.Base.{ℕ, ◌≤◌, ◌<◌, ◌||◌, leb, ltb, if◌then◌else◌}
use gino.Base.Words.{add32, sub32, i32_sign}

-- `NOELLE_idleCores` is an `int32_t`, kept as its bit pattern; `maxCores` is a `uint32_t`.
pub record Cores : Type 0 where
  pub idle_cores : ℕ
  pub max_cores : ℕ

-- The constructor: every core is idle.
pub init_cores : ℕ → Cores
init_cores max = record { idle_cores = max; max_cores = max }

-- The comparison with the request, a `uint32_t`, is unsigned, and so is the result.
abbrev offered : Cores → ℕ → ℕ
offered s requested = if leb requested s.idle_cores then requested else s.idle_cores

abbrev at_least_one : ℕ → ℕ
at_least_one n = if ltb n 1 then 1 else n

unfoldable pub reserve_cores : Cores → ℕ → Cores × ℕ
reserve_cores s requested =
    let num_cores = at_least_one (offered s requested) in
    (record s { idle_cores = sub32 s.idle_cores num_cores }, num_cores)

pub release_cores : Cores → ℕ → Cores
release_cores s released = record s { idle_cores = add32 s.idle_cores released }

-- Here the comparison with 1 is signed.
pub get_available_cores : Cores → ℕ
get_available_cores s = if leb i32_sign s.idle_cores || ltb s.idle_cores 1 then 1 else s.idle_cores
