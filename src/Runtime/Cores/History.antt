-- ===== src/Runtime/Cores/History.antt =====
-- Any interleaving of dispatchers: each reserves cores, holds them for a while, and releases them.
use gino.Base.{ℕ, ◌+◌, ◌%◌, ◌<◌, ◌≡◌, ap, List, [], ◌∷◌, ◌++◌, arith}
use gino.Base.Words.{u32_mod}
use gino.Runtime.Cores.{Cores, reserve_cores, release_cores, init_cores}

abbrev pub sum : List ℕ → ℕ
sum [] = 0
sum (n ∷ ns) = n + sum ns

sum-middle : (ns : List ℕ) (n : ℕ) (ms : List ℕ) → sum (ns ++ n ∷ ms) ≡ n + sum (ns ++ ms)
sum-middle [] n ms = omega arith
sum-middle (k ∷ ns) n ms = omega (arith, sum-middle ns n ms)

-- The ledger with the grants that are not released yet, newest first.
pub record Held : Type 0 where
  pub cores : Cores
  pub grants : List ℕ

-- A dispatcher reserves, or one that holds a grant releases it. A release of no cores is excluded
-- by the assertion of `releaseCores`.
pub data Step (s : Held) : Held → Type 0 where
  reserves :
      (requested : ℕ)
      → requested < u32_mod
      → Step s (record {
        cores = (reserve_cores s.cores requested).0;
        grants = (reserve_cores s.cores requested).1 ∷ s.grants;
      })
  releases :
      (newer : List ℕ) (granted : ℕ) (older : List ℕ)
      → 0 < granted
      → s.grants ≡ newer ++ granted ∷ older
      → Step s (record { cores = release_cores s.cores granted; grants = newer ++ older })

pub data Reach (max : ℕ) : Held → Type 0 where
  start : Reach max (record { cores = init_cores max; grants = [] })
  later : {s t : Held} → Reach max s → Step s t → Reach max t

abbrev pub IsBalanced : ℕ → Held → Type 0
IsBalanced max s =
    (s.cores.idle_cores < u32_mod) × ((s.cores.idle_cores + sum s.grants) % u32_mod ≡ max)

Step-IsBalanced : {max : ℕ} {s t : Held} → Step s t → IsBalanced max s → IsBalanced max t
unfolding reserve_cores release_cores
Step-IsBalanced {s = s} (reserves requested small) b = ground arith
Step-IsBalanced {s = s} (releases newer granted older pos e) b =
    omega (arith, sum-middle newer granted older, ap sum e)

-- In every reachable state the idle cores and the grants add up to the maximum, modulo 2 ^ 32.
pub Reach-IsBalanced : {max : ℕ} {s : Held} → max < u32_mod → Reach max s → IsBalanced max s
unfolding init_cores
Reach-IsBalanced small start = omega arith
Reach-IsBalanced small (later r st) = Step-IsBalanced st (Reach-IsBalanced small r)

-- Once every grant is released, all cores are idle again, whatever was overdrawn in between.
pub Reach-all_released :
    {max : ℕ} {s : Held} → max < u32_mod → Reach max s → s.grants ≡ [] → s.cores.idle_cores ≡ max
Reach-all_released small r e = omega (arith, Reach-IsBalanced small r, ap sum e)
