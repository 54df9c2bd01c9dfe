-- ===== src/Runtime/Helix/Layout.antt =====
-- The layout of the sequential-segment arrays: every lock has a cache line of its own.
use gino.Base.{ℕ, zero, suc, ◌+◌, ◌*◌, ◌≤◌, ◌<◌, ◌≡◌, ◌&&◌, ltb, ◌==◌, if◌then◌else◌, arith, dec_lt}
use gino.Runtime.Helix.{cache_line_size, Locks, lock_address, init_locks, init_arrays}

module _ (num_segments : ℕ) where
  lock_address-lt :
      (a b i j : ℕ)
      → i < num_segments
      → a < b
      → lock_address num_segments a i + cache_line_size ≤ lock_address num_segments b j
  unfolding lock_address
  lock_address-lt a b i j h less = grind arith

  -- Two locks with the same address are the same lock.
  pub lock_address-injective :
      (a b i j : ℕ)
      → i < num_segments
      → j < num_segments
      → lock_address num_segments a i ≡ lock_address num_segments b j
      → (a ≡ b) × (i ≡ j)
  unfolding lock_address
  lock_address-injective a b i j p q e = elim (dec_lt a b) [
    | yes below ↦ absurd (omega (arith, lock_address-lt a b i j p below))
    | no not_below ↦ elim (dec_lt b a) [
      | yes above ↦ absurd (omega (arith, lock_address-lt b a j i q above))
      | no not_above ↦ let same : a ≡ b = omega arith in (same, slot same)
    ]
  ]
    where
      slot : a ≡ b → i ≡ j
      slot same =
          let f : a * (cache_line_size * num_segments) + i * cache_line_size
              ≡ a * (cache_line_size * num_segments) + j * cache_line_size =
            rw (← same) at e in
          omega arith

  -- The first `k` locks of an array, written over what was there.
  init_locks_lem :
      (array k : ℕ) (locks : Locks) (a i : ℕ)
      → k ≤ num_segments
      → i < num_segments
      → init_locks num_segments array k locks (lock_address num_segments a i)
        ≡ (if (a == array) && ltb i k then ltb 0 array else locks (lock_address num_segments a i))
  unfolding init_locks
  init_locks_lem array zero locks a i h below = ground arith
  init_locks_lem array (suc k) locks a i h below =
      ground (arith, init_locks_lem array k locks a i, lock_address-injective array a k i)

  pub init_arrays_lem :
      (arrays : ℕ) (locks : Locks) (a i : ℕ)
      → a < arrays
      → i < num_segments
      → init_arrays num_segments arrays locks (lock_address num_segments a i) ≡ ltb 0 a
  unfolding init_arrays
  init_arrays_lem zero locks a i h below = absurd (omega arith)
  init_arrays_lem (suc arrays) locks a i h below =
      rw
        (init_locks_lem arrays num_segments (init_arrays num_segments arrays locks) a i
          (omega arith) below)
        (ground (arith, init_arrays_lem arrays locks a i))
