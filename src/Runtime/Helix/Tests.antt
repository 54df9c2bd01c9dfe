-- ===== src/Runtime/Helix/Tests.antt =====
-- The locks of HELIX with two cores and one sequential segment.
use gino.Base.{ℕ, ◌<◌, ◌≡◌, refl, ◌⊎◌, ◌↔◌, true, false, arith, ℕ_discrete}
use gino.Runtime.Helix.{
  Locks, num_of_ss_arrays, lock_address, init_locks, init_arrays, past_id, future_id, Segments,
  helix_wait, helix_signal, Reach, start, later, waits, signals, start_segments,
}
use gino.Runtime.Helix.Order.{iteration, segments_in_order, segment_progress}
use gino.Runtime.Helix.Critical.{critical_section_exclusive}

abbrev no_locks : Locks
no_locks a = false

-- Core 0 runs the segment of its first iteration, and core 1 has entered it.
abbrev ring_run : (s : Segments) × Reach true 2 1 no_locks s × (s.inside 1 0 ≡ true)
unfolding start_segments init_arrays init_locks num_of_ss_arrays past_id future_id lock_address
    ℕ_discrete helix_wait helix_signal
ring_run = (
  _,
  later
      (later (later start (waits 0 0 (omega arith) (omega arith) refl refl))
        (signals 0 0 (omega arith) (omega arith) refl))
      (waits 1 0 (omega arith) (omega arith) refl refl),
  refl,
)

-- The first iteration of core 0 has left the segment that core 1 is in.
segments_in_order_example :
    (0 < (ring_run.0).rounds 0 0) ↔ (iteration 2 0 0 < iteration 2 1 ((ring_run.0).rounds 1 0))
segments_in_order_example =
    segments_in_order 2 1 0 1 (omega arith) (omega arith) ring_run.1 ring_run.2 0 0 (omega arith)

segment_progress_example :
    (core : ℕ) × (core < 2)
    × (((ring_run.0).inside core 0 ≡ true)
        ⊎ ((ring_run.0).locks (lock_address 1 (past_id 1 true 2 core) 0) ≡ false))
segment_progress_example = segment_progress 2 1 0 (omega arith) (omega arith) ring_run.1

-- Core 1 is alone in the one critical section.
abbrev section_run : (s : Segments) × Reach false 2 1 no_locks s × (s.inside 1 0 ≡ true)
unfolding start_segments init_arrays init_locks num_of_ss_arrays past_id future_id lock_address
    ℕ_discrete helix_wait helix_signal
section_run = (_, later start (waits 1 0 (omega arith) (omega arith) refl refl), refl)

critical_section_exclusive_example : (section_run.0).inside 0 0 ≡ false
critical_section_exclusive_example =
    critical_section_exclusive 2 1 0 1 0 (omega arith) (omega arith) (omega arith) section_run.1
      section_run.2 (λ e. omega (arith, e))
