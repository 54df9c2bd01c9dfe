-- ===== src/Runtime/Helix/Critical.antt =====
-- Without loop iteration order the cores share one array: each segment is a critical section.
use gino.Base.{ℕ, ◌<◌, ◌≡◌, ◌≢◌, refl, true, false, arith}
use gino.Runtime.Helix.{
  Locks, lock_address, past_id, future_id, Segments, helix_wait, helix_signal, Step, waits, signals,
  start_segments, Reach, start, later,
}
use gino.Runtime.Helix.Layout.{lock_address-injective}

module _ (num_cores num_segments : ℕ) where
  past_id_lem : (c : ℕ) → past_id num_segments false num_cores c ≡ 0
  unfolding past_id
  past_id_lem c = omega arith

  future_id_lem : (c : ℕ) → future_id num_segments false num_cores c ≡ 0
  unfolding future_id
  future_id_lem c = ground arith

  -- The lock of a segment is held exactly while a core is inside.
  record Section (st : Segments) (segment : ℕ) : Type 0 where
    closed :
        (c : ℕ)
        → c < num_cores
        → st.locks (lock_address num_segments 0 segment) ≡ false
        → st.inside c segment ≡ false
    alone :
        (c d : ℕ)
        → c < num_cores
        → d < num_cores
        → st.inside c segment ≡ true
        → st.inside d segment ≡ true
        → c ≡ d

  Section-start :
      (garbage : Locks) (segment : ℕ)
      → Section (start_segments false num_cores num_segments garbage) segment
  unfolding start_segments
  Section-start garbage segment = record { closed = λ c b e. refl; alone = λ c d p q e f. cc }

  Step-Section :
      {st t : Segments} (segment : ℕ)
      → segment < num_segments
      → Step false num_cores num_segments st t
      → Section st segment
      → Section t segment
  unfolding helix_wait helix_signal
  Step-Section segment below (waits core other c o out free) v = record {
    closed = λ d b e. ground (
      arith,
      v.closed d b,
      past_id_lem core,
      lock_address-injective num_segments 0 0 other segment,
    );
    alone = λ d f b b' e e'.
        ground (arith, v.alone d f b b', v.closed d b, v.closed f b', past_id_lem core);
  }
  Step-Section segment below (signals core other c o in') v = record {
    closed = λ d b e. ground (
      arith,
      v.closed d b,
      v.alone core d c b,
      future_id_lem core,
      lock_address-injective num_segments 0 0 other segment,
    );
    alone = λ d f b b' e e'. ground (arith, v.alone d f b b');
  }

  Reach-Section :
      {garbage : Locks} {st : Segments} (segment : ℕ)
      → segment < num_segments
      → Reach false num_cores num_segments garbage st
      → Section st segment
  Reach-Section {garbage} segment below start = Section-start garbage segment
  Reach-Section segment below (later r st) =
      Step-Section segment below st (Reach-Section segment below r)

  -- With one shared array, while a core is inside a segment no other core is.
  pub critical_section_exclusive :
      {garbage : Locks} {st : Segments} (segment a b : ℕ)
      → segment < num_segments
      → a < num_cores
      → b < num_cores
      → Reach false num_cores num_segments garbage st
      → st.inside a segment ≡ true
      → a ≢ b
      → st.inside b segment ≡ false
  critical_section_exclusive segment a b s p q r in_a other =
      let v = Reach-Section segment s r in ground (arith, v.alone a b p q)
