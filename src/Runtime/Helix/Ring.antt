-- ===== src/Runtime/Helix/Ring.antt =====
-- The ring of sequential segments: at each segment one core has its turn, and only that core's lock
-- is free.
use native.Mathlib.Nat.{mod-eq_of_lt}
use gino.Base.{
  ℕ, ◌+◌, ◌-◌, ◌≤◌, ◌<◌, ◌≡◌, ◌≢◌, refl, true, false, ltb, ◌==◌, if◌then◌else◌, arith, dec_lt,
  ℕ_discrete,
}
use gino.Runtime.Helix.{
  Locks, lock_address, past_id, future_id, Segments, helix_wait, helix_signal, Step, waits, signals,
  start_segments, Reach, start, later,
}
use gino.Runtime.Helix.Layout.{lock_address-injective, init_arrays_lem}

module _ (num_cores num_segments : ℕ) where
  abbrev pub address : ℕ → ℕ → ℕ
  address = lock_address num_segments

  -- Core `holder` has its turn in round `lap`; the cores before it have left the segment once more.
  pub record Turn (st : Segments) (segment : ℕ) : Type 0 where
    pub holder : ℕ
    pub lap : ℕ
    pub held : holder < num_cores
    pub outside : (c : ℕ) → c < num_cores → c ≢ holder → st.inside c segment ≡ false
    pub free :
        (a : ℕ)
        → a < num_cores
        → st.locks (address a segment) ≡ (if a == holder then st.inside holder segment else true)
    pub ahead : (c : ℕ) → c < holder → st.rounds c segment ≡ lap + 1
    pub level : (c : ℕ) → holder ≤ c → c < num_cores → st.rounds c segment ≡ lap

  pub past_id_lem : (c : ℕ) → c < num_cores → past_id num_segments true num_cores c ≡ c
  unfolding past_id
  past_id_lem c h = mod-eq_of_lt h

  next : ℕ → ℕ
  next c = if ltb c (num_cores - 1) then c + 1 else 0

  future_id_lem : (c : ℕ) → c < num_cores → future_id num_segments true num_cores c ≡ next c
  unfolding future_id next
  future_id_lem c h = ground (arith, mod-eq_of_lt {n = c + 1} {m = num_cores})

  Turn-start :
      (garbage : Locks) (segment : ℕ)
      → 0 < num_cores
      → segment < num_segments
      → Turn (start_segments true num_cores num_segments garbage) segment
  unfolding start_segments
  Turn-start garbage segment pos h = record {
    holder = 0;
    lap = 0;
    held = pos;
    outside = λ c b ne. refl;
    free = λ a b. ground (arith, init_arrays_lem num_segments num_cores garbage a segment b h);
    ahead = λ c b. absurd (omega arith);
    level = λ c b e. refl;
  }

  module _ {st : Segments} {segment : ℕ} (below : segment < num_segments)
      (v : Turn st segment) where
    open v use {holder, lap}

    -- A core that may enter the segment has its turn.
    wait_turn :
        (core : ℕ)
        → core < num_cores
        → st.locks (address (past_id num_segments true num_cores core) segment) ≡ false
        → (core ≡ holder) × (st.inside holder segment ≡ false)
    wait_turn core c free = ground (arith, past_id_lem core c, v.free core c)

    -- A core that is inside has its turn.
    signal_turn : (core : ℕ) → core < num_cores → st.inside core segment ≡ true → core ≡ holder
    signal_turn core c in' = ground (arith, v.outside core c)

    waits-Turn :
        (core other : ℕ)
        → core < num_cores
        → other < num_segments
        → st.locks (address (past_id num_segments true num_cores core) other) ≡ false
        → Turn (helix_wait true num_cores num_segments st core other) segment
    unfolding helix_wait
    waits-Turn core other c o free = record {
      holder = holder;
      lap = lap;
      held = v.held;
      outside = λ d b ne. ground (arith, v.outside d b ne, wait_turn core c);
      free = λ a b. ground (
        arith,
        v.free a b,
        wait_turn core c,
        past_id_lem core c,
        lock_address-injective num_segments core a other segment,
      );
      ahead = v.ahead;
      level = v.level;
    }

    signals-Turn :
        (core other : ℕ)
        → core < num_cores
        → other < num_segments
        → st.inside core other ≡ true
        → Turn (helix_signal true num_cores num_segments st core other) segment
    unfolding helix_signal next
    signals-Turn core other c o in' = elim (ℕ_discrete other segment) [
      | yes same ↦ elim (dec_lt (core + 1) num_cores) [
        | yes more ↦ record {
          holder = core + 1;
          lap = lap;
          held = more;
          outside = λ d b ne. ground (arith, v.outside d b, signal_turn core c);
          free = λ a b. ground (
            arith,
            v.free a b,
            v.outside (core + 1) more,
            signal_turn core c,
            future_id_lem core c,
            lock_address-injective num_segments (core + 1) a other segment,
          );
          ahead = λ d b. ground (arith, v.ahead d, v.level d, signal_turn core c);
          level = λ d b e. ground (arith, v.level d, signal_turn core c);
        }
        | no last ↦ record {
          holder = 0;
          lap = lap + 1;
          held = omega arith;
          outside = λ d b ne. ground (arith, v.outside d b, signal_turn core c);
          free = λ a b. ground (
            arith,
            v.free a b,
            v.outside 0,
            signal_turn core c,
            future_id_lem core c,
            lock_address-injective num_segments 0 a other segment,
          );
          ahead = λ d b. absurd (omega arith);
          level = λ d b e. ground (arith, v.ahead d, v.level d, signal_turn core c);
        }
      ]
      | no differ ↦ record {
        holder = holder;
        lap = lap;
        held = v.held;
        outside = λ d b ne. ground (arith, v.outside d b ne);
        free = λ a b. ground (
          arith,
          v.free a b,
          lock_address-injective num_segments (future_id num_segments true num_cores core) a other
              segment,
        );
        ahead = λ d b. ground (arith, v.ahead d b);
        level = λ d b e. ground (arith, v.level d b e);
      }
    ]

  pub Step-Turn :
      {st t : Segments} (segment : ℕ)
      → segment < num_segments
      → Step true num_cores num_segments st t
      → Turn st segment
      → Turn t segment
  Step-Turn segment below (waits core other c o out free) v = waits-Turn below v core other c o free
  Step-Turn segment below (signals core other c o in') v = signals-Turn below v core other c o in'

  -- Every reachable state has a turn at every segment.
  pub Reach-Turn :
      {garbage : Locks} {st : Segments} (segment : ℕ)
      → 0 < num_cores
      → segment < num_segments
      → Reach true num_cores num_segments garbage st
      → Turn st segment
  Reach-Turn {garbage} segment pos below start = Turn-start garbage segment pos below
  Reach-Turn segment pos below (later r st) =
      Step-Turn segment below st (Reach-Turn segment pos below r)
