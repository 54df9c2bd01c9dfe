-- ===== src/Runtime/Helix/Order.antt =====
-- What the ring of sequential segments gives a HELIX loop.
use gino.Base.{ℕ, ◌+◌, ◌*◌, ◌≤◌, ◌<◌, ◌≡◌, ◌≢◌, ◌↔◌, ◌⊎◌, true, false, arith, dec_lt}
use gino.Runtime.Helix.{Locks, past_id, lock_address, Segments, Reach}
use gino.Runtime.Helix.Ring.{Turn, past_id_lem, Reach-Turn}

-- Iteration `k` of core `d`, among all iterations of the loop.
abbrev pub iteration : ℕ → ℕ → ℕ → ℕ
iteration num_cores d k = k * num_cores + d

mul_mono : (k l n : ℕ) → k ≤ l → k * n ≤ l * n
mul_mono k l n h = grind arith

-- Of the iterations of core `d`, those before round `lap` of core `c` are the first `lap`, and one
-- more if `d` comes before `c`.
iteration_lt :
    (n c d k rounds lap : ℕ)
    → d < n
    → c < n
    → (d < c → rounds ≡ lap + 1)
    → (c ≤ d → rounds ≡ lap)
    → (k < rounds) ↔ (iteration n d k < iteration n c lap)
iteration_lt n c d k rounds lap p q before after = elim (dec_lt d c) [
  | yes less ↦ (
    λ h. omega (arith, before less, mul_mono k lap n (omega (arith, before less))),
    λ h. elim (dec_lt k rounds) [
      | yes done ↦ done
      | no more ↦
          absurd (omega (arith, before less, mul_mono (lap + 1) k n (omega (arith, before less))))
    ],
  )
  | no not_less ↦ (
    λ h.
        omega
          (arith, after (omega arith), mul_mono (k + 1) lap n (omega (arith, after (omega arith)))),
    λ h. elim (dec_lt k rounds) [
      | yes done ↦ done
      | no more ↦ absurd (
          omega (arith, after (omega arith), mul_mono lap k n (omega (arith, after (omega arith)))))
    ],
  )
]

module _ (num_cores num_segments : ℕ) where
  -- With one array for each core, the iterations pass a segment in the order of the loop: while a
  -- core is inside, exactly the iterations before its own have left the segment.
  pub segments_in_order :
      {garbage : Locks} {st : Segments} (segment core : ℕ)
      → segment < num_segments
      → core < num_cores
      → Reach true num_cores num_segments garbage st
      → st.inside core segment ≡ true
      → (d k : ℕ) → d < num_cores
      → (k < st.rounds d segment)
        ↔ (iteration num_cores d k < iteration num_cores core (st.rounds core segment))
  segments_in_order {st = st} segment core s c r in' d k below =
      iteration_lt num_cores core d k (st.rounds d segment) (st.rounds core segment) below c
        (λ less. ground (arith, v.ahead d, v.level core, turn))
        (λ more. ground (arith, v.level d, v.level core, turn))
    where
      v : Turn num_cores num_segments st segment
      v = Reach-Turn num_cores num_segments segment (omega arith) s r

      turn : core ≡ v.holder
      turn = ground (arith, v.outside core c)

  -- With one array for each core, while a core is inside a segment no other core is.
  pub segment_exclusive :
      {garbage : Locks} {st : Segments} (segment a b : ℕ)
      → segment < num_segments
      → a < num_cores
      → b < num_cores
      → Reach true num_cores num_segments garbage st
      → st.inside a segment ≡ true
      → a ≢ b
      → st.inside b segment ≡ false
  segment_exclusive segment a b s p q r in_a other =
      let v = Reach-Turn num_cores num_segments segment (omega arith) s r in
      ground (arith, v.outside a p, v.outside b q)

  -- With one array for each core, at every segment some core can move: it is inside and may signal, or it is outside and the lock
  -- that it waits on is free.
  pub segment_progress :
      {garbage : Locks} {st : Segments} (segment : ℕ)
      → segment < num_segments
      → 0 < num_cores
      → Reach true num_cores num_segments garbage st
      → (core : ℕ) × (core < num_cores)
        × ((st.inside core segment ≡ true)
            ⊎ (st.locks
                  (lock_address num_segments (past_id num_segments true num_cores core) segment)
                ≡ false))
  segment_progress {st = st} segment s pos r = (
    v.holder,
    v.held,
    ground (arith, v.free v.holder v.held, past_id_lem num_cores num_segments v.holder v.held),
  )
    where
      v : Turn num_cores num_segments st segment
      v = Reach-Turn num_cores num_segments segment pos s r
