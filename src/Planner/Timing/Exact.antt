-- ===== src/Planner/Timing/Exact.antt =====
-- What the timing model computes.
use native.Mathlib.Nat.{mul-div_cancel}
use gino.Base.{
  ap, ℕ, ◌-◌, ◌*◌, ◌/◌, ◌≤◌, ◌≡◌, ◌≢◌, true, List, [], ◌∷◌, some, ltb, All, if◌then◌else◌, arith,
}
use gino.Planner.Profiles.{Profiles}
use gino.Planner.Timing.{biggest_scc_time, get_time_in_critical_path, saved_by, get_time_saved}

biggest_scc_time-le :
    (p : Profiles) (sccs : List ℕ) (biggest : ℕ)
    → (biggest ≤ biggest_scc_time p sccs biggest)
      × All (λ scc. p.scc_instructions scc ≤ biggest_scc_time p sccs biggest) sccs
unfolding biggest_scc_time
biggest_scc_time-le p [] biggest = (omega arith, tt)
biggest_scc_time-le p (scc ∷ sccs) biggest =
    let rest =
      biggest_scc_time-le p sccs
        (if ltb biggest (p.scc_instructions scc) then p.scc_instructions scc else biggest) in
    (ground (arith, rest), (ground (arith, rest), rest.1))

biggest_scc_time-least :
    (p : Profiles) (sccs : List ℕ) (biggest bound : ℕ)
    → biggest ≤ bound
    → All (λ scc. p.scc_instructions scc ≤ bound) sccs
    → biggest_scc_time p sccs biggest ≤ bound
unfolding biggest_scc_time
biggest_scc_time-least p [] biggest bound h a = h
biggest_scc_time-least p (scc ∷ sccs) biggest bound h a =
    biggest_scc_time-least p sccs _ bound (ground arith) a.1

-- With profiles, the time of the critical path is the least bound of the times of the sequential
-- SCCs.
pub get_time_in_critical_path-least :
    (p : Profiles) (sccs : List ℕ)
    → p.is_available ≡ true
    → All (λ scc. p.scc_instructions scc ≤ get_time_in_critical_path p sccs) sccs
      × ((bound : ℕ)
          → All (λ scc. p.scc_instructions scc ≤ bound) sccs
          → get_time_in_critical_path p sccs ≤ bound)
unfolding get_time_in_critical_path
get_time_in_critical_path-least p sccs h = rw h (
  (biggest_scc_time-le p sccs 0).1,
  λ bound a. biggest_scc_time-least p sccs 0 bound (omega arith) a,
)

saved_by_lem :
    (total seq iterations : ℕ)
    → iterations ≢ 0
    → seq ≤ total
    → saved_by (record { num = total; den = iterations }) seq iterations ≡ some (total - seq)
saved_by_lem total seq iterations h below =
    let split : total * iterations - seq * iterations ≡ (total - seq) * iterations = grind arith in
    let cancel : (total - seq) * iterations / iterations ≡ total - seq =
      mul-div_cancel (total - seq) (omega arith) in
    let fits : seq * iterations ≤ total * iterations = grind arith in
    ground (arith, ap (λ (t : ℕ). t / iterations) split)

-- If the average per iteration is the loop's instructions over its iterations, the time saved is
-- the instructions that are not on the critical path.
pub get_time_saved_lem :
    (p : Profiles) (l : ℕ) (sccs : List ℕ) (total : ℕ)
    → p.has_been_executed l ≡ true
    → p.iterations l ≢ 0
    → p.insts_per_iteration l ≡ record { num = total; den = p.iterations l }
    → get_time_in_critical_path p sccs ≤ total
    → get_time_saved p l sccs ≡ some (total - get_time_in_critical_path p sccs)
unfolding get_time_saved
get_time_saved_lem p l sccs total run some' avg h =
    rw (run, avg)
      (ground (arith, saved_by_lem total (get_time_in_critical_path p sccs) (p.iterations l)))
