-- ===== src/Planner/Timing.antt =====
-- LoopTimingModel (src/core/parallelization_planner/src/TimingModel.cpp): the time that
-- parallelizing a loop saves. The arithmetic on `double`s is exact here.
pub mod Exact
use gino.Base.{
  ℕ, ◌-◌, ◌*◌, ◌/◌, Bool, true, false, not, List, [], ◌∷◌, Option, none, some, ltb, leb, ◌==◌,
  if◌then◌else◌,
}
use gino.Planner.Profiles.{Ratio, Profiles}

-- The loop over the sequential SCCs, with the biggest time so far.
unfoldable pub biggest_scc_time : Profiles → List ℕ → ℕ → ℕ
biggest_scc_time p [] biggest = biggest
biggest_scc_time p (scc ∷ sccs) biggest =
    biggest_scc_time p sccs
      (if ltb biggest (p.scc_instructions scc) then p.scc_instructions scc else biggest)

-- `sequential_sccs` is what DOALL::getSCCsThatBlockDOALLToBeApplicable gives for the loop.
unfoldable pub get_time_in_critical_path : Profiles → List ℕ → ℕ
unfolding biggest_scc_time
get_time_in_critical_path p sequential_sccs =
    if p.is_available then biggest_scc_time p sequential_sccs 0 else 0

-- (insts - seq / iterations) * iterations, cut to a whole number; `none` where the assertion
-- seq / iterations <= insts fails, as it does for 0 iterations.
abbrev pub saved_by : Ratio → ℕ → ℕ → Option ℕ
saved_by insts seq iterations =
    if iterations == 0
    then none
    else if leb (seq * insts.den) (insts.num * iterations)
    then some ((insts.num * iterations - seq * insts.den) / insts.den)
    else none

pub get_time_saved : Profiles → ℕ → List ℕ → Option ℕ
get_time_saved p l sequential_sccs =
    if not (p.has_been_executed l)
    then some 0
    else if (p.insts_per_iteration l).num == 0
    then some 0
    else saved_by (p.insts_per_iteration l) (get_time_in_critical_path p sequential_sccs)
        (p.iterations l)
