-- ===== src/Planner/Filter.antt =====
-- Planner::removeLoopsNotWorthParallelizing
-- (src/core/parallelization_planner/src/LoopSelector.cpp).
use gino.Base.{ℕ, ◌*◌, ◌≤◌, ◌≡◌, ◌≢◌, ◌↔◌, Bool, true, false, ◌==◌, if◌then◌else◌, arith}
use gino.Planner.Profiles.{Ratio, ratio_ltb, Profiles}

abbrev pub insts_per_invocation_threshold : ℕ
insts_per_invocation_threshold = 2000

abbrev pub iterations_threshold : ℕ
iterations_threshold = 12

-- The coverage is multiplied by 100 before it is compared with the minimum hotness, 0.
abbrev hotness : Ratio → Ratio
hotness r = record r { num = r.num * 100 }

-- The filter: whether a loop is to be removed.
pub is_not_worth : Profiles → ℕ → Bool
is_not_worth p l =
    if p.iterations l == 0
    then true
    else if ratio_ltb (p.insts_per_invocation l) insts_per_invocation_threshold
    then true
    else if ratio_ltb (p.iterations_per_invocation l) iterations_threshold
    then true
    else ratio_ltb (hotness (p.coverage l)) 0

-- `filterOutLoops` is a function of NOELLE, a parameter.
pub remove_loops :
    {Forest : Type 0} → (Forest → (ℕ → Bool) → Forest) → Bool → Profiles → Forest → Forest
unfolding is_not_worth
remove_loops filter_out_loops force p forest =
    if force then forest else filter_out_loops forest (is_not_worth p)

-- A loop is kept exactly when it was executed, with at least 2000 instructions and 12 iterations
-- per invocation on average; the test of its hotness never removes a loop.
pub is_not_worth_iff :
    (p : Profiles) (l : ℕ)
    → (is_not_worth p l ≡ false) ↔ (
        (p.iterations l ≢ 0)
        × (insts_per_invocation_threshold * (p.insts_per_invocation l).den
            ≤ (p.insts_per_invocation l).num)
        × (iterations_threshold * (p.iterations_per_invocation l).den
            ≤ (p.iterations_per_invocation l).num))
unfolding is_not_worth
is_not_worth_iff p l = ground arith
