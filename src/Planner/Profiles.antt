-- ===== src/Planner/Profiles.antt =====
-- What the planner asks of NOELLE's profiles (`Hot`), the parameter of its timing model.
use gino.Base.{ℕ, ◌*◌, Bool, ltb}

-- A finite `double` that is not negative, as an exact fraction.
pub record Ratio : Type 0 where
  pub num : ℕ
  pub den : ℕ

-- Comparison of a fraction with a whole number, `r < k`.
abbrev pub ratio_ltb : Ratio → ℕ → Bool
ratio_ltb r k = ltb r.num (k * r.den)

-- Loops and SCCs are numbers. The averages are `double`s, the counts `uint64_t`s.
pub record Profiles : Type 0 where
  pub is_available : Bool
  pub has_been_executed : ℕ → Bool
  pub iterations : ℕ → ℕ
  pub insts_per_invocation : ℕ → Ratio
  pub iterations_per_invocation : ℕ → Ratio
  pub insts_per_iteration : ℕ → Ratio
  pub coverage : ℕ → Ratio
  pub scc_instructions : ℕ → ℕ
  pub total_instructions : ℕ
