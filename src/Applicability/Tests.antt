-- ===== src/Applicability/Tests.antt =====
-- The applicability of the techniques at concrete inputs.
use gino.Base.{
  All, ◌≢◌, ℕ, ◌*◌, ◌≤◌, ◌≡◌, ◌↔◌, Bool, true, false, List, [], ◌∷◌, none, some, Any, contains,
  arith,
}
use gino.Planner.Profiles.{Profiles}
use gino.Applicability.Sccs.{phi, plain, Scc}
use gino.Applicability.Doall.{LoopFacts, something, call_of_exit}
use gino.Applicability.LoopCarried.{
  LoopShape, count_instructions, can_be_applied_dswp, can_be_applied_dswp-fresh, IsMinor, own_set,
}
use gino.Applicability.Marks.{export_doall_metadata}

abbrev never : ℕ → ℕ → Bool
never i j = false

-- A sum over the iterations of which NOELLE knows no closed form.
abbrev unknown : Scc
unknown = record {
  id = 3;
  values = phi ∷ plain ∷ [];
  out_degree = 1;
  is_loop_iteration = false;
  is_induction_variable = false;
  is_loop_carried_unknown = true;
  is_unknown_closed_form = false;
  has_memory_dependences_within = true;
  loop_carried_dependences =
      record { is_control = false; is_memory = true; src = some 7; dst = some 8 } ∷ [];
}

abbrev facts : ℕ → LoopFacts
facts l = record {
  doall_mark = none;
  exit_blocks = something ∷ call_of_exit ∷ [];
  non_reducible_live_outs = true ∷ [];
  sccs_with_loop_carried_data_dependences = [];
  has_governing_induction_variable = true;
  is_step_invariant = true ∷ [];
  is_derivation_invariant = [];
}

-- Loop 4 is a DOALL one and loop 2 is not; later both look like `facts`.
abbrev found : List (ℕ × Bool)
found = (4, true) ∷ (2, false) ∷ []

abbrev marked_facts : ℕ → LoopFacts
marked_facts l = record (facts l) { doall_mark = export_doall_metadata (λ k. none) found l }

abbrev profiles : Profiles
profiles = record {
  is_available = true;
  has_been_executed = λ l. true;
  iterations = λ l. 100;
  insts_per_invocation = λ l. record { num = 2500; den = 1 };
  iterations_per_invocation = λ l. record { num = 25; den = 2 };
  insts_per_iteration = λ l. record { num = 5000; den = 100 };
  coverage = λ l. record { num = 1; den = 2 };
  scc_instructions = λ scc. 100;
  total_instructions = 10000;
}

-- A loop with 18 instructions per iteration, almost all of them in a sequential SCC.
abbrev short_loop : LoopShape
short_loop = record {
  num_exits = 1;
  instructions = false ∷ false ∷ [];
  insts_per_iteration = record { num = 18; den = 1 };
  total_insts = 1800;
  sccs = unknown ∷ [];
  nodes = unknown ∷ [];
}

can_be_applied_dswp-fresh_example :
    (can_be_applied_dswp (λ i. 0) 0 (λ scc. 900) [] false short_loop ≡ true) ↔ (
      (short_loop.num_exits ≢ 0)
      × All (λ is_invoke. is_invoke ≡ false) short_loop.instructions
      × Any (λ scc. contains (own_set (λ i. 0) 0 short_loop) scc.id ≡ false) short_loop.sccs
      × All (λ scc. IsMinor 1800 900) short_loop.sccs
      × (20 * 1 ≤ 18))
unfolding count_instructions
can_be_applied_dswp-fresh_example =
    can_be_applied_dswp-fresh (λ i. 0) 0 (λ scc. 900) short_loop (omega arith)
