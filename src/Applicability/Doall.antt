-- ===== src/Applicability/Doall.antt =====
-- DOALL::canBeAppliedToLoop (src/core/doall/src/DOALL_applicabilityGuard.cpp).
use gino.Base.{
  ℕ, ◌≡◌, refl, ◌↔◌, inl, inr, suc, Bool, true, false, not, ◌&&◌, List, [], ◌∷◌, Option, none, some,
  All, ◌==◌, if◌then◌else◌, arith, Bool-cases,
}
use gino.Applicability.Sccs.{Scc, blocks_doall, get_sccs_that_block_doall}

-- The value of the metadata "gino.doall": "yes", "no" or another text.
pub data DoallMark : Type 0 where
  yes_mark no_mark other_mark : DoallMark

-- What stands before the terminator of an exit block.
pub data LastInstruction : Type 0 where
  nothing call_of_exit something : LastInstruction

-- What NOELLE tells of a loop. A live-out variable that is not reducible is given as whether its
-- SCC is one of an induction variable.
pub record LoopFacts : Type 0 where
  pub doall_mark : Option DoallMark
  pub exit_blocks : List LastInstruction
  pub non_reducible_live_outs : List Bool
  pub sccs_with_loop_carried_data_dependences : List Scc
  pub has_governing_induction_variable : Bool
  pub is_step_invariant : List Bool
  pub is_derivation_invariant : List Bool

unfoldable pub count_exits : List LastInstruction → ℕ
count_exits [] = 0
count_exits (call_of_exit ∷ es) = count_exits es
count_exits (nothing ∷ es) = suc (count_exits es)
count_exits (something ∷ es) = suc (count_exits es)

unfoldable pub live_outs_that_require_synchronizations : List Bool → List Bool
live_outs_that_require_synchronizations [] = []
live_outs_that_require_synchronizations (is_iv ∷ vs) =
    let rest = live_outs_that_require_synchronizations vs in if is_iv then rest else is_iv ∷ rest

-- A loop that returns at the first entry that is not invariant.
unfoldable pub are_all_invariant : List Bool → Bool
are_all_invariant [] = true
are_all_invariant (i ∷ is) = i && are_all_invariant is

unfoldable pub is_empty {ℓ} : {A : Type ℓ} → List A → Bool
is_empty [] = true
is_empty (x ∷ xs) = false

module _ (disjoint : ℕ → ℕ → Bool) where
  -- The part after the metadata is read.
  unfoldable pub check_loop : LoopFacts → Bool
  unfolding count_exits live_outs_that_require_synchronizations are_all_invariant is_empty
  check_loop l =
      if not (count_exits l.exit_blocks == 1)
      then false
      else if not (is_empty (live_outs_that_require_synchronizations l.non_reducible_live_outs))
      then false
      else if not
          (is_empty (get_sccs_that_block_doall disjoint l.sccs_with_loop_carried_data_dependences))
      then false
      else if not l.has_governing_induction_variable
      then false
      else if not (are_all_invariant l.is_step_invariant)
      then false
      else are_all_invariant l.is_derivation_invariant

  unfoldable pub can_be_applied_doall : LoopFacts → Bool
  unfolding check_loop
  can_be_applied_doall l = elim l.doall_mark [
    | some yes_mark ↦ true
    | some no_mark ↦ false
    | some other_mark ↦ check_loop l
    | none ↦ check_loop l
  ]

is_empty_live_outs :
    (vs : List Bool)
    → (is_empty (live_outs_that_require_synchronizations vs) ≡ true)
      ↔ All (λ is_iv. is_iv ≡ true) vs
unfolding is_empty live_outs_that_require_synchronizations
is_empty_live_outs [] = (λ e. tt, λ a. refl)
is_empty_live_outs (true ∷ vs) =
    (λ e. (refl, (is_empty_live_outs vs).0 e), λ a. (is_empty_live_outs vs).1 a.1)
is_empty_live_outs (false ∷ vs) = (λ e. absurd (ground arith), λ a. absurd (ground (arith, a.0)))

are_all_invariant_lem : (is : List Bool) → (are_all_invariant is ≡ true) ↔ All (λ i. i ≡ true) is
unfolding are_all_invariant
are_all_invariant_lem [] = (λ e. tt, λ a. refl)
are_all_invariant_lem (i ∷ is) = (
  λ e. (ground arith, (are_all_invariant_lem is).0 (ground arith)),
  λ a. ground (arith, a.0, (are_all_invariant_lem is).1 a.1),
)

module _ (disjoint : ℕ → ℕ → Bool) where
  is_empty_blocking :
      (sccs : List Scc)
      → (is_empty (get_sccs_that_block_doall disjoint sccs) ≡ true)
        ↔ All (λ scc. blocks_doall disjoint scc ≡ false) sccs
  unfolding is_empty get_sccs_that_block_doall
  is_empty_blocking [] = (λ e. tt, λ a. refl)
  is_empty_blocking (scc ∷ sccs) = (
    λ e. elim (Bool-cases (blocks_doall disjoint scc)) [
      | inl blocks ↦ absurd (ground arith)
      | inr free ↦ (free, (is_empty_blocking sccs).0 (ground arith))
    ],
    λ a. ground (arith, a.0, (is_empty_blocking sccs).1 a.1),
  )

  -- A loop without a mark is a DOALL one exactly when one exit block does not end in a call of
  -- `exit`, each live-out variable that is not reducible is an induction variable, no SCC blocks
  -- DOALL, an induction variable governs the loop, and the steps of all induction variables and the
  -- values that the governing one is compared with are loop invariants.
  pub can_be_applied_doall_iff :
      (l : LoopFacts)
      → l.doall_mark ≡ none
      → (can_be_applied_doall disjoint l ≡ true) ↔ (
          (count_exits l.exit_blocks ≡ 1)
          × All (λ is_iv. is_iv ≡ true) l.non_reducible_live_outs
          × All (λ scc. blocks_doall disjoint scc ≡ false) l.sccs_with_loop_carried_data_dependences
          × (l.has_governing_induction_variable ≡ true)
          × All (λ i. i ≡ true) l.is_step_invariant
          × All (λ i. i ≡ true) l.is_derivation_invariant)
  unfolding can_be_applied_doall check_loop
  can_be_applied_doall_iff l unmarked =
      rw (unmarked, can_be_applied_doall)
        (
          λ e. (
            ground arith,
            (is_empty_live_outs l.non_reducible_live_outs).0 (ground arith),
            (is_empty_blocking l.sccs_with_loop_carried_data_dependences).0 (ground arith),
            ground arith,
            (are_all_invariant_lem l.is_step_invariant).0 (ground arith),
            (are_all_invariant_lem l.is_derivation_invariant).0 (ground arith),
          ),
          λ h. ground (
            arith,
            (is_empty_live_outs l.non_reducible_live_outs).1 h.1,
            (is_empty_blocking l.sccs_with_loop_carried_data_dependences).1 h.2,
            (are_all_invariant_lem l.is_step_invariant).1 h.4,
            (are_all_invariant_lem l.is_derivation_invariant).1 h.5,
          ),
        )
