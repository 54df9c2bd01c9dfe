-- ===== src/Applicability/Sccs.antt =====
-- The strongly connected components of a loop's dependence graph, as NOELLE describes them to the
-- techniques, and DOALL::getSCCsThatBlockDOALLToBeApplicable (src/core/doall/src/DOALL_analysis.cpp)
-- and DSWP::getClonableSCCs (src/core/dswp/src/DSWP_clonableSCCs.cpp) over them.
use gino.Base.{
  ℕ, ◌≡◌, ◌↔◌, ◌⊎◌, inl, inr, Bool, true, false, not, ◌&&◌, List, [], ◌∷◌, Option, none, some, Any,
  if◌then◌else◌, arith, Bool-cases,
}

-- What an internal value of an SCC is; `plain` is any other instruction, and `no_instruction` a
-- value that is none.
pub data ValueKind : Type 0 where
  cmp terminator phi get_element_ptr cast plain no_instruction : ValueKind

-- The two ends of a dependence are numbers, or `none` where the value is no instruction.
pub record Dependence : Type 0 where
  pub is_control : Bool
  pub is_memory : Bool
  pub src : Option ℕ
  pub dst : Option ℕ

-- The flags are the classes of NOELLE that the SCC belongs to.
pub record Scc : Type 0 where
  pub id : ℕ
  pub values : List ValueKind
  pub out_degree : ℕ
  pub is_loop_iteration : Bool
  pub is_induction_variable : Bool
  pub is_loop_carried_unknown : Bool
  pub is_unknown_closed_form : Bool
  pub has_memory_dependences_within : Bool
  pub loop_carried_dependences : List Dependence

module _ (disjoint : ℕ → ℕ → Bool) where
  -- `disjoint` is the loop's iteration space analysis.
  pub is_disjoint : Dependence → Bool
  is_disjoint d = elim d.src [
    | none ↦ false
    | some from ↦ elim d.dst [ none ↦ false | some to ↦ disjoint from to ]
  ]

  -- The loop over the dependences of an SCC.
  pub are_all_disjoint : List Dependence → Bool
  unfolding is_disjoint
  are_all_disjoint [] = true
  are_all_disjoint (d ∷ ds) =
      let rest = are_all_disjoint ds in
      if d.is_control then rest else if not d.is_memory then false else is_disjoint d && rest

  pub blocks_doall : Scc → Bool
  unfolding are_all_disjoint
  blocks_doall scc =
      if not scc.is_loop_carried_unknown && not scc.is_unknown_closed_form
      then false
      else not (are_all_disjoint scc.loop_carried_dependences)

  -- `sccs` are those with loop-carried data dependences.
  unfoldable pub get_sccs_that_block_doall : List Scc → List Scc
  unfolding blocks_doall
  get_sccs_that_block_doall [] = []
  get_sccs_that_block_doall (scc ∷ sccs) =
      let rest = get_sccs_that_block_doall sccs in if blocks_doall scc then scc ∷ rest else rest

  -- A dependence that DOALL cannot ignore.
  abbrev pub IsCarried : Dependence → Type 0
  IsCarried d = (d.is_control ≡ false) × ((d.is_memory ≡ false) ⊎ (is_disjoint d ≡ false))

  are_all_disjoint-Any : (ds : List Dependence) → are_all_disjoint ds ≡ false → Any IsCarried ds
  unfolding are_all_disjoint
  are_all_disjoint-Any [] e = absurd (ground arith)
  are_all_disjoint-Any (d ∷ ds) e = elim (Bool-cases (are_all_disjoint ds)) [
    | inl rest ↦ inl (ground arith)
    | inr rest ↦ inr (are_all_disjoint-Any ds rest)
  ]

  Any-are_all_disjoint : (ds : List Dependence) → Any IsCarried ds → are_all_disjoint ds ≡ false
  unfolding are_all_disjoint
  Any-are_all_disjoint [] a = elim a [ ]
  Any-are_all_disjoint (d ∷ ds) (inl c) = ground (arith, c)
  Any-are_all_disjoint (d ∷ ds) (inr a) = ground (arith, Any-are_all_disjoint ds a)

  -- An SCC blocks DOALL exactly when NOELLE knows no closed form for it and it has a loop-carried
  -- data dependence that is not between two instructions that access disjoint memory in different
  -- iterations.
  pub blocks_doall_iff :
      (scc : Scc)
      → (blocks_doall scc ≡ true) ↔ (
          ((scc.is_loop_carried_unknown ≡ true) ⊎ (scc.is_unknown_closed_form ≡ true))
          × Any IsCarried scc.loop_carried_dependences)
  unfolding blocks_doall
  blocks_doall_iff scc = (
    λ e. (ground arith, are_all_disjoint-Any scc.loop_carried_dependences (ground arith)),
    λ h. ground (arith, Any-are_all_disjoint scc.loop_carried_dependences h.1),
  )
