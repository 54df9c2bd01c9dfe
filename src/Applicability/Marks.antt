-- ===== src/Applicability/Marks.antt =====
-- What the planner and DOALL's check share: Planner::exportDoallMetadata
-- (src/core/parallelization_planner/src/LoopSelector.cpp), and the SCCs from which the timing model
-- of the planner takes the critical path of a loop.
use gino.Base.{
  ℕ, ◌≡◌, ◌≢◌, refl, ◌∙◌, ap, Bool, true, false, List, [], ◌∷◌, Option, none, some, All, arith, map,
  if◌then◌else◌, update,
}
use gino.Planner.Profiles.{Profiles}
use gino.Planner.Timing.{get_time_in_critical_path, biggest_scc_time, get_time_saved}
use gino.Planner.Timing.Exact.{get_time_saved_lem}
use gino.Applicability.Sccs.{Scc, blocks_doall, get_sccs_that_block_doall}
use gino.Applicability.Doall.{
  LoopFacts, DoallMark, yes_mark, no_mark, can_be_applied_doall, can_be_applied_doall_iff,
}

-- The metadata of all loops; an entry of `loops` is a loop and whether DOALL can be applied to it.
pub export_doall_metadata : (ℕ → Option DoallMark) → List (ℕ × Bool) → ℕ → Option DoallMark
export_doall_metadata metadata [] = metadata
export_doall_metadata metadata ((l, is_doall) ∷ loops) =
    export_doall_metadata (update metadata l (some (if is_doall then yes_mark else no_mark))) loops

-- The keys of a map are distinct.
abbrev pub AreKeys : List (ℕ × Bool) → Type 0
AreKeys [] = Unit
AreKeys ((l, b) ∷ loops) = All (λ e. e.0 ≢ l) loops × AreKeys loops

export-others :
    (metadata : ℕ → Option DoallMark) (loops : List (ℕ × Bool)) (l : ℕ)
    → All (λ e. e.0 ≢ l) loops
    → export_doall_metadata metadata loops l ≡ metadata l
unfolding export_doall_metadata
export-others metadata [] l a = refl
export-others metadata ((k, b) ∷ loops) l a =
    export-others (update metadata k (some (if b then yes_mark else no_mark))) loops l a.1
    ∙ ground (arith, a.0)

none_critical : (p : Profiles) → get_time_in_critical_path p [] ≡ 0
unfolding get_time_in_critical_path biggest_scc_time
none_critical p = ground arith

module _ (disjoint : ℕ → ℕ → Bool) (facts : ℕ → LoopFacts) where
  -- Once the planner has exported which loops are DOALL ones, the check answers for each of them what
  -- the planner found, whatever else has changed about the loop in the meantime.
  pub can_be_applied_doall-export_doall_metadata :
      (metadata : ℕ → Option DoallMark) (loops : List (ℕ × Bool))
      → AreKeys loops
      → ((l : ℕ) → (facts l).doall_mark ≡ export_doall_metadata metadata loops l)
      → All (λ e. can_be_applied_doall disjoint (facts e.0) ≡ e.1) loops
  unfolding export_doall_metadata can_be_applied_doall
  can_be_applied_doall-export_doall_metadata metadata [] keys marked = tt
  can_be_applied_doall-export_doall_metadata metadata ((l, b) ∷ loops) keys marked = (
    ground (
      arith,
      marked l,
      export-others (update metadata l (some (if b then yes_mark else no_mark))) loops l keys.0,
    ),
    can_be_applied_doall-export_doall_metadata
        (update metadata l (some (if b then yes_mark else no_mark))) loops keys.1 marked,
  )

  no_blocking :
      (sccs : List Scc)
      → All (λ scc. blocks_doall disjoint scc ≡ false) sccs
      → get_sccs_that_block_doall disjoint sccs ≡ []
  unfolding get_sccs_that_block_doall
  no_blocking [] a = refl
  no_blocking (scc ∷ sccs) a = ground (arith, a.0, no_blocking sccs a.1)

  -- The planner expects a DOALL loop without a mark to have nothing on its critical path: all
  -- instructions of the loop are saved.
  pub get_time_saved-doall :
      (p : Profiles) (l total : ℕ)
      → (facts l).doall_mark ≡ none
      → can_be_applied_doall disjoint (facts l) ≡ true
      → p.has_been_executed l ≡ true
      → p.iterations l ≢ 0
      → p.insts_per_iteration l ≡ record { num = total; den = p.iterations l }
      → get_time_saved p l (
          map Scc.id
            (get_sccs_that_block_doall disjoint (facts l).sccs_with_loop_carried_data_dependences))
        ≡ some total
  get_time_saved-doall p l total unmarked applies executed iterates average =
      let checked = (can_be_applied_doall_iff disjoint (facts l) unmarked).0 applies in
      let empty = no_blocking (facts l).sccs_with_loop_carried_data_dependences checked.2 in
      rw empty (
        get_time_saved_lem p l [] total executed iterates average (omega (arith, none_critical p))
        ∙ ap some (omega (arith, none_critical p)))
