-- ===== src/Applicability/LoopCarried.antt =====
-- The two techniques for loops with loop-carried data dependences: the check that they share
-- (src/core/parallelization_technique/src/ParallelizationTechniqueForLoopsWithLoopCarriedDataDependences.cpp),
-- HELIX::canBeAppliedToLoop (src/core/helix/src/HELIX_applicabilityGuard.cpp),
-- DSWP::canBeAppliedToLoop (src/core/dswp/src/DSWP.cpp), and the fraction of sequential code that
-- they compute (src/core/parallelization_technique/src/ParallelizationTechnique.cpp). The arithmetic
-- on floating-point numbers is exact here, and a comparison of a fraction with a zero denominator is
-- written out.
use gino.Base.{
  ℕ, ◌+◌, ◌*◌, ◌≤◌, ◌<◌, ◌≡◌, ◌≢◌, refl, ◌↔◌, ◌⊎◌, inl, inr, Bool, true, false, not, ◌&&◌, List, [],
  ◌∷◌, All, Any, leb, ltb, ◌==◌, if◌then◌else◌, arith, Bool-cases, contains, ==_iff, length, map,
}
use gino.Planner.Profiles.{Ratio, ratio_ltb}
use gino.Applicability.Sccs.{Scc}
use gino.Applicability.Clonable.{get_clonable_sccs}

-- What NOELLE tells of a loop: `instructions` says of each whether it is an invoke, `sccs` are the
-- internal nodes of the SCCDAG, `nodes` all of them.
pub record LoopShape : Type 0 where
  pub num_exits : ℕ
  pub instructions : List Bool
  pub insts_per_iteration : Ratio
  pub total_insts : ℕ
  pub sccs : List Scc
  pub nodes : List Scc

pub has_invoke : List Bool → Bool
has_invoke [] = false
has_invoke (i ∷ is) = if i then true else has_invoke is

-- The check of the parent class.
pub can_be_applied_base : LoopShape → Bool
unfolding has_invoke
can_be_applied_base l = if l.num_exits == 0 then false else not (has_invoke l.instructions)

-- The sizes of all SCCs and of the sequential ones, from which the fraction is taken.
unfoldable pub count_instructions : (Scc → Bool) → List Scc → ℕ × ℕ
count_instructions runs_sequentially [] = (0, 0)
count_instructions runs_sequentially (scc ∷ sccs) =
    let rest = count_instructions runs_sequentially sccs in
    (
      length scc.values + rest.0,
      (if runs_sequentially scc then length scc.values + rest.1 else rest.1),
    )

pub compute_sequential_fraction : (Scc → Bool) → List Scc → Ratio
unfolding count_instructions
compute_sequential_fraction runs_sequentially sccs = record {
  num = (count_instructions runs_sequentially sccs).1;
  den = (count_instructions runs_sequentially sccs).0;
}

-- `fraction >= num / den`; 0 / 0 is no number.
pub is_at_least : Ratio → ℕ → ℕ → Bool
is_at_least r num den = not (r.den == 0) && leb (num * r.den) (r.num * den)

-- `fraction < num / den`.
pub is_below : Ratio → ℕ → ℕ → Bool
is_below r num den = not (r.den == 0) && ltb (r.num * den) (num * r.den)

pub can_be_applied_helix : Bool → LoopShape → Bool
unfolding can_be_applied_base compute_sequential_fraction is_at_least
can_be_applied_helix force l =
    if not (can_be_applied_base l)
    then false
    else if force
    then true
    else not (
        ratio_ltb l.insts_per_iteration 20
        && is_at_least (compute_sequential_fraction Scc.is_loop_carried_unknown l.nodes) 1 5)

-- `clonable` is the member `clonableSCCs` of the technique, by the ids of the SCCs.
pub can_be_cloned : List ℕ → Scc → Bool
can_be_cloned clonable scc = contains clonable scc.id

module _ (insts : Scc → ℕ) where
  -- The loop over the SCCs, with the biggest one so far and whether a sequential one was found.
  -- `own` is the local set of the function.
  pub scan_sccs : List ℕ → List Scc → ℕ → Bool → ℕ × Bool
  scan_sccs own [] biggest found = (biggest, found)
  scan_sccs own (scc ∷ sccs) biggest found =
      scan_sccs own sccs (if ltb biggest (insts scc) then insts scc else biggest)
        (if contains own scc.id then found else true)

-- `biggest / total >= 0.8`; with a zero total the quotient is infinite, or no number.
pub is_imbalanced : ℕ → ℕ → Bool
is_imbalanced biggest total =
    if total == 0 then not (biggest == 0) else leb (8 * total) (biggest * 10)

module _ (innermost : ℕ → ℕ) (top_loop : ℕ) (insts : Scc → ℕ) where
  pub can_be_applied_dswp : List ℕ → Bool → LoopShape → Bool
  unfolding can_be_applied_base scan_sccs is_imbalanced compute_sequential_fraction is_below
  can_be_applied_dswp clonable force l =
      let scan =
        scan_sccs insts (map Scc.id (get_clonable_sccs innermost top_loop l.sccs)) l.sccs 0 false in
      if not (can_be_applied_base l)
      then false
      else if not scan.1
      then false
      else if force
      then true
      else if is_imbalanced scan.0 l.total_insts
      then false
      else not (
          ratio_ltb l.insts_per_iteration 20
          && is_below (compute_sequential_fraction (can_be_cloned clonable) l.nodes) 1 2)

has_invoke_lem : (is : List Bool) → (has_invoke is ≡ false) ↔ All (λ i. i ≡ false) is
unfolding has_invoke
has_invoke_lem [] = (λ e. tt, λ a. refl)
has_invoke_lem (i ∷ is) = (
  λ e. (ground arith, (has_invoke_lem is).0 (ground arith)),
  λ a. ground (arith, a.0, (has_invoke_lem is).1 a.1),
)

-- HELIX can be applied exactly when the loop has an exit and no invoke instruction, and
-- parallelization is forced, or an iteration has 20 instructions or more on average, or less than a
-- fifth of the loop's instructions are in SCCs that must be synchronized, or there are none at all.
pub can_be_applied_helix_iff :
    (force : Bool) (l : LoopShape)
    → (can_be_applied_helix force l ≡ true) ↔ (
        (l.num_exits ≢ 0)
        × All (λ is_invoke. is_invoke ≡ false) l.instructions
        × ((force ≡ true)
            ⊎ (20 * l.insts_per_iteration.den ≤ l.insts_per_iteration.num)
            ⊎ ((count_instructions Scc.is_loop_carried_unknown l.nodes).1 * 5
                < (count_instructions Scc.is_loop_carried_unknown l.nodes).0)
            ⊎ ((count_instructions Scc.is_loop_carried_unknown l.nodes).0 ≡ 0)))
unfolding can_be_applied_helix can_be_applied_base compute_sequential_fraction is_at_least
can_be_applied_helix_iff force l =
    let invokes = has_invoke_lem l.instructions in
    (
      λ e. (ground arith, invokes.0 (ground arith), ground arith),
      λ h. ground (arith, invokes.1 h.1),
    )

-- No SCC is sequential for a technique whose set of clonable SCCs is empty.
none_sequential : (sccs : List Scc) → (count_instructions (can_be_cloned []) sccs).1 ≡ 0
unfolding count_instructions can_be_cloned contains
none_sequential [] = refl
none_sequential (scc ∷ sccs) = none_sequential sccs

scan_sccs-found :
    (insts : Scc → ℕ) (own : List ℕ) (sccs : List Scc) (biggest : ℕ) (found : Bool)
    → ((scan_sccs insts own sccs biggest found).1 ≡ true)
      ↔ ((found ≡ true) ⊎ Any (λ scc. contains own scc.id ≡ false) sccs)
unfolding scan_sccs
scan_sccs-found insts own [] biggest found =
    (λ e. inl e, λ h. elim h [ inl e ↦ e | inr a ↦ elim a [ ] ])
scan_sccs-found insts own (scc ∷ sccs) biggest found =
    let next = if ltb biggest (insts scc) then insts scc else biggest in
    elim (Bool-cases (contains own scc.id)) [
      | inl clonable ↦
          let rest = scan_sccs-found insts own sccs next found in
          rw (clonable, scan_sccs) (λ e. ground (arith, rest.0 e), λ h. rest.1 (ground (arith, h)))
      | inr sequential ↦
          let rest = scan_sccs-found insts own sccs next true in
          rw (sequential, scan_sccs) (λ e. inr (inl refl), λ h. rest.1 (inl refl))
    ]

-- An SCC does not dominate a loop: it has less than 80 percent of the executed instructions, or none
-- at all where the loop has none.
abbrev pub IsMinor : ℕ → ℕ → Type 0
IsMinor total n = (10 * n < 8 * total) ⊎ ((total ≡ 0) × (n ≡ 0))

scan_sccs-IsMinor :
    (insts : Scc → ℕ) (own : List ℕ) (total : ℕ) (sccs : List Scc) (biggest : ℕ) (found : Bool)
    → IsMinor total (scan_sccs insts own sccs biggest found).0
      ↔ (IsMinor total biggest × All (λ scc. IsMinor total (insts scc)) sccs)
unfolding scan_sccs
scan_sccs-IsMinor insts own total [] biggest found = (λ m. (m, tt), λ h. h.0)
scan_sccs-IsMinor insts own total (scc ∷ sccs) biggest found =
    let next = if ltb biggest (insts scc) then insts scc else biggest in
    let rest =
      scan_sccs-IsMinor insts own total sccs next (if contains own scc.id then found else true) in
    (
      λ m.
          let (bound, others) = rest.0 m in
          (ground (arith, bound), (ground (arith, bound), others)),
      λ h. rest.1 (ground (arith, h.0, h.1.0), h.1.1),
    )

is_imbalanced_lem :
    (biggest total : ℕ) → (is_imbalanced biggest total ≡ false) ↔ IsMinor total biggest
unfolding is_imbalanced
is_imbalanced_lem biggest total = (λ e. ground (arith, ==_iff biggest 0), λ m. ground (arith, m))

-- The ids of the SCCs that the check itself finds to be clonable.
abbrev pub own_set : (ℕ → ℕ) → ℕ → LoopShape → List ℕ
own_set innermost top_loop l = map Scc.id (get_clonable_sccs innermost top_loop l.sccs)

module _ (innermost : ℕ → ℕ) (top_loop : ℕ) (insts : Scc → ℕ) where
  -- For a technique that is not forced and has not been applied yet, so that its set of clonable SCCs
  -- is empty, and a loop that has instructions: DSWP can be applied exactly when the loop has an exit
  -- and no invoke instruction, some SCC cannot be cloned, each SCC has less than 80 percent of the
  -- executed instructions of the loop (or none where the loop has none), and an iteration has 20
  -- instructions or more on average. The fraction of sequential code plays no role.
  pub can_be_applied_dswp-fresh :
      (l : LoopShape)
      → 0 < (count_instructions (can_be_cloned []) l.nodes).0
      → (can_be_applied_dswp innermost top_loop insts [] false l ≡ true) ↔ (
          (l.num_exits ≢ 0)
          × All (λ is_invoke. is_invoke ≡ false) l.instructions
          × Any (λ scc. contains (own_set innermost top_loop l) scc.id ≡ false) l.sccs
          × All (λ scc. IsMinor l.total_insts (insts scc)) l.sccs
          × (20 * l.insts_per_iteration.den ≤ l.insts_per_iteration.num))
  unfolding can_be_applied_dswp can_be_applied_base compute_sequential_fraction is_below
  can_be_applied_dswp-fresh l some_code =
      let own = own_set innermost top_loop l in
      let found = scan_sccs-found insts own l.sccs 0 false in
      let minor = scan_sccs-IsMinor insts own l.total_insts l.sccs 0 false in
      let balanced = is_imbalanced_lem (scan_sccs insts own l.sccs 0 false).0 l.total_insts in
      let start : IsMinor l.total_insts 0 = ground arith in
      let free = none_sequential l.nodes in
      let invokes = has_invoke_lem l.instructions in
      (
        λ e. (
          ground arith,
          invokes.0 (ground arith),
          elim (found.0 (ground arith)) [ inl none_yet ↦ absurd (ground arith) | inr any ↦ any ],
          (minor.0 (balanced.0 (ground arith))).1,
          ground (arith, free),
        ),
        λ h.
            let passed = invokes.1 h.1 in
            let even = balanced.1 (minor.1 (start, h.3)) in
            ground (arith, found.1 (inr h.2), passed, even),
      )
