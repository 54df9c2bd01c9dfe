-- ===== src/Applicability/Clonable.antt =====
-- DSWP::getClonableSCCs (src/core/dswp/src/DSWP_clonableSCCs.cpp): the SCCs that every stage of a
-- pipeline may compute for itself.
use gino.Base.{
  ℕ, ◌≡◌, refl, ◌↔◌, ◌⊎◌, inl, inr, Bool, true, false, not, ◌&&◌, ◌||◌, List, [], ◌∷◌, Option, none,
  some, filter, is_true, All, ltb, ◌==◌, ◌<◌, if◌then◌else◌, arith, Bool-cases, subst, sym,
}
use gino.Applicability.Sccs.{
  ValueKind, cmp, terminator, phi, get_element_ptr, cast, no_instruction, Dependence, Scc,
}

-- The inner test of the loop over the values of an SCC.
pub is_terminator_or_cmp : ValueKind → Bool
is_terminator_or_cmp cmp = true
is_terminator_or_cmp terminator = true
is_terminator_or_cmp no_instruction = true
is_terminator_or_cmp _ = false

pub has_only_terminators : List ValueKind → Bool
unfolding is_terminator_or_cmp
has_only_terminators [] = true
has_only_terminators (v ∷ vs) = is_terminator_or_cmp v && has_only_terminators vs

pub is_no_computation : ValueKind → Bool
is_no_computation phi = true
is_no_computation get_element_ptr = true
is_no_computation cast = true
is_no_computation _ = false

-- `begin_internal_node_map` of an SCC with one internal value.
pub is_single_no_computation : List ValueKind → Bool
unfolding is_no_computation
is_single_no_computation (v ∷ []) = is_no_computation v
is_single_no_computation _ = false

-- `innermost` is the innermost loop that contains an instruction. The code asserts that both ends of
-- a dependence are instructions.
module _ (innermost : ℕ → ℕ) (top_loop : ℕ) where
  pub is_in_top_loop : Option ℕ → Bool
  is_in_top_loop none = false
  is_in_top_loop (some i) = innermost i == top_loop

  pub are_fully_contained : List Dependence → Bool
  unfolding is_in_top_loop
  are_fully_contained [] = true
  are_fully_contained (d ∷ ds) =
      not (is_in_top_loop d.src || is_in_top_loop d.dst) && are_fully_contained ds

  -- The body of the loop over the SCCs.
  pub is_clonable : Scc → Bool
  unfolding has_only_terminators is_single_no_computation are_fully_contained
  is_clonable scc =
      if has_only_terminators scc.values
      then true
      else if ltb 0 scc.out_degree
      then (if is_single_no_computation scc.values
          then true
          else if not scc.has_memory_dependences_within
          then (if scc.is_loop_iteration
              then true
              else are_fully_contained scc.loop_carried_dependences)
          else false)
      else false

  pub get_clonable_sccs : List Scc → List Scc
  unfolding is_clonable
  get_clonable_sccs sccs = filter (λ scc. is_true (is_clonable scc)) sccs

  abbrev pub StaysInSubLoops : Dependence → Type 0
  StaysInSubLoops d = (is_in_top_loop d.src ≡ false) × (is_in_top_loop d.dst ≡ false)

  contained→stays : (ds : List Dependence) → are_fully_contained ds ≡ true → All StaysInSubLoops ds
  unfolding are_fully_contained
  contained→stays [] e = tt
  contained→stays (d ∷ ds) e = ((ground arith, ground arith), contained→stays ds (ground arith))

  stays→contained : (ds : List Dependence) → All StaysInSubLoops ds → are_fully_contained ds ≡ true
  unfolding are_fully_contained
  stays→contained [] a = refl
  stays→contained (d ∷ ds) a = ground (arith, a.0, stays→contained ds a.1)

  only→All :
      (vs : List ValueKind)
      → has_only_terminators vs ≡ true
      → All (λ v. is_terminator_or_cmp v ≡ true) vs
  unfolding has_only_terminators
  only→All [] e = tt
  only→All (v ∷ vs) e = (ground arith, only→All vs (ground arith))

  All→only :
      (vs : List ValueKind)
      → All (λ v. is_terminator_or_cmp v ≡ true) vs
      → has_only_terminators vs ≡ true
  unfolding has_only_terminators
  All→only [] a = refl
  All→only (v ∷ vs) a = ground (arith, a.0, All→only vs a.1)

  -- The two reasons for which an SCC that others depend on can be cloned.
  abbrev pub IsCheap : Scc → Type 0
  IsCheap scc =
      ((v : ValueKind) × (scc.values ≡ v ∷ []) × (is_no_computation v ≡ true))
      ⊎ ((scc.has_memory_dependences_within ≡ false)
          × ((scc.is_loop_iteration ≡ true) ⊎ All StaysInSubLoops scc.loop_carried_dependences))

  single_iff :
      (vs : List ValueKind)
      → (is_single_no_computation vs ≡ true)
        ↔ ((v : ValueKind) × (vs ≡ v ∷ []) × (is_no_computation v ≡ true))
  unfolding is_single_no_computation
  single_iff vs = (single→ vs, λ h. subst (λ ws. is_single_no_computation ws ≡ true) (sym h.1) h.2)
    where
      single→ :
          (ws : List ValueKind)
          → is_single_no_computation ws ≡ true
          → (v : ValueKind) × (ws ≡ v ∷ []) × (is_no_computation v ≡ true)
      single→ [] e = absurd (ground arith)
      single→ (v ∷ []) e = (v, refl, e)
      single→ (v ∷ w ∷ ws) e = absurd (ground arith)

  -- An SCC can be cloned exactly when all its instructions are comparisons and terminators, or
  -- others depend on it and it is a single instruction that computes nothing, or has no memory
  -- dependences within and carries dependences over the iterations of sub-loops only, if any.
  pub is_clonable_iff :
      (scc : Scc)
      → (is_clonable scc ≡ true) ↔ (
          All (λ v. is_terminator_or_cmp v ≡ true) scc.values
          ⊎ ((0 < scc.out_degree) × IsCheap scc))
  unfolding is_clonable
  is_clonable_iff scc = (clonable→, →clonable)
    where
      clonable→ :
          is_clonable scc ≡ true
          → All (λ v. is_terminator_or_cmp v ≡ true) scc.values
            ⊎ ((0 < scc.out_degree) × IsCheap scc)
      clonable→ e = elim (Bool-cases (has_only_terminators scc.values)) [
        | inl only ↦ inl (only→All scc.values only)
        | inr others ↦ inr (
          ground arith,
          elim (Bool-cases (is_single_no_computation scc.values)) [
            | inl single ↦ inl ((single_iff scc.values).0 single)
            | inr several ↦ inr (
              ground arith,
              elim (Bool-cases scc.is_loop_iteration) [
                | inl once ↦ inl once
                | inr carried ↦ inr (contained→stays scc.loop_carried_dependences (ground arith))
              ],
            )
          ],
        )
      ]

      →clonable :
          All (λ v. is_terminator_or_cmp v ≡ true) scc.values ⊎ ((0 < scc.out_degree) × IsCheap scc)
          → is_clonable scc ≡ true
      →clonable (inl only) = ground (arith, All→only scc.values only)
      →clonable (inr (used, inl single)) = ground (arith, (single_iff scc.values).1 single)
      →clonable (inr (used, inr (pure, inl once))) = ground arith
      →clonable (inr (used, inr (pure, inr stays))) =
          ground (arith, stays→contained scc.loop_carried_dependences stays)
