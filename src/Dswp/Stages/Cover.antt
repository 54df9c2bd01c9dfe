-- ===== src/Dswp/Stages/Cover.antt =====
-- A valid stage structure has each SCC that cannot be cloned in exactly one stage.
use gino.Base.{
  ℕ, suc, ◌+◌, ◌≤◌, ◌≡◌, refl, ◌↔◌, ◌⊎◌, inl, inr, Bool, true, false, List, [], ◌∷◌, ◌++◌, none,
  some, contains, contains-append, Any, All-Any, All-map, subst, if◌then◌else◌, ◌==◌, ==_iff, arith,
  Bool-cases, Option-cases, All,
}
use gino.Dswp.Stages.{StageSccs, add_stage_sccs, add_stages, are_all_present, is_complete_and_valid}

-- How often an SCC stands in the lists of the stages.
count : ℕ → List ℕ → ℕ
count x [] = 0
count x (y ∷ ys) = let rest = count x ys in if y == x then suc rest else rest

pub count_stages : ℕ → List StageSccs → ℕ
unfolding count
count_stages x [] = 0
count_stages x (stage ∷ stages) = count x stage.stage_sccs + count_stages x stages

bit : Bool → ℕ
bit b = if b then 1 else 0

module _ (can_be_cloned : ℕ → Bool) where
  -- The partitioner puts no clonable SCC into a stage, and addClonableSCCsToStages adds no other.
  abbrev pub AreSeparate : List StageSccs → Type 0
  AreSeparate stages =
      All
        (λ stage.
          All (λ x. can_be_cloned x ≡ false) stage.stage_sccs
          × All (λ x. can_be_cloned x ≡ true) stage.clonable_sccs)
        stages

  add_stage_sccs-count :
      (all sccs seen : List ℕ) (x : ℕ)
      → add_stage_sccs all sccs ≡ some seen
      → bit (contains seen x) ≡ bit (contains all x) + count x sccs
  unfolding add_stage_sccs count contains bit
  add_stage_sccs-count all [] seen x e = ground arith
  add_stage_sccs-count all (scc ∷ sccs) seen x e =
      ground (arith, add_stage_sccs-count (scc ∷ all) sccs seen x, ==_iff scc x)

  not_clonable :
      (xs : List ℕ) (x : ℕ)
      → can_be_cloned x ≡ false
      → All (λ y. can_be_cloned y ≡ true) xs
      → contains xs x ≡ false
  unfolding contains
  not_clonable [] x h a = refl
  not_clonable (y ∷ ys) x h a = ground (arith, a.0, not_clonable ys x h a.1, ==_iff y x)

  add_stages-count :
      (all : List ℕ) (stages : List StageSccs) (seen : List ℕ) (x : ℕ)
      → can_be_cloned x ≡ false
      → AreSeparate stages
      → add_stages all stages ≡ some seen
      → bit (contains seen x) ≡ bit (contains all x) + count_stages x stages
  unfolding add_stages count_stages bit
  add_stages-count all [] seen x h a e = ground arith
  add_stages-count all (stage ∷ stages) seen x h a e =
      elim (Option-cases (add_stage_sccs all stage.stage_sccs)) [
        | inl failed ↦ absurd (ground (arith, failed))
        | inr (own, done) ↦ ground (
          arith,
          done,
          add_stage_sccs-count all stage.stage_sccs own x done,
          not_clonable stage.clonable_sccs x h a.0.1,
          contains-append stage.clonable_sccs own x,
          add_stages-count (stage.clonable_sccs ++ own) stages seen x h a.1,
        )
      ]

  -- A stage that fails has an SCC that was seen, or that it holds twice.
  add_stage_sccs-none :
      (all sccs : List ℕ)
      → All (λ x. can_be_cloned x ≡ false) sccs
      → add_stage_sccs all sccs ≡ none
      → (x : ℕ) × (can_be_cloned x ≡ false)
        × (contains sccs x ≡ true)
        × (2 ≤ bit (contains all x) + count x sccs)
  unfolding add_stage_sccs count contains bit
  add_stage_sccs-none all [] a e = absurd (ground arith)
  add_stage_sccs-none all (scc ∷ sccs) a e = elim (Bool-cases (contains all scc)) [
    | inl seen ↦ (scc, a.0, ground arith, ground arith)
    | inr fresh ↦
        let (x, free, member, twice) = add_stage_sccs-none (scc ∷ all) sccs a.1 (ground arith) in
        (x, free, ground arith, ground (arith, ==_iff scc x))
  ]

  InStages : ℕ → List StageSccs → Type 0
  InStages x stages = Any (λ stage. contains stage.stage_sccs x ≡ true) stages

  add_stages-none :
      (all : List ℕ) (stages : List StageSccs)
      → AreSeparate stages
      → add_stages all stages ≡ none
      → (x : ℕ) × (can_be_cloned x ≡ false)
        × InStages x stages
        × (2 ≤ bit (contains all x) + count_stages x stages)
  unfolding add_stages count_stages bit InStages
  add_stages-none all [] a e = absurd (ground arith)
  add_stages-none all (stage ∷ stages) a e =
      elim (Option-cases (add_stage_sccs all stage.stage_sccs)) [
        | inl failed ↦
            let (x, free, member, twice) = add_stage_sccs-none all stage.stage_sccs a.0.0 failed in
            (x, free, inl member, omega (arith, twice))
        | inr (own, done) ↦
            let (x, free, member, twice) =
              add_stages-none (stage.clonable_sccs ++ own) stages a.1 (ground (arith, done)) in
            (
              x,
              free,
              inr member,
              ground (
                arith,
                twice,
                add_stage_sccs-count all stage.stage_sccs own x done,
                not_clonable stage.clonable_sccs x free a.0.1,
                contains-append stage.clonable_sccs own x,
              ),
            )
      ]

  are_all_present_lem :
      (all nodes : List ℕ)
      → (are_all_present can_be_cloned all nodes ≡ true)
        ↔ All (λ n. (can_be_cloned n ≡ true) ⊎ (contains all n ≡ true)) nodes
  unfolding are_all_present
  are_all_present_lem all [] = (λ e. tt, λ a. refl)
  are_all_present_lem all (n ∷ ns) = (
    λ e. (ground arith, (are_all_present_lem all ns).0 (ground arith)),
    λ a. ground (arith, a.0, (are_all_present_lem all ns).1 a.1),
  )

  member_of : (P : ℕ → Type 0) (xs : List ℕ) (x : ℕ) → All P xs → contains xs x ≡ true → P x
  unfolding contains
  member_of P [] x a m = absurd (ground arith)
  member_of P (y ∷ ys) x a m = elim (Bool-cases (y == x)) [
    | inl same ↦ subst P ((==_iff y x).0 same) a.0
    | inr other ↦ member_of P ys x a.1 (ground arith)
  ]

  -- When the stages hold SCCs of the loop that cannot be cloned, and the clones are of SCCs that can,
  -- the stage structure is complete and valid exactly when each SCC of the loop that cannot be cloned
  -- stands once in the stages.
  pub is_complete_and_valid_iff :
      (nodes : List ℕ) (stages : List StageSccs)
      → AreSeparate stages
      → All (λ stage. All (λ x. contains nodes x ≡ true) stage.stage_sccs) stages
      → (is_complete_and_valid can_be_cloned nodes stages ≡ true)
        ↔ All (λ n. (can_be_cloned n ≡ true) ⊎ (count_stages n stages ≡ 1)) nodes
  unfolding is_complete_and_valid contains bit InStages
  is_complete_and_valid_iff nodes stages separate of_loop =
      elim (Option-cases (add_stages [] stages)) [
        | inr (all, done) ↦
            rw (done, is_complete_and_valid)
              (
                λ e.
                    All-map nodes
                      (λ n p. elim p [
                        | inl clone ↦ inl clone
                        | inr here ↦ elim (Bool-cases (can_be_cloned n)) [
                          | inl clone ↦ inl clone
                          | inr sequential ↦ inr (
                              ground
                                (arith, add_stages-count [] stages all n sequential separate done))
                        ]
                      ])
                      ((are_all_present_lem all nodes).0 e),
                λ a. (are_all_present_lem all nodes).1 (
                    All-map nodes
                      (λ n p. elim (Bool-cases (can_be_cloned n)) [
                        | inl clone ↦ inl clone
                        | inr sequential ↦ inr (
                            ground
                              (arith, add_stages-count [] stages all n sequential separate done))
                      ])
                      a),
              )
        | inl failed ↦
            rw (failed, is_complete_and_valid)
              (
                λ e. absurd (ground arith),
                λ a.
                    let (x, sequential, member, twice) =
                      add_stages-none [] stages separate failed in
                    let (stage, inside, here) = All-Any stages of_loop member in
                    absurd (
                      ground (
                        arith,
                        twice,
                        member_of (λ n. (can_be_cloned n ≡ true) ⊎ (count_stages n stages ≡ 1))
                            nodes x a
                            (member_of (λ y. contains nodes y ≡ true) stage.stage_sccs x inside
                              here),
                      )),
              )
      ]
