-- ===== src/Dswp/Control/Controls.antt =====
-- Which branches need queues, and which stages they control, described without the searches of the code.
use gino.Base.{
  ℕ, ◌≡◌, ◌≢◌, refl, ◌∙◌, sym, ◌↔◌, ◌⊎◌, inl, inr, Bool, true, false, not, ◌&&◌, ◌||◌, some, List,
  [], ◌∷◌, contains, contains-set_insert, All, Any, ==_iff, arith, Bool-cases, subst, ℕ_discrete,
}
use gino.Dswp.Controlled.Edges.{Controls}
use gino.Dswp.Controlled.Found.{collect_transitively_controlled_tasks_iff}
use gino.Dswp.Control.{
  Dependence, control_dependence, memory_dependence, data_dependence, ControlFacts,
  has_data_dependency, leaves_loop, insert_branches, collect_branches, stage_of, controlled_by,
}

-- A dependence that carries a value.
abbrev pub IsValue : Dependence → Type 0
IsValue (control_dependence x) = ⊥
IsValue (memory_dependence x) = Unit
IsValue (data_dependence x) = Unit

-- The source of a control dependence in some SCC, in an SCC that is not cloned, that depends on a value.
abbrev pub NeedsQueue : ControlFacts → ℕ → Type 0
NeedsQueue d branch =
    ((scc : ℕ) × (contains d.nodes scc ≡ true) × (contains (d.control_sources scc) branch ≡ true))
    × (d.can_be_cloned (d.scc_of_value branch) ≡ false)
    × Any IsValue (d.incoming branch)

-- A branch that can leave the loop controls all tasks, another one the stages of the SCCs that its own
-- SCC leads to.
abbrev pub ControlsTask : ControlFacts → List ℕ → ℕ → ℕ → Type 0
ControlsTask d tasks branch task =
    (Any (λ b. contains d.exit_blocks b ≡ true) (d.successors branch)
      × (contains tasks task ≡ true))
    ⊎ (All (λ b. contains d.exit_blocks b ≡ false) (d.successors branch)
        × ((x : ℕ) × Controls d.outgoing (d.scc_of_value branch) x
            × (d.can_be_cloned x ≡ false)
            × (d.scc_to_stage x ≡ task)))

has_data_dependency_iff : (ds : List Dependence) → (has_data_dependency ds ≡ true) ↔ Any IsValue ds
unfolding has_data_dependency
has_data_dependency_iff [] = (λ e. absurd (ground arith), λ a. elim a [ ])
has_data_dependency_iff (control_dependence x ∷ ds) =
    let rest = has_data_dependency_iff ds in
    (λ e. inr (rest.0 e), λ a. elim a [ inl own ↦ elim own [ ] | inr other ↦ rest.1 other ])
has_data_dependency_iff (memory_dependence x ∷ ds) = (λ e. inl tt, λ a. refl)
has_data_dependency_iff (data_dependence x ∷ ds) = (λ e. inl tt, λ a. refl)

leaves_loop-Any :
    (exits bs : List ℕ) → leaves_loop exits bs ≡ true → Any (λ b. contains exits b ≡ true) bs
unfolding leaves_loop
leaves_loop-Any exits [] e = absurd (ground arith)
leaves_loop-Any exits (b ∷ bs) e = elim (Bool-cases (contains exits b)) [
  | inl own ↦ inl own
  | inr other ↦ inr (leaves_loop-Any exits bs (ground arith))
]

Any-leaves_loop :
    (exits bs : List ℕ) → Any (λ b. contains exits b ≡ true) bs → leaves_loop exits bs ≡ true
unfolding leaves_loop
Any-leaves_loop exits [] a = elim a [ ]
Any-leaves_loop exits (b ∷ bs) (inl own) = ground (arith, own)
Any-leaves_loop exits (b ∷ bs) (inr other) = ground (arith, Any-leaves_loop exits bs other)

leaves_loop-All :
    (exits bs : List ℕ) → (leaves_loop exits bs ≡ false) ↔ All (λ b. contains exits b ≡ false) bs
unfolding leaves_loop
leaves_loop-All exits [] = (λ e. tt, λ a. refl)
leaves_loop-All exits (b ∷ bs) =
    let rest = leaves_loop-All exits bs in
    (λ e. (ground arith, rest.0 (ground arith)), λ a. ground (arith, a.0, rest.1 a.1))

module _ (d : ControlFacts) where
  abbrev needs : ℕ → Bool
  needs x = not (d.can_be_cloned (d.scc_of_value x)) && has_data_dependency (d.incoming x)

  abbrev is_source : List ℕ → ℕ → Bool
  is_source [] x = false
  is_source (scc ∷ sccs) x = contains (d.control_sources scc) x || is_source sccs x

  contains-insert_branches :
      (xs branches : List ℕ) (b : ℕ)
      → contains (insert_branches d xs branches) b
        ≡ (contains branches b || (contains xs b && needs b))
  unfolding insert_branches contains
  contains-insert_branches [] branches b = ground arith
  contains-insert_branches (x ∷ xs) branches b = elim (Bool-cases (needs x)) [
    | inl needed ↦ contains-insert_branches xs _ b ∙ elim (ℕ_discrete x b) [
      | yes same ↦ ground (
        arith,
        contains-set_insert x branches b,
        ==_iff x b,
        subst (λ y. needs y ≡ true) same needed,
      )
      | no other ↦ ground (arith, contains-set_insert x branches b, ==_iff x b)
    ]
    | inr unneeded ↦ contains-insert_branches xs _ b ∙ elim (ℕ_discrete x b) [
      | yes same ↦ ground (arith, ==_iff x b, subst (λ y. needs y ≡ false) same unneeded)
      | no other ↦ ground (arith, ==_iff x b)
    ]
  ]

  contains-collect_branches :
      (sccs branches : List ℕ) (b : ℕ)
      → contains (collect_branches d sccs branches) b
        ≡ (contains branches b || (is_source sccs b && needs b))
  unfolding collect_branches
  contains-collect_branches [] branches b = ground arith
  contains-collect_branches (scc ∷ sccs) branches b =
      contains-collect_branches sccs (insert_branches d (d.control_sources scc) branches) b
      ∙ ground (arith, contains-insert_branches (d.control_sources scc) branches b)

  is_source-member :
      (sccs : List ℕ) (b : ℕ)
      → is_source sccs b ≡ true
      → (scc : ℕ) × (contains sccs scc ≡ true) × (contains (d.control_sources scc) b ≡ true)
  unfolding contains
  is_source-member [] b e = absurd (ground arith)
  is_source-member (scc ∷ sccs) b e = elim (Bool-cases (contains (d.control_sources scc) b)) [
    | inl own ↦ (scc, ground (arith, ==_iff scc scc), own)
    | inr other ↦ let (s, m, c) = is_source-member sccs b (ground arith) in (s, ground arith, c)
  ]

  member-is_source :
      (sccs : List ℕ) (b scc : ℕ)
      → contains sccs scc ≡ true
      → contains (d.control_sources scc) b ≡ true
      → is_source sccs b ≡ true
  unfolding contains
  member-is_source [] b scc m c = absurd (ground arith)
  member-is_source (s ∷ sccs) b scc m c = elim (ℕ_discrete s scc) [
    | yes same ↦ ground (arith, subst (λ y. contains (d.control_sources y) b ≡ true) (sym same) c)
    | no other ↦ ground (arith, ==_iff s scc, member-is_source sccs b scc)
  ]

  -- The branches that are collected are those that need queues.
  pub collect_branches_iff :
      (b : ℕ) → (contains (collect_branches d d.nodes []) b ≡ true) ↔ NeedsQueue d b
  unfolding contains
  collect_branches_iff b =
      let found = contains-collect_branches d.nodes [] b in
      (
        λ h. (
          is_source-member d.nodes b (ground (arith, found)),
          ground (arith, found),
          (has_data_dependency_iff (d.incoming b)).0 (ground (arith, found)),
        ),
        λ n. ground (
          arith,
          found,
          member-is_source d.nodes b n.0.0 n.0.1 n.0.2,
          n.1,
          (has_data_dependency_iff (d.incoming b)).1 n.2,
        ),
      )

  staged :
      (x t : ℕ) → (stage_of d x ≡ some t) ↔ ((d.can_be_cloned x ≡ false) × (d.scc_to_stage x ≡ t))
  unfolding stage_of
  staged x t = (λ e. (ground arith, ground arith), λ h. ground (arith, h.0, h.1))

  module _ (placed : (x : ℕ) → contains d.nodes (d.scc_of_value x) ≡ true)
      (closed : (n : ℕ) → All (λ x. contains d.nodes x ≡ true) (d.outgoing n))
      (tasks : List ℕ) where
    -- The other stages that are found to be controlled are those that a branch controls.
    pub controlled_by_iff :
        (b t : ℕ)
        → d.scc_to_stage (d.scc_of_value b) ≢ t
        → (contains (controlled_by d tasks b) t ≡ true) ↔ ControlsTask d tasks b t
    unfolding controlled_by
    controlled_by_iff b t other =
        let search =
          (collect_transitively_controlled_tasks_iff (stage_of d) d.outgoing d.nodes
              (d.scc_of_value b) (placed b) closed).1
            t in
        let stays = leaves_loop-All d.exit_blocks (d.successors b) in
        elim (Bool-cases (leaves_loop d.exit_blocks (d.successors b))) [
          | inl exits ↦ (
            λ h. inl (
              leaves_loop-Any d.exit_blocks (d.successors b) exits,
              ground (arith, h, exits, controlled_by),
            ),
            λ c. elim c [
              | inl (some_exit, m) ↦ rw (exits, controlled_by) m
              | inr no_exit ↦ absurd (ground (arith, exits, stays.1 no_exit.0))
            ],
          )
          | inr inside ↦ (
            λ h.
                let (own, (x, c, e)) = search.0 (ground (arith, h, inside, controlled_by)) in
                inr (stays.0 inside, (x, c, ((staged x t).0 e).0, ((staged x t).0 e).1)),
            λ c. elim c [
              | inl some_exit ↦ absurd (
                  ground
                    (arith, inside, Any-leaves_loop d.exit_blocks (d.successors b) some_exit.0))
              | inr (no_exit, (x, c', kept, e)) ↦
                  rw (inside, controlled_by)
                    (search.1 (
                      λ own. other ((staged (d.scc_of_value b) t).0 own).1,
                      (x, c', (staged x t).1 (kept, e)),
                    ))
            ],
          )
        ]
