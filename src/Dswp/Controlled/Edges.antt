-- ===== src/Dswp/Controlled/Edges.antt =====
-- What depends on a branch, and what one round of the search adds.
use gino.Base.{
  ℕ, ◌≡◌, refl, ◌⊎◌, inl, inr, Bool, true, false, ◌||◌, Option, some, none, List, [], ◌∷◌, contains,
  contains-set_insert, contains-append, ◌==◌, ==_iff, arith, Option-cases, subst, sym, ◌∙◌,
  ℕ_discrete,
}
use gino.Dswp.Controlled.{ControlSearch, insert_task, follow_edge, follow_edges}

module _ (outgoing : ℕ → List ℕ) (controlling : ℕ) where
  -- A path of one or more edges leads from the controlling SCC to the SCC.
  pub data Controls : ℕ → Type 0 where
    next : (x : ℕ) → contains (outgoing controlling) x ≡ true → Controls x
    after : (y x : ℕ) → Controls y → contains (outgoing y) x ≡ true → Controls x

  abbrev pub Source : ℕ → Type 0
  Source x = (controlling ≡ x) ⊎ Controls x

  pub controls_target : (y x : ℕ) → Source y → contains (outgoing y) x ≡ true → Controls x
  controls_target y x (inl same) e =
      next x (subst (λ z. contains (outgoing z) x ≡ true) (sym same) e)
  controls_target y x (inr c) e = after y x c e

module _ (get_task_of_node : ℕ → Option ℕ) where
  -- One of the SCCs is in the stage.
  abbrev pub is_task_of : List ℕ → ℕ → Bool
  is_task_of [] t = false
  is_task_of (x ∷ xs) t =
      (elim (get_task_of_node x) [ none ↦ false | some task ↦ task == t ]) || is_task_of xs t

  pub contains-follow_edges :
      (edges : List ℕ) (s : ControlSearch) (x : ℕ)
      → contains (follow_edges get_task_of_node edges s).queued_nodes x
        ≡ (contains s.queued_nodes x || contains edges x)
  unfolding follow_edges follow_edge contains
  contains-follow_edges [] s x = ground arith
  contains-follow_edges (y ∷ edges) s x =
      contains-follow_edges edges (follow_edge get_task_of_node y s) x
      ∙ ground (arith, contains-append s.queued_nodes (y ∷ []) x)

  pub follow_edges-tasks :
      (edges : List ℕ) (s : ControlSearch) (t : ℕ)
      → contains (follow_edges get_task_of_node edges s).controlled_tasks t
        ≡ (contains s.controlled_tasks t || is_task_of edges t)
  unfolding follow_edges follow_edge insert_task
  follow_edges-tasks [] s t = ground arith
  follow_edges-tasks (y ∷ edges) s t =
      follow_edges-tasks edges (follow_edge get_task_of_node y s) t
      ∙ elim (Option-cases (get_task_of_node y)) [
        | inl cloned ↦ rw cloned (ground arith)
        | inr (task, in_stage) ↦
            rw in_stage (ground (arith, contains-set_insert task s.controlled_tasks t))
      ]

  pub is_task_of-member :
      (xs : List ℕ) (t : ℕ)
      → is_task_of xs t ≡ true
      → (x : ℕ) × (contains xs x ≡ true) × (get_task_of_node x ≡ some t)
  unfolding contains
  is_task_of-member [] t h = absurd (ground arith)
  is_task_of-member (x ∷ xs) t h = elim (Option-cases (get_task_of_node x)) [
    | inl cloned ↦
        let (y, m, e) = is_task_of-member xs t (ground (arith, cloned)) in (y, ground arith, e)
    | inr (task, in_stage) ↦ elim (ℕ_discrete task t) [
      | yes same ↦ (x, ground (arith, ==_iff x x), rw (in_stage, same) refl)
      | no other ↦
          let (y, m, e) = is_task_of-member xs t (ground (arith, in_stage, ==_iff task t)) in
          (y, ground arith, e)
    ]
  ]

  pub member-is_task_of :
      (xs : List ℕ) (x t : ℕ)
      → contains xs x ≡ true
      → get_task_of_node x ≡ some t
      → is_task_of xs t ≡ true
  unfolding contains
  member-is_task_of [] x t m e = absurd (ground arith)
  member-is_task_of (y ∷ ys) x t m e = elim (ℕ_discrete y x) [
    | yes same ↦ rw (same, e) (ground (arith, ==_iff t t))
    | no other ↦ ground (arith, ==_iff y x, member-is_task_of ys x t)
  ]
