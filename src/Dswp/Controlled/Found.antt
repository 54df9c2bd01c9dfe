-- ===== src/Dswp/Controlled/Found.antt =====
-- What the search finds: the stages of the SCCs that depend on the branch's SCC, directly or not.
use gino.Base.{
  ℕ, zero, suc, ◌≡◌, ◌≢◌, ◌↔◌, inl, inr, true, ◌||◌, Option, some, List, [], ◌∷◌, contains,
  contains-set_erase, ◌==◌, ==_iff, arith, Bool-cases, List-cases, Option-cases, All, subst, sym,
  ℕ_discrete,
}
use gino.Dswp.Controlled.{
  ControlSearch, erase_task, follow_edges, take_node, search_controlled, start_control, count_edges,
  run_control, collect_transitively_controlled_tasks,
}
use gino.Dswp.Controlled.Fuel.{count_left-all, follow_edges-visited, search_controlled-ends}
use gino.Dswp.Controlled.Edges.{
  Controls, next, after, Source, controls_target, contains-follow_edges, follow_edges-tasks,
  is_task_of-member, member-is_task_of,
}

module _ (get_task_of_node : ℕ → Option ℕ) (outgoing : ℕ → List ℕ) (controlling : ℕ) where
  record ControlInv (s : ControlSearch) : Type 0 where
    queued : (x : ℕ) → contains s.queued_nodes x ≡ true → Source outgoing controlling x
    visited : (x : ℕ) → contains s.visited_nodes x ≡ true → Source outgoing controlling x
    start : (contains s.visited_nodes controlling || contains s.queued_nodes controlling) ≡ true
    closed :
        (y x : ℕ)
        → contains s.visited_nodes y ≡ true
        → contains (outgoing y) x ≡ true
        → (contains s.visited_nodes x || contains s.queued_nodes x) ≡ true
    sound :
        (t : ℕ)
        → contains s.controlled_tasks t ≡ true
        → (x : ℕ) × Controls outgoing controlling x × (get_task_of_node x ≡ some t)
    full :
        (y x t : ℕ)
        → contains s.visited_nodes y ≡ true
        → contains (outgoing y) x ≡ true
        → get_task_of_node x ≡ some t
        → contains s.controlled_tasks t ≡ true

  module _ (node : ℕ) (rest : List ℕ) (s : ControlSearch) (at : s.queued_nodes ≡ node ∷ rest)
      (v : ControlInv s) where
    abbrev popped : ControlSearch
    popped = record s { queued_nodes = rest }

    abbrev opened : ControlSearch
    opened = record popped { visited_nodes = node ∷ s.visited_nodes }

    was_queued : (x : ℕ) → contains s.queued_nodes x ≡ (node == x || contains rest x)
    unfolding contains
    was_queued x = ground (arith, at)

    node-Source : Source outgoing controlling node
    node-Source = v.queued node (ground (arith, was_queued node, ==_iff node node))

    fresh-ControlInv : ControlInv (follow_edges get_task_of_node (outgoing node) opened)
    unfolding contains
    fresh-ControlInv =
        let queue = contains-follow_edges get_task_of_node (outgoing node) opened in
        let tasks = follow_edges-tasks get_task_of_node (outgoing node) opened in
        let seen = follow_edges-visited get_task_of_node (outgoing node) opened in
        record {
          queued = λ x h. elim (Bool-cases (contains rest x)) [
            | inl old ↦ v.queued x (ground (arith, was_queued x))
            | inr new ↦
                inr (
                  controls_target outgoing controlling node x node-Source (ground (arith, queue x)))
          ];
          visited = λ x h. elim (ℕ_discrete node x) [
            | yes same ↦ subst (Source outgoing controlling) same node-Source
            | no other ↦ v.visited x (ground (arith, seen, ==_iff node x))
          ];
          start = ground (arith, seen, queue controlling, v.start, was_queued controlling);
          closed = λ y x h e. elim (ℕ_discrete node y) [
            | yes same ↦
                let here = subst (λ z. contains (outgoing z) x ≡ true) (sym same) e in
                ground (arith, seen, queue x, here)
            | no other ↦ ground (arith, seen, queue x, v.closed y x, was_queued x, ==_iff node y)
          ];
          sound = λ t h. elim (Bool-cases (contains s.controlled_tasks t)) [
            | inl old ↦ v.sound t old
            | inr new ↦
                let (x, m, e) =
                  is_task_of-member get_task_of_node (outgoing node) t (ground (arith, tasks t)) in
                (x, controls_target outgoing controlling node x node-Source m, e)
          ];
          full = λ y x t h e in_stage. elim (ℕ_discrete node y) [
            | yes same ↦
                let here = subst (λ z. contains (outgoing z) x ≡ true) (sym same) e in
                ground (
                  arith,
                  tasks t,
                  member-is_task_of get_task_of_node (outgoing node) x t here in_stage,
                )
            | no other ↦ ground (arith, seen, tasks t, v.full y x t, ==_iff node y)
          ];
        }

    skipped-ControlInv : contains s.visited_nodes node ≡ true → ControlInv popped
    skipped-ControlInv seen = record {
      queued = λ x h. v.queued x (ground (arith, was_queued x));
      visited = v.visited;
      start = ground (arith, v.start, was_queued controlling, ==_iff node controlling);
      closed = λ y x h e. ground (arith, v.closed y x, was_queued x, ==_iff node x);
      sound = v.sound;
      full = v.full;
    }

  take_node-ControlInv :
      (node : ℕ) (rest : List ℕ) (s : ControlSearch)
      → s.queued_nodes ≡ node ∷ rest
      → ControlInv s
      → ControlInv (take_node get_task_of_node outgoing node (record s { queued_nodes = rest }))
  unfolding take_node
  take_node-ControlInv node rest s at v = elim (Bool-cases (contains s.visited_nodes node)) [
    | inl seen ↦ rw (seen, take_node) (skipped-ControlInv node rest s at v seen)
    | inr fresh ↦ rw (fresh, take_node) (fresh-ControlInv node rest s at v)
  ]

  search_controlled-ControlInv :
      (fuel : ℕ) (s : ControlSearch)
      → ControlInv s
      → ControlInv (search_controlled get_task_of_node outgoing fuel s)
  unfolding search_controlled
  search_controlled-ControlInv zero s v = v
  search_controlled-ControlInv (suc fuel) s v = elim (List-cases s.queued_nodes) [
    | inl empty ↦ rw (empty, search_controlled) v
    | inr (node, rest, queued) ↦
        rw (queued, search_controlled)
          (search_controlled-ControlInv fuel
            (take_node get_task_of_node outgoing node (record s { queued_nodes = rest }))
            (take_node-ControlInv node rest s queued v))
  ]

  start-ControlInv : ControlInv (start_control controlling)
  unfolding start_control contains
  start-ControlInv = record {
    queued = λ x h. inl ((==_iff controlling x).0 (ground arith));
    visited = λ x h. absurd (ground arith);
    start = ground (arith, ==_iff controlling controlling);
    closed = λ y x h e. absurd (ground arith);
    sound = λ t h. absurd (ground arith);
    full = λ y x t h e in_stage. absurd (ground arith);
  }

  -- With an empty queue, the stage of every controlled SCC is found.
  Controls-found :
      (s : ControlSearch)
      → ControlInv s
      → s.queued_nodes ≡ []
      → (x : ℕ) → Controls outgoing controlling x
      → (contains s.visited_nodes x ≡ true)
        × ((t : ℕ) → get_task_of_node x ≡ some t → contains s.controlled_tasks t ≡ true)
  unfolding contains
  Controls-found s v empty _ (next x e) =
      let root : contains s.visited_nodes controlling ≡ true = ground (arith, v.start, empty) in
      (ground (arith, v.closed controlling x root e, empty), λ t. v.full controlling x t root e)
  Controls-found s v empty _ (after y x c e) =
      let before = (Controls-found s v empty y c).0 in
      (ground (arith, v.closed y x before e, empty), λ t. v.full y x t before e)

-- For every SCCDAG, whatever its edges, the search of collectTransitivelyControlledTasks ends, and the
-- stages that it returns are exactly those, without the stage of the branch, that have an SCC to which
-- a path of one or more edges leads from the SCC of the branch; paths may pass through SCCs that can be
-- cloned, which have no stage.
pub collect_transitively_controlled_tasks_iff :
    (get_task_of_node : ℕ → Option ℕ) (outgoing : ℕ → List ℕ) (nodes : List ℕ) (controlling : ℕ)
    → contains nodes controlling ≡ true
    → ((n : ℕ) → All (λ x. contains nodes x ≡ true) (outgoing n))
    → ((run_control get_task_of_node outgoing nodes controlling).queued_nodes ≡ [])
      × ((t : ℕ)
          → (contains
                (collect_transitively_controlled_tasks get_task_of_node outgoing nodes controlling)
                t
              ≡ true)
            ↔ ((get_task_of_node controlling ≢ some t)
                × ((x : ℕ) × Controls outgoing controlling x × (get_task_of_node x ≡ some t))))
unfolding collect_transitively_controlled_tasks run_control erase_task start_control
collect_transitively_controlled_tasks_iff get_task_of_node outgoing nodes controlling known closed =
    let fuel = suc (count_edges outgoing nodes) in
    let s = search_controlled get_task_of_node outgoing fuel (start_control controlling) in
    let empty =
      search_controlled-ends get_task_of_node outgoing nodes closed fuel (start_control controlling)
        (known, tt) (omega (arith, count_left-all outgoing nodes)) in
    let v =
      search_controlled-ControlInv get_task_of_node outgoing controlling fuel
        (start_control controlling) (start-ControlInv get_task_of_node outgoing controlling) in
    (
      empty,
      λ t. (
        λ h. elim (Option-cases (get_task_of_node controlling)) [
          | inl cloned ↦ (λ e. ground (arith, cloned), v.sound t (ground (arith, cloned)))
          | inr (task, own) ↦ (
            λ e. ground (arith, own, contains-set_erase task s.controlled_tasks t, ==_iff task t),
            v.sound t (ground (arith, own, contains-set_erase task s.controlled_tasks t)),
          )
        ],
        λ h.
            let found =
              (Controls-found get_task_of_node outgoing controlling s v empty h.1.0 h.1.1).1 t
                h.1.2 in
            elim (Option-cases (get_task_of_node controlling)) [
              | inl cloned ↦ ground (arith, cloned, found)
              | inr (task, own) ↦ ground (
                arith,
                own,
                found,
                contains-set_erase task s.controlled_tasks t,
                ==_iff task t,
                h.0,
              )
            ],
      ),
    )
