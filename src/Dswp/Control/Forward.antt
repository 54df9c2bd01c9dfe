-- ===== src/Dswp/Control/Forward.antt =====
-- All requested queues go forward exactly when the dependences between the stages do.
use gino.Base.{
  ℕ, ◌<◌, ◌≡◌, ◌≢◌, refl, ◌↔◌, contains, contains-All, All-contains, ==_iff, Bool, true, false,
  some, List, [], ◌∷◌, All, All-map, arith, if◌then◌else◌, Option-cases, Bool-cases, inl, inr,
  subst, sym, ◌==◌,
}
use gino.Dswp.Widths.{ProducerType}
use gino.Dswp.Queues.{Pipeline, Request, no_queues, register_queues, are_queues_acyclical}
use gino.Dswp.Queues.Acyclic.{are_queues_acyclical_iff}
use gino.Dswp.Requests.{SccEdge, both_requests, collect_data_and_memory_queue_info}
use gino.Dswp.Requests.Forward.{
  Means, Between, SccMeans, none-Means, empty-Means, both_requests-Means, All-of, crosses,
  collect_data_and_memory_queue_info-Means,
}
use gino.Dswp.Control.Controls.{NeedsQueue, ControlsTask, collect_branches_iff, controlled_by_iff}
use gino.Dswp.Control.{
  ControlFacts, collect_branches, find_condition, controlled_by, request_tasks, request_branch,
  request_branches, collect_control_queue_info,
}

module _ (P : ℕ → ℕ → Type 0) (d : ControlFacts) where
  abbrev own_stage : ℕ → ℕ
  own_stage branch = d.scc_to_stage (d.scc_of_value branch)

  abbrev TaskMeans : ℕ → ℕ → Type 0
  TaskMeans branch t = (own_stage branch == t) ≡ false → P (own_stage branch) t

  request_task-Means :
      (condition branch t : ℕ)
      → Means P
          (if own_stage branch == t
            then some []
            else some (
                record {
                  from_task = own_stage branch;
                  to_task = t;
                  producer = condition;
                  consumer = branch;
                  is_memory_dependence = false;
                }
                ∷ []))
          (TaskMeans branch t)
  request_task-Means condition branch t = elim (Bool-cases (own_stage branch == t)) [
    | inl own ↦ rw own (empty-Means P _ (λ h. absurd (ground (arith, h))))
    | inr other ↦ rw other (λ rs e.
        let one : Request = record {
          from_task = own_stage branch;
          to_task = t;
          producer = condition;
          consumer = branch;
          is_memory_dependence = false;
        } in
        let same : one ∷ [] ≡ rs = cc e in
        (
          λ a h. (subst (All (Between P)) (sym same) a).0,
          λ h. subst (All (Between P)) same (h refl, tt),
        ))
  ]

  request_tasks-Means :
      (condition branch : ℕ) (tasks : List ℕ)
      → Means P (request_tasks d condition branch tasks) (All (TaskMeans branch) tasks)
  unfolding request_tasks
  request_tasks-Means condition branch [] = empty-Means P _ tt
  request_tasks-Means condition branch (t ∷ tasks) =
      both_requests-Means P _ (request_tasks d condition branch tasks) (TaskMeans branch t)
        (All (TaskMeans branch) tasks) (request_task-Means condition branch t)
        (request_tasks-Means condition branch tasks)

  abbrev pub BranchMeans : List ℕ → ℕ → Type 0
  BranchMeans tasks branch = All (TaskMeans branch) (controlled_by d tasks branch)

  request_branch-Means :
      (tasks : List ℕ) (branch : ℕ)
      → Means P (request_branch d tasks branch) (BranchMeans tasks branch)
  unfolding request_branch
  request_branch-Means tasks branch = elim (Option-cases (find_condition d branch)) [
    | inl failed ↦ rw (failed, request_branch) (none-Means P _)
    | inr (condition, found) ↦
        rw (found, request_branch)
          (request_tasks-Means condition branch (controlled_by d tasks branch))
  ]

  request_branches-Means :
      (tasks branches : List ℕ)
      → Means P (request_branches d tasks branches) (All (BranchMeans tasks) branches)
  unfolding request_branches
  request_branches-Means tasks [] = empty-Means P _ tt
  request_branches-Means tasks (b ∷ branches) =
      both_requests-Means P (request_branch d tasks b) (request_branches d tasks branches)
        (BranchMeans tasks b) (All (BranchMeans tasks) branches) (request_branch-Means tasks b)
        (request_branches-Means tasks branches)

-- Values that stages make for others come from earlier stages.
abbrev pub DataForward : (ℕ → Bool) → (ℕ → ℕ) → (ℕ → List SccEdge) → (ℕ → List ℕ) → List ℕ → Type 0
DataForward can_be_cloned scc_to_stage incoming all_sccs tasks =
    All
      (λ t.
        All
          (λ scc.
            All (λ e. crosses can_be_cloned scc_to_stage t e ≡ true → scc_to_stage e.from_scc < t)
              (incoming scc))
          (all_sccs t))
      tasks

-- Let every value belong to a node of the SCCDAG, its edges lead to nodes, and every SCC have one of the
-- stages, which are numbered by their places. If DSWP requests queues for the values that flow between
-- its stages and for the branches that control other stages, and registers them, then areQueuesAcyclical
-- succeeds exactly when every such value comes from an earlier stage, and every branch that needs queues
-- controls, of the other stages, only later ones.
pub collect_control_queue_info-acyclical :
    (type_of : ℕ → ProducerType) (d : ControlFacts) (incoming : ℕ → List SccEdge)
    (all_sccs : ℕ → List ℕ) (tasks : List ℕ) (num_tasks : ℕ) (requests : List Request)
    (p : Pipeline)
    → All (λ t. t < num_tasks) tasks
    → ((scc : ℕ) → d.scc_to_stage scc < num_tasks)
    → ((x : ℕ) → contains d.nodes (d.scc_of_value x) ≡ true)
    → ((n : ℕ) → All (λ x. contains d.nodes x ≡ true) (d.outgoing n))
    → both_requests
        (collect_data_and_memory_queue_info d.can_be_cloned d.scc_to_stage incoming all_sccs tasks)
        (collect_control_queue_info d tasks)
      ≡ some requests
    → register_queues type_of (λ t. t) no_queues requests ≡ some p
    → (are_queues_acyclical num_tasks p ≡ true) ↔ (
        DataForward d.can_be_cloned d.scc_to_stage incoming all_sccs tasks
        × ((branch task : ℕ)
            → NeedsQueue d branch
            → ControlsTask d tasks branch task
            → d.scc_to_stage (d.scc_of_value branch) ≢ task
            → d.scc_to_stage (d.scc_of_value branch) < task))
unfolding collect_control_queue_info
collect_control_queue_info-acyclical type_of d incoming all_sccs tasks num_tasks requests p within
      staged placed closed collected built =
    let forward = part-Means (λ from to. from < to) in
    let in_range =
      (part-Means (λ from to. (from < num_tasks) × (to < num_tasks)) requests collected).1 (
        All-map tasks
            (λ t b.
              All-of _ (all_sccs t)
                (λ scc. All-of _ (incoming scc) (λ e _. (staged e.from_scc, b))))
            within,
        (controls-Means (λ from to. (from < num_tasks) × (to < num_tasks))).1
            (λ b t needed controlled other. (staged (d.scc_of_value b), task-lt b t controlled)),
      ) in
    let acyclical = are_queues_acyclical_iff type_of (λ t. t) requests p num_tasks built in_range in
    (
      λ h.
          let both =
            (forward requests collected).0 (All-map requests (λ r g. g.0) (acyclical.0 h)) in
          (both.0, (controls-Means (λ from to. from < to)).0 both.1),
      λ h. acyclical.1 (
          All-map requests (λ r g. (g, g))
            ((forward requests collected).1 (h.0, (controls-Means (λ from to. from < to)).1 h.1))),
    )
  where
    branches : List ℕ
    branches = collect_branches d d.nodes []

    part-Means :
        (P : ℕ → ℕ → Type 0)
        → Means P
            (both_requests
              (collect_data_and_memory_queue_info d.can_be_cloned d.scc_to_stage incoming all_sccs
                tasks)
              (collect_control_queue_info d tasks))
            (All
                (λ t. All (SccMeans P d.can_be_cloned d.scc_to_stage incoming t) (all_sccs t))
                tasks
              × All (BranchMeans P d tasks) branches)
    part-Means P =
        both_requests-Means P
          (collect_data_and_memory_queue_info d.can_be_cloned d.scc_to_stage incoming all_sccs
            tasks)
          (collect_control_queue_info d tasks) _ _
          (collect_data_and_memory_queue_info-Means P d.can_be_cloned d.scc_to_stage incoming
            all_sccs tasks)
          (request_branches-Means P d tasks branches)

    controls-Means :
        (P : ℕ → ℕ → Type 0)
        → All (BranchMeans P d tasks) branches ↔ (
            (branch task : ℕ)
            → NeedsQueue d branch
            → ControlsTask d tasks branch task
            → d.scc_to_stage (d.scc_of_value branch) ≢ task
            → P (d.scc_to_stage (d.scc_of_value branch)) task)
    controls-Means P = (
      λ a b t needed controlled other.
          contains-All (TaskMeans P d b) (controlled_by d tasks b) t
            (contains-All (BranchMeans P d tasks) branches b a
              ((collect_branches_iff d b).1 needed))
            ((controlled_by_iff d placed closed tasks b t other).1 controlled)
            (ground (arith, ==_iff (d.scc_to_stage (d.scc_of_value b)) t)),
      λ h. All-contains (BranchMeans P d tasks) branches (λ b m.
          All-contains (TaskMeans P d b) (controlled_by d tasks b) (λ t m' differ.
            let other : d.scc_to_stage (d.scc_of_value b) ≢ t =
              λ e. ground (arith, ==_iff (d.scc_to_stage (d.scc_of_value b)) t) in
            h b t ((collect_branches_iff d b).0 m)
              ((controlled_by_iff d placed closed tasks b t other).0 m') other)),
    )

    task-lt : (b t : ℕ) → ControlsTask d tasks b t → t < num_tasks
    task-lt b t (inl (exits, m)) = contains-All (λ u. u < num_tasks) tasks t within m
    task-lt b t (inr (inside, (x, c, kept, e))) = subst (λ u. u < num_tasks) e (staged x)
