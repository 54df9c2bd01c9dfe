-- ===== src/Inliner/Graph/Reached.antt =====
-- The invariant of the search: what is reached, and the graph of the functions that were taken.
use gino.Base.{
  ℕ, zero, suc, ◌≡◌, refl, ap, ◌∙◌, ◌==◌, ==_iff, Bool, true, false, not, ◌&&◌, ◌||◌, List, [], ◌∷◌,
  contains, arith, Bool-cases, List-cases, inl, inr, subst, if◌then◌else◌, AreDistinct, ℕ_discrete,
}
use gino.Inliner.{FnGraph, no_graph}
use gino.Inliner.Graph.{GraphSearch, traverse_fn, traverse, collected, added}
use gino.Inliner.Graph.Children.{add_children-ordered_called, contains-children, contains-parents}
use gino.Inliner.Graph.Fuel.{
  contains-reached, contains-queue, enqueue-graph, IsQueue, enqueue-IsQueue,
}

module _ (called : ℕ → List ℕ) (main : ℕ) where
  -- A chain of calls leads from the entry function to the function.
  pub data Reaches : ℕ → Type 0 where
    entry : Reaches main
    by_call : (f c : ℕ) → Reaches f → contains (called f) c ≡ true → Reaches c

-- The functions that were taken from the queue.
abbrev pub is_done : GraphSearch → ℕ → Bool
is_done s f = contains s.reached f && not (contains s.func_to_traverse f)

module _ (calls called : ℕ → List ℕ) (main : ℕ) where
  pub record Inv (s : GraphSearch) : Type 0 where
    pub queue : IsQueue s
    pub sound : (f : ℕ) → contains s.reached f ≡ true → Reaches called main f
    pub start : contains s.reached main ≡ true
    pub children :
        (p c : ℕ) → contains (s.graph.children_fns p) c ≡ (is_done s p && contains (called p) c)
    pub parents :
        (p c : ℕ) → contains (s.graph.parent_fns c) p ≡ (is_done s p && contains (called p) c)
    pub callees : (p : ℕ) → s.graph.ordered_called p ≡ (if is_done s p then called p else [])
    pub closed :
        (p c : ℕ) → is_done s p ≡ true → contains (called p) c ≡ true → contains s.reached c ≡ true

  module _ (parent : ℕ) (rest : List ℕ) (s : GraphSearch)
      (queued : s.func_to_traverse ≡ parent ∷ rest) (v : Inv s) where
    abbrev popped : GraphSearch
    popped = record s { func_to_traverse = rest }

    abbrev graph : FnGraph
    graph = added calls called parent popped

    abbrev next : GraphSearch
    next = traverse_fn calls called parent popped

    own_children : (c : ℕ) → contains (graph.children_fns parent) c ≡ contains (called parent) c
    unfolding added collected contains
    own_children c =
        contains-children parent [] (called parent) (collected calls called parent popped) parent c
        ∙ ground arith

    next_reached :
        (x : ℕ) → contains next.reached x ≡ (contains s.reached x || contains (called parent) x)
    unfolding traverse_fn
    next_reached x =
        contains-reached (graph.children_fns parent) (record popped { graph = graph }) x
        ∙ ground (arith, own_children x)

    next_queue :
        (x : ℕ)
        → contains next.func_to_traverse x
          ≡ (contains rest x || (contains (called parent) x && not (contains s.reached x)))
    unfolding traverse_fn
    next_queue x =
        contains-queue (graph.children_fns parent) (record popped { graph = graph }) x
        ∙ ground (arith, own_children x)

    next_graph : next.graph ≡ graph
    unfolding traverse_fn
    next_graph = enqueue-graph (graph.children_fns parent) (record popped { graph = graph })

    was_queued : (x : ℕ) → contains s.func_to_traverse x ≡ (parent == x || contains rest x)
    unfolding contains
    was_queued x = ground (arith, queued)

    taken_once : contains rest parent ≡ false
    taken_once = (subst AreDistinct queued v.queue.distinct).0

    parent_reached : contains s.reached parent ≡ true
    parent_reached = v.queue.queued parent (ground (arith, was_queued parent, ==_iff parent parent))

    next_done : (x : ℕ) → is_done next x ≡ (parent == x || is_done s x)
    next_done x = elim (ℕ_discrete parent x) [
      | yes same ↦ rw (← same) (
          ground (
            arith,
            next_reached parent,
            next_queue parent,
            taken_once,
            parent_reached,
            ==_iff parent parent,
          ))
      | no other ↦
          ground
            (arith, next_reached x, next_queue x, was_queued x, v.queue.queued x, ==_iff parent x)
    ]

    next_children :
        (p c : ℕ)
        → contains (next.graph.children_fns p) c ≡ (is_done next p && contains (called p) c)
    unfolding added collected contains
    next_children p c =
        ap (λ (g : FnGraph). contains (g.children_fns p) c) next_graph
        ∙ contains-children parent [] (called parent) (collected calls called parent popped) p c
        ∙ elim (ℕ_discrete parent p) [
          | yes same ↦ rw (← same) (ground (arith, next_done parent, ==_iff parent parent))
          | no other ↦ ground (arith, next_done p, v.children p c, ==_iff parent p, ==_iff p parent)
        ]

    next_parents :
        (p c : ℕ) → contains (next.graph.parent_fns c) p ≡ (is_done next p && contains (called p) c)
    unfolding added collected contains
    next_parents p c =
        ap (λ (g : FnGraph). contains (g.parent_fns c) p) next_graph
        ∙ contains-parents parent [] (called parent) (collected calls called parent popped) p c
        ∙ elim (ℕ_discrete parent p) [
          | yes same ↦
              rw (← same)
                (ground (arith, next_done parent, v.parents parent c, ==_iff parent parent))
          | no other ↦ ground (arith, next_done p, v.parents p c, ==_iff parent p, ==_iff p parent)
        ]

    next_callees : (p : ℕ) → next.graph.ordered_called p ≡ (if is_done next p then called p else [])
    unfolding added collected
    next_callees p =
        ap (λ (g : FnGraph). g.ordered_called p) next_graph
        ∙ ap (λ m. m p)
            (add_children-ordered_called parent [] (called parent)
              (collected calls called parent popped))
        ∙ elim (ℕ_discrete parent p) [
          | yes same ↦ rw (← same) (ground (arith, next_done parent, ==_iff parent parent))
          | no other ↦ ground (arith, next_done p, v.callees p, ==_iff parent p)
        ]

    popped-IsQueue : IsQueue popped
    popped-IsQueue = record {
      queued = λ x h. v.queue.queued x (ground (arith, was_queued x));
      distinct = (subst AreDistinct queued v.queue.distinct).1;
    }

    -- One round keeps the invariant.
    popped-Inv : Inv next
    unfolding traverse_fn
    popped-Inv = record {
      queue =
          enqueue-IsQueue (graph.children_fns parent) (record popped { graph = graph })
            (record { queued = popped-IsQueue.queued; distinct = popped-IsQueue.distinct });
      sound = λ f h. elim (Bool-cases (contains s.reached f)) [
        | inl old ↦ v.sound f old
        | inr new ↦
            by_call parent f (v.sound parent parent_reached) (ground (arith, next_reached f))
      ];
      start = ground (arith, next_reached main, v.start);
      children = next_children;
      parents = next_parents;
      callees = next_callees;
      closed = λ p c d m. elim (ℕ_discrete parent p) [
        | yes same ↦ ground (arith, next_reached c, ap (λ q. contains (called q) c) same)
        | no other ↦ ground (arith, next_reached c, next_done p, v.closed p c, ==_iff parent p)
      ];
    }

  pub traverse-Inv : (fuel : ℕ) (s : GraphSearch) → Inv s → Inv (traverse calls called fuel s)
  unfolding traverse
  traverse-Inv zero s v = v
  traverse-Inv (suc fuel) s v = elim (List-cases s.func_to_traverse) [
    | inl empty ↦ rw (empty, traverse) v
    | inr (parent, rest, queued) ↦
        rw (queued, traverse)
          (traverse-Inv fuel
            (traverse_fn calls called parent (record s { func_to_traverse = rest }))
            (popped-Inv parent rest s queued v))
  ]

  pub start-Inv :
      Inv (record { graph = no_graph; func_to_traverse = main ∷ []; reached = main ∷ [] })
  unfolding contains
  start-Inv = record {
    queue = record { queued = λ x h. h; distinct = (refl, tt) };
    sound = λ f h. subst (Reaches called main) ((==_iff main f).0 (ground arith)) entry;
    start = ground (arith, ==_iff main main);
    children = λ p c. ground arith;
    parents = λ p c. ground arith;
    callees = λ p. ground arith;
    closed = λ p c d m. ground arith;
  }

  -- With an empty queue every function that main reaches by calls is reached.
  pub Reaches-reached :
      (s : GraphSearch)
      → Inv s
      → s.func_to_traverse ≡ []
      → (f : ℕ) → Reaches called main f
      → contains s.reached f ≡ true
  unfolding contains
  Reaches-reached s v empty _ entry = v.start
  Reaches-reached s v empty _ (by_call p c r m) =
      v.closed p c (ground (arith, Reaches-reached s v empty p r, empty)) m
