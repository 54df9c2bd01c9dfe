-- ===== src/Inliner/Graph/Fuel.antt =====
-- What the loop over the children of a function does, and that the search ends: each round takes a
-- function from the queue, and each function enters it once.
use gino.Base.{
  ℕ, zero, suc, ◌+◌, ◌≤◌, ◌≡◌, refl, ◌∙◌, ==_iff, true, not, ◌&&◌, ◌||◌, List, [], ◌∷◌, length,
  length-append, contains, contains-append, count_unvisited, count_unvisited-less, arith,
  Bool-cases, List-cases, inl, inr, All, All-contains, AreDistinct, append-AreDistinct,
}
use gino.Inliner.Graph.{
  GraphSearch, enqueue_child, enqueue, traverse_fn, traverse, collected, added,
}
use gino.Inliner.Graph.Children.{contains-children}

pub contains-reached :
    (children : List ℕ) (s : GraphSearch) (x : ℕ)
    → contains (enqueue children s).reached x ≡ (contains s.reached x || contains children x)
unfolding enqueue contains enqueue_child
contains-reached [] s x = ground arith
contains-reached (c ∷ children) s x =
    contains-reached children (enqueue_child c s) x ∙ ground (arith, ==_iff c x)

pub contains-queue :
    (children : List ℕ) (s : GraphSearch) (x : ℕ)
    → contains (enqueue children s).func_to_traverse x
      ≡ (contains s.func_to_traverse x || (contains children x && not (contains s.reached x)))
unfolding enqueue contains enqueue_child
contains-queue [] s x = ground arith
contains-queue (c ∷ children) s x =
    contains-queue children (enqueue_child c s) x
    ∙ ground (arith, ==_iff c x, contains-append s.func_to_traverse (c ∷ []) x)

pub enqueue-graph : (children : List ℕ) (s : GraphSearch) → (enqueue children s).graph ≡ s.graph
unfolding enqueue enqueue_child
enqueue-graph [] s = refl
enqueue-graph (c ∷ children) s = enqueue-graph children (enqueue_child c s) ∙ ground arith

-- A function in the queue is reached, and none is in it twice.
pub record IsQueue (s : GraphSearch) : Type 0 where
  pub queued : (x : ℕ) → contains s.func_to_traverse x ≡ true → contains s.reached x ≡ true
  pub distinct : AreDistinct s.func_to_traverse

enqueue_child-IsQueue : (c : ℕ) (s : GraphSearch) → IsQueue s → IsQueue (enqueue_child c s)
unfolding enqueue_child contains
enqueue_child-IsQueue c s q = record {
  queued = λ x h. ground (arith, q.queued x, contains-append s.func_to_traverse (c ∷ []) x);
  distinct = elim (Bool-cases (contains s.reached c)) [
    | inl old ↦ rw (old, enqueue_child) q.distinct
    | inr fresh ↦
        rw (fresh, enqueue_child)
          (append-AreDistinct s.func_to_traverse c (ground (arith, q.queued c)) q.distinct)
  ];
}

pub enqueue-IsQueue :
    (children : List ℕ) (s : GraphSearch) → IsQueue s → IsQueue (enqueue children s)
unfolding enqueue
enqueue-IsQueue [] s q = q
enqueue-IsQueue (c ∷ children) s q =
    enqueue-IsQueue children (enqueue_child c s) (enqueue_child-IsQueue c s q)

module _ (fns : List ℕ) where
  abbrev pub work : GraphSearch → ℕ
  work s = length s.func_to_traverse + count_unvisited s.reached fns

  enqueue_child-work :
      (c : ℕ) (s : GraphSearch) → contains fns c ≡ true → work (enqueue_child c s) ≤ work s
  unfolding enqueue_child
  enqueue_child-work c s m = elim (Bool-cases (contains s.reached c)) [
    | inl old ↦ ground (arith, old)
    | inr fresh ↦ ground (
      arith,
      fresh,
      count_unvisited-less s.reached c fns fresh m,
      length-append s.func_to_traverse (c ∷ []),
    )
  ]

  enqueue-work :
      (children : List ℕ) (s : GraphSearch)
      → All (λ c. contains fns c ≡ true) children
      → work (enqueue children s) ≤ work s
  unfolding enqueue
  enqueue-work [] s a = omega arith
  enqueue-work (c ∷ children) s a =
      omega (arith, enqueue_child-work c s a.0, enqueue-work children (enqueue_child c s) a.1)

  module _ (calls called : ℕ → List ℕ)
      (closed : (f c : ℕ) → contains (called f) c ≡ true → contains fns c ≡ true) where
    traverse_fn-work :
        (parent : ℕ) (s : GraphSearch) → work (traverse_fn calls called parent s) ≤ work s
    unfolding traverse_fn added collected contains
    traverse_fn-work parent s =
        let g = added calls called parent s in
        enqueue-work (g.children_fns parent) (record s { graph = g })
          (All-contains (λ c. contains fns c ≡ true) (g.children_fns parent)
            (λ c m. closed parent c (
              ground (
                arith,
                contains-children parent [] (called parent) (collected calls called parent s) parent
                    c,
              ))))

    -- With fuel for all the work that is left, the queue becomes empty.
    pub traverse-ends :
        (fuel : ℕ) (s : GraphSearch)
        → work s ≤ fuel
        → (traverse calls called fuel s).func_to_traverse ≡ []
    unfolding traverse
    traverse-ends zero s h = elim (List-cases s.func_to_traverse) [
      | inl empty ↦ empty
      | inr (parent, rest, queued) ↦ absurd (ground (arith, queued))
    ]
    traverse-ends (suc fuel) s h = elim (List-cases s.func_to_traverse) [
      | inl empty ↦ rw (empty, traverse) empty
      | inr (parent, rest, queued) ↦
          rw (queued, traverse)
            (traverse-ends fuel
              (traverse_fn calls called parent (record s { func_to_traverse = rest }))
              (ground
                (arith, queued, traverse_fn-work parent (record s { func_to_traverse = rest }))))
    ]
