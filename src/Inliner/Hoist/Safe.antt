-- ===== src/Inliner/Hoist/Safe.antt =====
-- Which functions the hoisting of loops changes.
use gino.Base.{
  ℕ_discrete, ℕ, zero, suc, ◌+◌, length, ◌≤◌, ◌≡◌, ◌≢◌, refl, sym, ◌∙◌, ◌⊎◌, inl, inr, ◌==◌, ==_iff,
  true, false, ◌&&◌, ◌||◌, some, Option-cases, Bool-cases, List, [], ◌∷◌, contains,
  contains-set_insert, get_elem?, arith, subst,
}
use gino.Inliner.{FnGraph, DepthOrder, order_of}
use gino.Inliner.Graph.{add_child, add_children}
use gino.Inliner.Adjust.{adjust_fn_graph_after_inline, called_after_inline, unlink}
use gino.Inliner.Inline.{
  State, Code, find_index, can_inline_without_recursive_loop, is_inlined, record_inline,
  inline_function_call, inline_function_call-cases,
}
use gino.Inliner.Hoist.{
  Hoist, Tried, as_set, calls_fn, try_calls, is_tried, record_parent, try_parent, try_parents,
  hoist_fn, hoist, start_hoist, inline_fns_of_loops_to_cg_root,
}

-- A reason for which function `p` may be changed: one of its own calls, which are `calls p`, can be
-- inlined and is of another function, one that is not less deep and no entrance of a recursive chain.
abbrev pub MayChange : Code → (ℕ → List ℕ) → DepthOrder → ℕ → Type 0
MayChange code calls d p =
    (c : ℕ) × (call : ℕ) × (contains (calls p) call ≡ true)
    × (code.called_function call ≡ some c)
    × (code.inline_function call ≡ true)
    × (p ≢ c)
    × (order_of d p ≤ order_of d c)
    × (contains d.recursive_chain_entrance_fns c ≡ false)
    × (code.static_instructions p ≤ 1000)

added_calls :
    (parent : ℕ) (met called : List ℕ) (g : FnGraph)
    → (add_children parent met called g).ordered_calls ≡ g.ordered_calls
unfolding add_children add_child
added_calls parent met [] g = refl
added_calls parent met (c ∷ called) g = elim (Bool-cases (contains met c)) [
  | inl seen ↦ rw (seen, add_children) (added_calls parent met called g)
  | inr fresh ↦
      rw (fresh, add_children) (added_calls parent (c ∷ met) called (add_child parent c g))
]

-- Inlining a call leaves the lists of calls as they are.
adjusted_calls :
    (parent child call_ind : ℕ) (g : FnGraph)
    → (adjust_fn_graph_after_inline parent child call_ind g).ordered_calls ≡ g.ordered_calls
unfolding adjust_fn_graph_after_inline unlink
adjusted_calls parent child call_ind g =
    let called = called_after_inline call_ind (g.ordered_called child) (g.ordered_called parent) in
    added_calls parent [] called (unlink parent child called g)

contains-as_set : (xs : List ℕ) (i : ℕ) → contains (as_set xs) i ≡ contains xs i
unfolding as_set contains
contains-as_set [] i = refl
contains-as_set (x ∷ xs) i =
    contains-set_insert x (as_set xs) i ∙ ground (arith, contains-as_set xs i)

pub record_parent-state :
    (parent : ℕ) (t : Tried) (h : Hoist) → (record_parent parent t h).state ≡ t.state
unfolding record_parent
record_parent-state parent t h = ground arith

module _ (code : Code) (parent child call : ℕ) (s : State) where
  may_change :
      contains (s.graph.ordered_calls parent) call ≡ true
      → calls_fn code child call ≡ true
      → is_tried child parent s ≡ true
      → is_inlined code parent child call s ≡ true
      → MayChange code s.graph.ordered_calls s.order parent
  unfolding calls_fn is_tried is_inlined can_inline_without_recursive_loop
  may_change listed own tried inlined = (
    child,
    call,
    listed,
    elim (Option-cases (code.called_function call)) [
      | inl unknown ↦ absurd (ground arith)
      | inr (f, known) ↦ ground (arith, known, ==_iff f child)
    ],
    ground arith,
    ground (arith, ==_iff parent child),
    ground arith,
    ground arith,
    ground arith,
  )

  recorded_affected :
      (p : ℕ)
      → contains (record_inline code parent child call s).fns_affected p
        ≡ (parent == p || contains s.fns_affected p)
  unfolding record_inline
  recorded_affected p = contains-set_insert parent s.fns_affected p

  recorded_calls :
      (record_inline code parent child call s).graph.ordered_calls ≡ s.graph.ordered_calls
  unfolding record_inline
  recorded_calls =
      adjusted_calls parent child (find_index call (s.graph.ordered_calls parent)) s.graph

  recorded_order : (record_inline code parent child call s).order ≡ s.order
  unfolding record_inline
  recorded_order = refl

module _ (code : Code) (calls : ℕ → List ℕ) (d : DepthOrder) where
  -- A later state: its order is the same, and the functions that it changes may be changed.
  pub record Follows (s t : State) : Type 0 where
    pub order : t.order ≡ s.order
    pub same_calls : t.graph.ordered_calls ≡ s.graph.ordered_calls
    pub changed :
        (p : ℕ)
        → contains t.fns_affected p ≡ true
        → (contains s.fns_affected p ≡ true) ⊎ MayChange code calls d p

  Follows-refl : (s : State) → Follows s s
  Follows-refl s = record { order = refl; same_calls = refl; changed = λ p h. inl h }

  Follows-trans : (s t u : State) → Follows s t → Follows t u → Follows s u
  Follows-trans s t u f g = record {
    order = g.order ∙ f.order;
    same_calls = g.same_calls ∙ f.same_calls;
    changed = λ p h. elim (g.changed p h) [ inl old ↦ f.changed p old | inr may ↦ inr may ];
  }

  inline_function_call-Follows :
      (parent child call : ℕ) (s : State)
      → s.order ≡ d
      → s.graph.ordered_calls ≡ calls
      → contains (calls parent) call ≡ true
      → calls_fn code child call ≡ true
      → is_tried child parent s ≡ true
      → Follows s (inline_function_call code parent child call s).1
  inline_function_call-Follows parent child call s same alike listed own tried =
      elim (inline_function_call-cases code parent child call s) [
        | inr refused ↦ rw refused (Follows-refl s)
        | inl (inlined, done) ↦ rw done (recorded inlined)
      ]
    where
      may : is_inlined code parent child call s ≡ true → MayChange code calls d parent
      may inlined =
          subst (λ e. MayChange code calls e parent) same
            (subst (λ m. MayChange code m s.order parent) alike
              (may_change code parent child call s
                (subst (λ m. contains (m parent) call ≡ true) (sym alike) listed) own tried
                inlined))

      recorded :
          is_inlined code parent child call s ≡ true
          → Follows s (record_inline code parent child call s)
      recorded inlined = record {
        order = recorded_order code parent child call s;
        same_calls = recorded_calls code parent child call s;
        changed = λ p h. elim (ℕ_discrete parent p) [
          | yes own ↦ inr (subst (MayChange code calls d) own (may inlined))
          | no other ↦
              inl (ground (arith, recorded_affected code parent child call s p, ==_iff parent p))
        ];
      }

  -- While the parent may still be tried. A call is only tried when nothing was inlined since the tests.
  try_calls-Follows :
      (parent child : ℕ) (left : List ℕ) (t : Tried)
      → t.state.order ≡ d
      → t.state.graph.ordered_calls ≡ calls
      → ((x : ℕ) → contains left x ≡ true → contains (calls parent) x ≡ true)
      → is_tried child parent t.state ≡ true
      → Follows t.state (try_calls code parent child left t).state
  unfolding try_calls contains
  try_calls-Follows parent child [] t same alike own_calls tried = Follows-refl t.state
  try_calls-Follows parent child (call ∷ left) t same alike own_calls tried =
      elim (Bool-cases (calls_fn code child call)) [
        | inr other ↦
            rw (other, try_calls)
              (try_calls-Follows parent child left t same alike (λ x h. own_calls x (ground arith))
                tried)
        | inl own ↦ elim (inline_function_call-cases code parent child call t.state) [
          | inr refused ↦ elim (Bool-cases t.inlined) [
            | inl before ↦ rw (own, refused, before, try_calls) (Follows-refl t.state)
            | inr nothing ↦
                rw (own, refused, nothing, try_calls)
                  (try_calls-Follows parent child left
                    (record {
                      state = t.state;
                      inlined = false;
                      inlined_calls = t.inlined_calls && false;
                    })
                    same alike (λ x h. own_calls x (ground arith)) tried)
          ]
          | inl (inlined, done) ↦
              let changed =
                subst (λ r. Follows t.state r.1) done
                  (inline_function_call-Follows parent child call t.state same alike
                    (own_calls call (ground (arith, ==_iff call call))) own tried) in
              elim (Bool-cases t.inlined) [
                | inl before ↦ rw (own, done, before, try_calls) changed
                | inr nothing ↦ rw (own, done, nothing, try_calls) changed
              ]
        ]
      ]

  try_parent-Follows :
      (child parent : ℕ) (h : Hoist)
      → h.state.order ≡ d
      → h.state.graph.ordered_calls ≡ calls
      → Follows h.state (try_parent code child parent h).state
  unfolding try_parent
  try_parent-Follows child parent h same alike = elim (Bool-cases (is_tried child parent h.state)) [
    | inr refused ↦ rw (refused, try_parent) (Follows-refl h.state)
    | inl tried ↦
        let t : Tried = record { state = h.state; inlined = h.inlined; inlined_calls = true } in
        let left = as_set (h.state.graph.ordered_calls parent) in
        rw (tried, try_parent)
          (subst (Follows h.state)
            (sym (record_parent-state parent (try_calls code parent child left t) h))
            (try_calls-Follows parent child left t same alike
              (λ x m.
                subst (λ c. contains (c parent) x ≡ true) alike
                  (sym (contains-as_set (h.state.graph.ordered_calls parent) x) ∙ m))
              tried))
  ]

  try_parents-Follows :
      (child : ℕ) (parents : List ℕ) (h : Hoist)
      → h.state.order ≡ d
      → h.state.graph.ordered_calls ≡ calls
      → Follows h.state (try_parents code child parents h).state
  unfolding try_parents
  try_parents-Follows child [] h same alike = Follows-refl h.state
  try_parents-Follows child (parent ∷ parents) h same alike =
      let h' = try_parent code child parent h in
      let one = try_parent-Follows child parent h same alike in
      Follows-trans h.state h'.state (try_parents code child parents h').state one
        (try_parents-Follows child parents h' (one.order ∙ same) (one.same_calls ∙ alike))

  hoist_fn-Follows :
      (child : ℕ) (h : Hoist)
      → h.state.order ≡ d
      → h.state.graph.ordered_calls ≡ calls
      → Follows h.state (hoist_fn code child h).state
  unfolding hoist_fn
  hoist_fn-Follows child h same alike =
      let start = record h { inlined_in_parents = true } in
      let parents = h.state.graph.parent_fns child in
      let f = try_parents-Follows child parents start same alike in
      elim (Bool-cases (contains h.fns_to_avoid child)) [
        | inl avoided ↦ rw (avoided, hoist_fn) (Follows-refl h.state)
        | inr taken ↦ elim (Bool-cases (try_parents code child parents start).inlined_in_parents) [
          | inr left ↦ rw (taken, left, hoist_fn) f
          | inl all ↦
              rw (taken, all, hoist_fn)
                (record { order = f.order; same_calls = f.same_calls; changed = f.changed })
        ]
      ]

  hoist-Follows :
      (fuel i : ℕ) (h : Hoist)
      → h.state.order ≡ d
      → h.state.graph.ordered_calls ≡ calls
      → Follows h.state (hoist code fuel i h).1.state
  unfolding hoist
  hoist-Follows zero i h same alike = Follows-refl h.state
  hoist-Follows (suc fuel) i h same alike = elim (Option-cases (get_elem? h.ordered_fns i)) [
    | inl over ↦ rw (over, hoist) (Follows-refl h.state)
    | inr (child, here) ↦
        let h' = hoist_fn code child h in
        let one = hoist_fn-Follows child h same alike in
        rw (here, hoist)
          (Follows-trans h.state h'.state (hoist code fuel (suc i) h').1.state one
            (hoist-Follows fuel (suc i) h' (one.order ∙ same) (one.same_calls ∙ alike)))
  ]

-- Hoisting loops to main never changes the depth order, and every function that it changes had at most
-- 1000 instructions and a call of its own that LLVM can inline of another function, one that is not less
-- deep and no entrance of a recursive chain.
pub inline_fns_of_loops_to_cg_root-safe :
    (code : Code) (num_fns : ℕ) (s : State)
    → ((inline_fns_of_loops_to_cg_root code num_fns s).1.state.order ≡ s.order)
      × ((p : ℕ)
          → contains s.fns_affected p ≡ false
          → contains (inline_fns_of_loops_to_cg_root code num_fns s).1.state.fns_affected p ≡ true
          → MayChange code s.graph.ordered_calls s.order p)
unfolding inline_fns_of_loops_to_cg_root start_hoist
inline_fns_of_loops_to_cg_root-safe code num_fns s =
    let f =
      hoist-Follows code s.graph.ordered_calls s.order (length s.fns_to_check + num_fns) 0
        (start_hoist s) refl refl in
    (
      f.order,
      λ p before after. elim (f.changed p after) [
        | inl old ↦ absurd (ground arith)
        | inr may ↦ may
      ],
    )
