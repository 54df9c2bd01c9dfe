-- ===== src/Inliner/Depth/Ordered.antt =====
-- The invariant of the depth order: each step numbers functions in the order of the list, and numbers
-- the parents of a function before it.
use gino.Base.{
  ℕ, ◌<◌, ◌≡◌, ◌≢◌, sym, ap, ◌∙◌, ◌↔◌, ◌⊎◌, inl, inr, ==_iff, Bool, true, false, Option, none, some,
  Option-cases, Bool-cases, List, [], ◌∷◌, length, get_elem?, get_elem?-append_last,
  get_elem?-append_ne, get_elem?-lt, contains, contains-append, contains-set_insert, All, All-map,
  ℕ_discrete, arith, subst,
}
use gino.Inliner.{DepthOrder}
use gino.Inliner.Depth.{
  DepthSearch, push_fn, enter, are_all_reached, visit_child, visit_children_of,
}

abbrev pub is_some : Option ℕ → Bool
is_some none = false
is_some (some i) = true

module _ (children_fns : ℕ → List ℕ) (main : ℕ) where
  -- A path of children leads from main to the function.
  pub data Descends : ℕ → Type 0 where
    root : Descends main
    child : (p c : ℕ) → Descends p → contains (children_fns p) c ≡ true → Descends c

module _ (children_fns parent_fns : ℕ → List ℕ) (main : ℕ) where
  -- The parents have orders below `i`.
  abbrev pub AreBefore : DepthOrder → ℕ → List ℕ → Type 0
  AreBefore d i = All (λ p. (j : ℕ) × (d.fn_orders p ≡ some j) × (j < i))

  pub record Inv (s : DepthSearch) : Type 0 where
    pub numbered :
        (f i : ℕ)
        → (s.order.fn_orders f ≡ some i) ↔ (get_elem? s.order.depth_ordered_fns i ≡ some f)
    pub ordered : (f : ℕ) → contains s.reached f ≡ is_some (s.order.fn_orders f)
    pub before :
        (f i : ℕ)
        → s.order.fn_orders f ≡ some i
        → f ≢ main
        → contains s.order.recursive_chain_entrance_fns f ≡ false
        → AreBefore s.order i (parent_fns f)
    pub sound : (f : ℕ) → contains s.reached f ≡ true → Descends children_fns main f
    pub late : (f : ℕ) → contains s.deferred f ≡ true → Descends children_fns main f
    pub queued : (f : ℕ) → contains s.func_to_traverse f ≡ true → contains s.reached f ≡ true

  pub unordered :
      (s : DepthSearch) (f : ℕ) → Inv s → contains s.reached f ≡ false → s.order.fn_orders f ≡ none
  unordered s f v new = elim (Option-cases (s.order.fn_orders f)) [
    | inl none_yet ↦ none_yet
    | inr (i, known) ↦ absurd (ground (arith, v.ordered f))
  ]

  reached_before :
      (s : DepthSearch) (ps : List ℕ)
      → Inv s
      → are_all_reached s.reached ps ≡ true
      → AreBefore s.order (length s.order.depth_ordered_fns) ps
  unfolding are_all_reached
  reached_before s [] v h = tt
  reached_before s (p ∷ ps) v h = elim (Option-cases (s.order.fn_orders p)) [
    | inl none_yet ↦ absurd (ground (arith, v.ordered p))
    | inr (j, known) ↦ (
      (j, known, get_elem?-lt s.order.depth_ordered_fns j ((v.numbered p j).0 known)),
      reached_before s ps v (ground arith),
    )
  ]

  module _ (f : ℕ) (s : DepthSearch) (v : Inv s) (new : contains s.reached f ≡ false) where
    abbrev pushed : DepthSearch
    pushed = push_fn f s

    abbrev next_order : ℕ
    next_order = length s.order.depth_ordered_fns

    pushed_self : pushed.order.fn_orders f ≡ some next_order
    unfolding push_fn
    pushed_self = ground arith

    pushed_other : (g : ℕ) → f ≢ g → pushed.order.fn_orders g ≡ s.order.fn_orders g
    unfolding push_fn
    pushed_other g ne = ground arith

    -- Orders that were given stay.
    pub order_kept : (g i : ℕ) → s.order.fn_orders g ≡ some i → pushed.order.fn_orders g ≡ some i
    order_kept g i known = elim (ℕ_discrete f g) [
      | yes same ↦ absurd (ground (arith, unordered s f v new, ap s.order.fn_orders same))
      | no other ↦ pushed_other g other ∙ known
    ]

    before_kept : (i : ℕ) (ps : List ℕ) → AreBefore s.order i ps → AreBefore pushed.order i ps
    before_kept i ps = All-map ps (λ p b. (b.0, order_kept p b.0 b.1, b.2))

    last_elem : get_elem? pushed.order.depth_ordered_fns next_order ≡ some f
    unfolding push_fn
    last_elem = get_elem?-append_last s.order.depth_ordered_fns f

    inner_elem :
        (i : ℕ)
        → i ≢ next_order
        → get_elem? pushed.order.depth_ordered_fns i ≡ get_elem? s.order.depth_ordered_fns i
    unfolding push_fn
    inner_elem i ne = get_elem?-append_ne s.order.depth_ordered_fns f i ne

    number_of :
        (g i : ℕ)
        → pushed.order.fn_orders g ≡ some i
        → get_elem? pushed.order.depth_ordered_fns i ≡ some g
    number_of g i h = elim (ℕ_discrete f g) [
      | yes same ↦ ground (arith, pushed_self, last_elem, h, ap pushed.order.fn_orders same)
      | no other ↦
          let old = (v.numbered g i).0 (sym (pushed_other g other) ∙ h) in
          inner_elem i (λ e. omega (arith, e, get_elem?-lt s.order.depth_ordered_fns i old)) ∙ old
    ]

    numbered_at :
        (g i : ℕ)
        → get_elem? pushed.order.depth_ordered_fns i ≡ some g
        → pushed.order.fn_orders g ≡ some i
    numbered_at g i h = elim (ℕ_discrete i next_order) [
      | yes last ↦
          let at : get_elem? pushed.order.depth_ordered_fns i ≡ some f = rw last last_elem in
          ground
            (arith, at, h, pushed_self, last, ap pushed.order.fn_orders (some_eq f g (sym at ∙ h)))
      | no inner ↦ order_kept g i ((v.numbered g i).1 (sym (inner_elem i inner) ∙ h))
    ]
      where
        some_eq : (x y : ℕ) → some x ≡ some y → x ≡ y
        some_eq x y e = cc e

    own_number : (g i : ℕ) → f ≡ g → pushed.order.fn_orders g ≡ some i → next_order ≡ i
    own_number g i same known = cc (pushed_self, ap pushed.order.fn_orders same, known)

    -- `f` is entered as an entrance, or its parents are numbered.
    pub push_fn-Inv :
        (f ≡ main)
          ⊎ (contains s.order.recursive_chain_entrance_fns f ≡ true)
          ⊎ (are_all_reached s.reached (parent_fns f) ≡ true)
        → Descends children_fns main f
        → Inv pushed
    unfolding push_fn contains
    push_fn-Inv may below = record {
      numbered = λ g i. (number_of g i, numbered_at g i);
      ordered = λ g. elim (ℕ_discrete f g) [
        | yes same ↦ rw (← same) (ground (arith, ==_iff f f))
        | no other ↦ ground (arith, v.ordered g, ==_iff f g)
      ];
      before = λ g i known ne inside. elim (ℕ_discrete f g) [
        | yes same ↦ elim may [
          | inl is_main ↦ absurd (ne (sym same ∙ is_main))
          | inr (inl entrance) ↦
              absurd (ground (arith, ap (contains s.order.recursive_chain_entrance_fns) same))
          | inr (inr parents) ↦
              let at : next_order ≡ i = own_number g i same known in
              before_kept i (parent_fns g) (
                subst (λ h. AreBefore s.order i (parent_fns h)) same
                  (subst (λ k. AreBefore s.order k (parent_fns f)) at
                    (reached_before s (parent_fns f) v parents)))
        ]
        | no other ↦
            before_kept i (parent_fns g)
              (v.before g i (sym (pushed_other g other) ∙ known) ne inside)
      ];
      sound = λ g h. elim (ℕ_discrete f g) [
        | yes same ↦ subst (Descends children_fns main) same below
        | no other ↦ v.sound g (ground (arith, ==_iff f g))
      ];
      late = v.late;
      queued = λ g h.
          ground (arith, v.queued g, contains-append s.func_to_traverse (f ∷ []) g, ==_iff f g);
    }

  pub enter-Inv : (f : ℕ) (s : DepthSearch) → Inv s → Inv (enter f s)
  unfolding enter
  enter-Inv f s v = record {
    numbered = v.numbered;
    ordered = v.ordered;
    before = λ g i known ne inside.
        v.before g i known ne
          (ground (arith, contains-set_insert f s.order.recursive_chain_entrance_fns g));
    sound = v.sound;
    late = v.late;
    queued = v.queued;
  }

  visit_child-Inv :
      (f : ℕ) (s : DepthSearch)
      → Descends children_fns main f
      → Inv s
      → Inv (visit_child children_fns parent_fns f s)
  unfolding visit_child contains
  visit_child-Inv f s below v = elim (Bool-cases (contains s.reached f)) [
    | inl old ↦ rw (old, visit_child) v
    | inr new ↦ elim (Bool-cases (are_all_reached s.reached (parent_fns f))) [
      | inl parents ↦
          rw (new, parents, visit_child) (push_fn-Inv f s v new (inr (inr parents)) below)
      | inr waits ↦
          rw (new, waits, visit_child)
            (record {
              numbered = v.numbered;
              ordered = v.ordered;
              before = v.before;
              sound = v.sound;
              late = λ g h. elim (ℕ_discrete f g) [
                | yes same ↦ subst (Descends children_fns main) same below
                | no other ↦
                    v.late g (ground (arith, contains-append s.deferred (f ∷ []) g, ==_iff f g))
              ];
              queued = v.queued;
            })
    ]
  ]

  pub visit_children_of-Inv :
      (fs : List ℕ) (s : DepthSearch)
      → ((f : ℕ) → contains fs f ≡ true → Descends children_fns main f)
      → Inv s
      → Inv (visit_children_of children_fns parent_fns fs s)
  unfolding visit_children_of contains
  visit_children_of-Inv [] s below v = v
  visit_children_of-Inv (f ∷ fs) s below v =
      visit_children_of-Inv fs (visit_child children_fns parent_fns f s)
        (λ g h. below g (ground arith))
        (visit_child-Inv f s (below f (ground (arith, ==_iff f f))) v)
