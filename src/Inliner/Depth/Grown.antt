-- ===== src/Inliner/Depth/Grown.antt =====
-- How the steps of the depth order enlarge its state, and which functions are left to visit.
use gino.Base.{
  ℕ, ◌≡◌, refl, ap, ◌∙◌, ◌⊎◌, inl, inr, ◌==◌, ==_iff, true, false, none, some, Option-cases,
  Bool-cases, List, [], ◌∷◌, ◌++◌, get_elem?, get_elem?-append_ne, get_elem?-lt, contains,
  contains-append, contains-set_insert, arith, subst, ℕ_discrete,
}
use gino.Inliner.Depth.{
  DepthSearch, push_fn, enter, are_all_reached, visit_child, visit_children_of, order_deferred,
}
use gino.Inliner.Depth.Ordered.{Descends, Inv, push_fn-Inv, enter-Inv}

-- What a step keeps; a function that it reaches is put into the queue.
pub record Grows (s t : DepthSearch) : Type 0 where
  pub reached : (x : ℕ) → contains s.reached x ≡ true → contains t.reached x ≡ true
  pub queue : (x : ℕ) → contains s.func_to_traverse x ≡ true → contains t.func_to_traverse x ≡ true
  pub fresh :
      (x : ℕ)
      → contains t.reached x ≡ true
      → (contains s.reached x ≡ true) ⊎ (contains t.func_to_traverse x ≡ true)
  pub depth :
      (i x : ℕ)
      → get_elem? s.order.depth_ordered_fns i ≡ some x
      → get_elem? t.order.depth_ordered_fns i ≡ some x

pub Grows-refl : (s : DepthSearch) → Grows s s
Grows-refl s = record {
  reached = λ x h. h;
  queue = λ x h. h;
  fresh = λ x h. inl h;
  depth = λ i x h. h;
}

pub Grows-trans : (s t u : DepthSearch) → Grows s t → Grows t u → Grows s u
Grows-trans s t u g h = record {
  reached = λ x r. h.reached x (g.reached x r);
  queue = λ x q. h.queue x (g.queue x q);
  fresh = λ x r. elim (h.fresh x r) [
    | inr queued ↦ inr queued
    | inl old ↦ elim (g.fresh x old) [ inl older ↦ inl older | inr queued ↦ inr (h.queue x queued) ]
  ];
  depth = λ i x e. h.depth i x (g.depth i x e);
}

pub push_fn-Grows : (f : ℕ) (s : DepthSearch) → Grows s (push_fn f s)
unfolding push_fn contains
push_fn-Grows f s = record {
  reached = λ x h. ground arith;
  queue = λ x h. ground (arith, contains-append s.func_to_traverse (f ∷ []) x);
  fresh = λ x h. elim (Bool-cases (f == x)) [
    | inl same ↦ inr (ground (arith, contains-append s.func_to_traverse (f ∷ []) x))
    | inr other ↦ inl (ground arith)
  ];
  depth = λ i x e.
      get_elem?-append_ne s.order.depth_ordered_fns f i
        (λ last. omega (arith, last, get_elem?-lt s.order.depth_ordered_fns i e))
      ∙ e;
}

pub reached-push_fn : (f : ℕ) (s : DepthSearch) → contains (push_fn f s).reached f ≡ true
unfolding push_fn contains
reached-push_fn f s = ground (arith, ==_iff f f)

enter_pushed : (d : ℕ) (s : DepthSearch) → Grows s (push_fn d (enter d s))
unfolding enter
enter_pushed d s =
    let g = push_fn-Grows d (enter d s) in
    record { reached = g.reached; queue = g.queue; fresh = g.fresh; depth = g.depth }

pub entered :
    (d : ℕ) (s : DepthSearch) → contains (enter d s).order.recursive_chain_entrance_fns d ≡ true
unfolding enter
entered d s =
    ground (arith, contains-set_insert d s.order.recursive_chain_entrance_fns d, ==_iff d d)

deferred-push_fn : (f : ℕ) (s : DepthSearch) → (push_fn f s).deferred ≡ s.deferred
unfolding push_fn
deferred-push_fn f s = refl

module _ (children_fns parent_fns : ℕ → List ℕ) where
  -- The state after a visit, and what became of the visited child.
  record Visits (f : ℕ) (s t : DepthSearch) : Type 0 where
    grows : Grows s t
    late : (x : ℕ) → contains s.deferred x ≡ true → contains t.deferred x ≡ true
    found : (contains t.reached f ≡ true) ⊎ (contains t.deferred f ≡ true)

  visit_child-Visits :
      (f : ℕ) (s : DepthSearch) → Visits f s (visit_child children_fns parent_fns f s)
  unfolding visit_child contains
  visit_child-Visits f s = elim (Bool-cases (contains s.reached f)) [
    | inl old ↦
        rw (old, visit_child) (record { grows = Grows-refl s; late = λ x h. h; found = inl old })
    | inr new ↦ elim (Bool-cases (are_all_reached s.reached (parent_fns f))) [
      | inl parents ↦
          rw (new, parents, visit_child)
            (record {
              grows = push_fn-Grows f s;
              late = λ x h. ap (λ ds. contains ds x) (deferred-push_fn f s) ∙ h;
              found = inl (reached-push_fn f s);
            })
      | inr waits ↦
          rw (new, waits, visit_child)
            (record {
              grows = record {
                reached = λ x h. h;
                queue = λ x h. h;
                fresh = λ x h. inl h;
                depth = λ i x h. h;
              };
              late = λ x h. ground (arith, contains-append s.deferred (f ∷ []) x);
              found = inr (ground (arith, contains-append s.deferred (f ∷ []) f, ==_iff f f));
            })
    ]
  ]

  -- Every child is reached or deferred.
  pub record VisitsAll (fs : List ℕ) (s t : DepthSearch) : Type 0 where
    pub grows : Grows s t
    pub late : (x : ℕ) → contains s.deferred x ≡ true → contains t.deferred x ≡ true
    pub found :
        (f : ℕ)
        → contains fs f ≡ true
        → (contains t.reached f ≡ true) ⊎ (contains t.deferred f ≡ true)

  pub visit_children_of-VisitsAll :
      (fs : List ℕ) (s : DepthSearch)
      → VisitsAll fs s (visit_children_of children_fns parent_fns fs s)
  unfolding visit_children_of contains
  visit_children_of-VisitsAll [] s = record {
    grows = Grows-refl s;
    late = λ x h. h;
    found = λ f h. absurd (ground arith);
  }
  visit_children_of-VisitsAll (f ∷ fs) s =
      let t = visit_child children_fns parent_fns f s in
      let one = visit_child-Visits f s in
      let rest = visit_children_of-VisitsAll fs t in
      record {
        grows =
            Grows-trans s t (visit_children_of children_fns parent_fns fs t) one.grows rest.grows;
        late = λ x h. rest.late x (one.late x h);
        found = λ g h. elim (ℕ_discrete f g) [
          | no other ↦ rest.found g (ground (arith, ==_iff f g))
          | yes same ↦ elim one.found [
            | inl reached ↦
                inl (rest.grows.reached g (subst (λ k. contains t.reached k ≡ true) same reached))
            | inr later ↦ inr (rest.late g (subst (λ k. contains t.deferred k ≡ true) same later))
          ]
        ];
      }

  module _ (main : ℕ) where
    -- After the loop over the deferred functions all of them are ordered.
    pub record Orders (ds : List ℕ) (s t : DepthSearch) : Type 0 where
      pub grows : Grows s t
      pub all_reached : (x : ℕ) → contains ds x ≡ true → contains t.reached x ≡ true
      pub kept : Inv children_fns parent_fns main t
      pub settled : (x : ℕ) → contains t.deferred x ≡ true → contains t.reached x ≡ true

    then_rest :
        (d : ℕ) (ds : List ℕ) (s t u : DepthSearch)
        → Grows s t
        → contains t.reached d ≡ true
        → Orders ds t u
        → Orders (d ∷ ds) s u
    unfolding contains
    then_rest d ds s t u g reached o = record {
      grows = Grows-trans s t u g o.grows;
      all_reached = λ x h. elim (ℕ_discrete d x) [
        | yes same ↦ subst (λ k. contains u.reached k ≡ true) same (o.grows.reached d reached)
        | no other ↦ o.all_reached x (ground (arith, ==_iff d x))
      ];
      kept = o.kept;
      settled = o.settled;
    }

    pub enter_new :
        (d : ℕ) (s : DepthSearch)
        → Inv children_fns parent_fns main s
        → s.order.fn_orders d ≡ none
        → contains (enter d s).reached d ≡ false
    unfolding enter
    enter_new d s v new = ground (arith, v.ordered d)

    pub order_deferred-Orders :
        (ds remaining : List ℕ) (s : DepthSearch)
        → Inv children_fns parent_fns main s
        → ((x : ℕ) → contains ds x ≡ true → Descends children_fns main x)
        → ((x : ℕ) → contains remaining x ≡ true → contains s.reached x ≡ true)
        → Orders ds s (order_deferred children_fns parent_fns ds remaining s)
    unfolding order_deferred contains
    order_deferred-Orders [] remaining s v below left = record {
      grows = record {
        reached = λ x h. h;
        queue = λ x h. h;
        fresh = λ x h. inl h;
        depth = λ i x h. h;
      };
      all_reached = λ x h. absurd (ground arith);
      kept = record {
        numbered = v.numbered;
        ordered = v.ordered;
        before = v.before;
        sound = v.sound;
        late = λ x h. v.sound x (left x h);
        queued = v.queued;
      };
      settled = left;
    }
    order_deferred-Orders (d ∷ ds) remaining s v below left =
        elim (Option-cases (s.order.fn_orders d)) [
          | inr (i, known) ↦
              rw (known, order_deferred)
                (then_rest d ds s s _ (Grows-refl s) (ground (arith, v.ordered d, known))
                  (order_deferred-Orders ds remaining s v (λ x h. below x (ground arith)) left))
          | inl new ↦
              rw (new, order_deferred)
                (then_rest d ds s (push_fn d (enter d s)) _ (enter_pushed d s)
                  (reached-push_fn d (enter d s))
                  (order_deferred-Orders ds (remaining ++ d ∷ []) (push_fn d (enter d s))
                    (push_fn-Inv children_fns parent_fns main d (enter d s)
                      (enter-Inv children_fns parent_fns main d s v) (enter_new d s v new)
                      (inr (inl (entered d s))) (below d (ground (arith, ==_iff d d))))
                    (λ x h. below x (ground arith))
                    (λ x h. elim (ℕ_discrete d x) [
                      | yes same ↦
                          subst (λ k. contains (push_fn d (enter d s)).reached k ≡ true) same
                            (reached-push_fn d (enter d s))
                      | no other ↦ (enter_pushed d s).reached x (
                          left x (ground (arith, contains-append remaining (d ∷ []) x, ==_iff d x)))
                    ])))
        ]
