-- ===== src/Inliner/Depth/Fuel.antt =====
-- The loops of the depth order end: each function enters the queue once.
use gino.Base.{
  ℕ, zero, suc, ◌+◌, ◌<◌, ◌≤◌, ◌≡◌, refl, inl, inr, ==_iff, true, false, Option-cases, Bool-cases,
  List-cases, List, [], ◌∷◌, ◌++◌, length, length-append, contains, count_unvisited,
  count_unvisited-less, All, All-contains, arith,
}
use gino.Inliner.Depth.{
  DepthSearch, push_fn, enter, visit_child, visit_children_of, drain, order_deferred,
}
use gino.Inliner.Depth.Ordered.{Descends, root, child, Inv, push_fn-Inv, enter-Inv}
use gino.Inliner.Depth.Grown.{enter_new, entered}

module _ (fns : List ℕ) where
  abbrev pub work : DepthSearch → ℕ
  work s = length s.func_to_traverse + count_unvisited s.reached fns

  work-enter : (d : ℕ) (s : DepthSearch) → work (enter d s) ≡ work s
  unfolding enter
  work-enter d s = refl

  push_fn-work :
      (f : ℕ) (s : DepthSearch)
      → contains fns f ≡ true
      → contains s.reached f ≡ false
      → work (push_fn f s) ≤ work s
  unfolding push_fn
  push_fn-work f s m new =
      omega (
        arith,
        count_unvisited-less s.reached f fns new m,
        length-append s.func_to_traverse (f ∷ []),
      )

  module _ (children_fns parent_fns : ℕ → List ℕ)
      (closed : (p c : ℕ) → contains (children_fns p) c ≡ true → contains fns c ≡ true) where
    visit_child-work :
        (f : ℕ) (s : DepthSearch)
        → contains fns f ≡ true
        → work (visit_child children_fns parent_fns f s) ≤ work s
    unfolding visit_child
    visit_child-work f s m = elim (Bool-cases (contains s.reached f)) [
      | inl old ↦ ground (arith, old)
      | inr new ↦ ground (arith, push_fn-work f s m new)
    ]

    visit_children_of-work :
        (fs : List ℕ) (s : DepthSearch)
        → All (λ f. contains fns f ≡ true) fs
        → work (visit_children_of children_fns parent_fns fs s) ≤ work s
    unfolding visit_children_of
    visit_children_of-work [] s a = omega arith
    visit_children_of-work (f ∷ fs) s a = omega (
      arith,
      visit_child-work f s a.0,
      visit_children_of-work fs (visit_child children_fns parent_fns f s) a.1,
    )

    -- The state after one round of the inner loop.
    abbrev pub round : ℕ → List ℕ → DepthSearch → DepthSearch
    round func rest s =
        visit_children_of children_fns parent_fns (children_fns func)
          (record s { func_to_traverse = rest })

    round-work :
        (func : ℕ) (rest : List ℕ) (s : DepthSearch)
        → s.func_to_traverse ≡ func ∷ rest
        → work (round func rest s) < work s
    round-work func rest s queued = ground (
      arith,
      queued,
      visit_children_of-work (children_fns func) (record s { func_to_traverse = rest })
          (All-contains (λ c. contains fns c ≡ true) (children_fns func) (closed func)),
    )

    drain_empty :
        (fuel : ℕ) (s : DepthSearch)
        → s.func_to_traverse ≡ []
        → drain children_fns parent_fns (suc fuel) s ≡ s
    unfolding drain
    drain_empty fuel s empty = ground (arith, empty)

    drain_next :
        (fuel : ℕ) (s : DepthSearch) (func : ℕ) (rest : List ℕ)
        → s.func_to_traverse ≡ func ∷ rest
        → drain children_fns parent_fns (suc fuel) s
          ≡ drain children_fns parent_fns fuel (round func rest s)
    unfolding drain
    drain_next fuel s func rest queued = rw (queued, drain) refl

    pub drain-work :
        (fuel : ℕ) (s : DepthSearch) → work (drain children_fns parent_fns fuel s) ≤ work s
    unfolding drain
    drain-work zero s = omega arith
    drain-work (suc fuel) s = elim (List-cases s.func_to_traverse) [
      | inl empty ↦ rw (drain_empty fuel s empty) (omega arith)
      | inr (func, rest, queued) ↦
          rw (drain_next fuel s func rest queued)
            (omega (arith, round-work func rest s queued, drain-work fuel (round func rest s)))
    ]

    pub drain-less :
        (fuel : ℕ) (s : DepthSearch) (func : ℕ) (rest : List ℕ)
        → s.func_to_traverse ≡ func ∷ rest
        → work (drain children_fns parent_fns (suc fuel) s) < work s
    drain-less fuel s func rest queued =
        rw (drain_next fuel s func rest queued)
          (omega (arith, round-work func rest s queued, drain-work fuel (round func rest s)))

    -- With fuel for all the work that is left, the queue becomes empty.
    pub drain-ends :
        (fuel : ℕ) (s : DepthSearch)
        → work s ≤ fuel
        → (drain children_fns parent_fns fuel s).func_to_traverse ≡ []
    unfolding drain
    drain-ends zero s h = elim (List-cases s.func_to_traverse) [
      | inl empty ↦ empty
      | inr (func, rest, queued) ↦ absurd (ground (arith, queued))
    ]
    drain-ends (suc fuel) s h = elim (List-cases s.func_to_traverse) [
      | inl empty ↦ rw (empty, drain) empty
      | inr (func, rest, queued) ↦
          rw (queued, drain)
            (drain-ends fuel (round func rest s) (omega (arith, round-work func rest s queued)))
    ]

    module _ (main : ℕ) (has_main : contains fns main ≡ true) where
      pub Descends-fns : (f : ℕ) → Descends children_fns main f → contains fns f ≡ true
      Descends-fns _ root = has_main
      Descends-fns _ (child p c d m) = closed p c m

      pub order_deferred-work :
          (ds remaining : List ℕ) (s : DepthSearch)
          → Inv children_fns parent_fns main s
          → ((x : ℕ) → contains ds x ≡ true → Descends children_fns main x)
          → work (order_deferred children_fns parent_fns ds remaining s) ≤ work s
      unfolding order_deferred contains
      order_deferred-work [] remaining s v below = omega arith
      order_deferred-work (d ∷ ds) remaining s v below = elim (Option-cases (s.order.fn_orders d)) [
        | inr (i, known) ↦
            rw (known, order_deferred)
              (order_deferred-work ds remaining s v (λ x h. below x (ground arith)))
        | inl new ↦
            let here = below d (ground (arith, ==_iff d d)) in
            let fresh = enter_new children_fns parent_fns main d s v new in
            let rest =
              order_deferred-work ds (remaining ++ d ∷ []) (push_fn d (enter d s))
                (push_fn-Inv children_fns parent_fns main d (enter d s)
                  (enter-Inv children_fns parent_fns main d s v) fresh (inr (inl (entered d s)))
                  here)
                (λ x h. below x (ground arith)) in
            let pushed = push_fn-work d (enter d s) (Descends-fns d here) fresh in
            rw (new, order_deferred) (omega (arith, rest, pushed, work-enter d s))
      ]
