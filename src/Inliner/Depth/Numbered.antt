-- ===== src/Inliner/Depth/Numbered.antt =====
-- The invariant of the loops of the depth order.
use gino.Base.{
  ℕ, zero, suc, ◌≤◌, ◌≡◌, ◌≢◌, refl, sym, ◌⊎◌, inl, inr, ◌==◌, ◌||◌, ==_iff, true, false, none,
  some, Bool-cases, List-cases, List, [], ◌∷◌, length, get_elem?, contains, count_unvisited-less,
  count_unvisited-all, arith, ℕ_discrete, subst,
}
use gino.Inliner.Depth.{
  DepthSearch, push_fn, visit_children_of, drain, order_deferred, order_fns, start_order,
}
use gino.Inliner.Depth.Ordered.{Descends, root, child, Inv, push_fn-Inv, visit_children_of-Inv}
use gino.Inliner.Depth.Grown.{VisitsAll, visit_children_of-VisitsAll, order_deferred-Orders}
use gino.Inliner.Depth.Fuel.{work, drain-less, drain-ends, order_deferred-work}

module _ (children_fns parent_fns : ℕ → List ℕ) (main : ℕ) where
  -- The children of a function that left the queue are reached or deferred.
  pub record Good (s : DepthSearch) : Type 0 where
    pub inv : Inv children_fns parent_fns main s
    pub first : get_elem? s.order.depth_ordered_fns 0 ≡ some main
    pub closed :
        (p c : ℕ)
        → contains s.reached p ≡ true
        → contains s.func_to_traverse p ≡ false
        → contains (children_fns p) c ≡ true
        → (contains s.reached c ≡ true) ⊎ (contains s.deferred c ≡ true)

  -- Every deferred function is reached.
  abbrev pub IsSettled : DepthSearch → Type 0
  IsSettled s = (x : ℕ) → contains s.deferred x ≡ true → contains s.reached x ≡ true

  module _ (func : ℕ) (rest : List ℕ) (s : DepthSearch) (queued : s.func_to_traverse ≡ func ∷ rest)
      (g : Good s) where
    abbrev popped : DepthSearch
    popped = record s { func_to_traverse = rest }

    abbrev next : DepthSearch
    next = visit_children_of children_fns parent_fns (children_fns func) popped

    visits : VisitsAll children_fns parent_fns (children_fns func) popped next
    visits = visit_children_of-VisitsAll children_fns parent_fns (children_fns func) popped

    was_queued : (x : ℕ) → contains s.func_to_traverse x ≡ (func == x || contains rest x)
    unfolding contains
    was_queued x = ground (arith, queued)

    popped-Inv : Inv children_fns parent_fns main popped
    popped-Inv =
        let v = g.inv in
        record {
          numbered = v.numbered;
          ordered = v.ordered;
          before = v.before;
          sound = v.sound;
          late = v.late;
          queued = λ f h. v.queued f (ground (arith, was_queued f));
        }

    func_below : Descends children_fns main func
    func_below =
        g.inv.sound func (g.inv.queued func (ground (arith, was_queued func, ==_iff func func)))

    found_again :
        (c : ℕ)
        → (contains s.reached c ≡ true) ⊎ (contains s.deferred c ≡ true)
        → (contains next.reached c ≡ true) ⊎ (contains next.deferred c ≡ true)
    found_again c (inl old) = inl (visits.grows.reached c old)
    found_again c (inr later) = inr (visits.late c later)

    next-Good : Good next
    next-Good = record {
      inv =
          visit_children_of-Inv children_fns parent_fns main (children_fns func) popped
            (λ f m. child func f func_below m) popped-Inv;
      first = visits.grows.depth 0 main g.first;
      closed = λ p c r done m. elim (ℕ_discrete func p) [
        | yes same ↦ visits.found c (subst (λ q. contains (children_fns q) c ≡ true) (sym same) m)
        | no other ↦ elim (visits.grows.fresh p r) [
          | inr waiting ↦ absurd (ground arith)
          | inl old ↦ found_again c (g.closed p c old (left p other done) m)
        ]
      ];
    }
      where
        left :
            (p : ℕ)
            → func ≢ p
            → contains next.func_to_traverse p ≡ false
            → contains s.func_to_traverse p ≡ false
        left p other done = elim (Bool-cases (contains rest p)) [
          | inl still ↦ absurd (ground (arith, visits.grows.queue p still))
          | inr gone ↦ ground (arith, was_queued p, ==_iff func p)
        ]

  drain-Good : (fuel : ℕ) (s : DepthSearch) → Good s → Good (drain children_fns parent_fns fuel s)
  unfolding drain
  drain-Good zero s g = g
  drain-Good (suc fuel) s g = elim (List-cases s.func_to_traverse) [
    | inl empty ↦ rw (empty, drain) g
    | inr (func, rest, queued) ↦
        rw (queued, drain)
          (drain-Good fuel
            (visit_children_of children_fns parent_fns (children_fns func)
              (record s { func_to_traverse = rest }))
            (next-Good func rest s queued g))
  ]

  -- After an empty queue the deferred functions are ordered.
  order_deferred-Good :
      (s : DepthSearch)
      → s.func_to_traverse ≡ []
      → Good s
      → Good (order_deferred children_fns parent_fns s.deferred [] s)
        × IsSettled (order_deferred children_fns parent_fns s.deferred [] s)
  unfolding contains
  order_deferred-Good s empty g =
      let o =
        order_deferred-Orders children_fns parent_fns main s.deferred [] s g.inv g.inv.late
          (λ x h. absurd (ground arith)) in
      (
        record {
          inv = o.kept;
          first = o.grows.depth 0 main g.first;
          closed = λ p c r done m. elim (o.grows.fresh p r) [
            | inr waiting ↦ absurd (ground arith)
            | inl old ↦ elim (g.closed p c old (ground (arith, empty)) m) [
              | inl reached ↦ inl (o.grows.reached c reached)
              | inr later ↦ inl (o.all_reached c later)
            ]
          ];
        },
        o.settled,
      )

  start-Good : Good (start_order main)
  unfolding start_order push_fn contains
  start-Good = record {
    inv = push_fn-Inv children_fns parent_fns main main nothing nothing-Inv refl (inl refl) root;
    first = refl;
    closed = λ p c r done m. absurd (ground arith);
  }
    where
      nothing : DepthSearch
      nothing = record {
        order = record {
          depth_ordered_fns = [];
          recursive_chain_entrance_fns = [];
          fn_orders = λ f. none;
        };
        func_to_traverse = [];
        reached = [];
        deferred = [];
      }

      nothing-Inv : Inv children_fns parent_fns main nothing
      nothing-Inv = record {
        numbered = λ f i. (λ h. cc h, λ h. cc h);
        ordered = λ f. refl;
        before = λ f i known ne inside. absurd (cc known);
        sound = λ f h. absurd (cc h);
        late = λ f h. absurd (cc h);
        queued = λ f h. h;
      }

  module _ (fns : List ℕ) (has_main : contains fns main ≡ true)
      (within : (p c : ℕ) → contains (children_fns p) c ≡ true → contains fns c ≡ true) where
    -- With fuel for all the work that is left, the outer loop ends.
    order_fns-Good :
        (fuel : ℕ) (s : DepthSearch)
        → Good s
        → IsSettled s
        → work fns s ≤ fuel
        → Good (order_fns children_fns parent_fns fuel s)
          × IsSettled (order_fns children_fns parent_fns fuel s)
          × ((order_fns children_fns parent_fns fuel s).func_to_traverse ≡ [])
    unfolding order_fns
    order_fns-Good zero s g t h = elim (List-cases s.func_to_traverse) [
      | inl empty ↦ (g, t, empty)
      | inr (func, rest, queued) ↦ absurd (ground (arith, queued))
    ]
    order_fns-Good (suc fuel) s g t h = elim (List-cases s.func_to_traverse) [
      | inl empty ↦ rw (empty, order_fns) (g, t, empty)
      | inr (func, rest, queued) ↦
          let d = drain children_fns parent_fns (suc fuel) s in
          let empty = drain-ends fns children_fns parent_fns within (suc fuel) s h in
          let good = drain-Good (suc fuel) s g in
          rw (queued, order_fns)
            (order_fns-Good fuel (order_deferred children_fns parent_fns d.deferred [] d)
              (order_deferred-Good d empty good).0 (order_deferred-Good d empty good).1
              (omega (
                arith,
                drain-less fns children_fns parent_fns within fuel s func rest queued,
                order_deferred-work fns children_fns parent_fns within main has_main d.deferred [] d
                    good.inv good.inv.late,
              )))
    ]

    -- The state in which the depth order ends.
    pub finished :
        Good (order_fns children_fns parent_fns (length fns) (start_order main))
        × IsSettled (order_fns children_fns parent_fns (length fns) (start_order main))
        × ((order_fns children_fns parent_fns (length fns) (start_order main)).func_to_traverse
            ≡ [])
    unfolding start_order push_fn contains
    finished =
        order_fns-Good (length fns) (start_order main) start-Good (λ x h. absurd (ground arith))
          start-work
      where
        start-work : work fns (start_order main) ≤ length fns
        start-work =
            omega (arith, count_unvisited-less [] main fns refl has_main, count_unvisited-all fns)

  -- Every function that descends from main is reached in the end.
  pub Descends-reached :
      (s : DepthSearch)
      → Good s
      → IsSettled s
      → s.func_to_traverse ≡ []
      → (f : ℕ) → Descends children_fns main f
      → contains s.reached f ≡ true
  unfolding contains
  Descends-reached s g t empty _ root =
      ground (arith, g.inv.ordered main, (g.inv.numbered main 0).1 g.first)
  Descends-reached s g t empty _ (child p c d m) =
      elim (g.closed p c (Descends-reached s g t empty p d) (ground (arith, empty)) m) [
        | inl reached ↦ reached
        | inr later ↦ t c later
      ]
