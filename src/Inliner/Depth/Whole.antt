-- ===== src/Inliner/Depth/Whole.antt =====
-- The depth order as a whole.
use gino.Base.{
  ℕ, ◌<◌, ◌≡◌, ◌≢◌, ◌∙◌, sym, ◌↔◌, true, false, some, List, length, get_elem?, contains,
  contains-All,
}
use gino.Inliner.Depth.{order_fns, start_order, collect_in_depth_order_fns}
use gino.Inliner.Depth.Ordered.{Descends, is_some}
use gino.Inliner.Depth.Numbered.{finished, Descends-reached}

-- For every call graph over the functions of the program, the depth order gives main order 0, and it
-- orders exactly the functions that are reached from main over children, each once: a function has
-- order i exactly when it is entry i of the list.
pub collect_in_depth_order_fns_lem :
    (children_fns parent_fns : ℕ → List ℕ) (fns : List ℕ) (main : ℕ)
    → contains fns main ≡ true
    → ((p c : ℕ) → contains (children_fns p) c ≡ true → contains fns c ≡ true)
    → ((collect_in_depth_order_fns children_fns parent_fns (length fns) main).fn_orders main
        ≡ some 0)
      × ((f : ℕ)
          → (is_some
                ((collect_in_depth_order_fns children_fns parent_fns (length fns) main).fn_orders f)
              ≡ true)
            ↔ Descends children_fns main f)
      × ((f i : ℕ)
          → ((collect_in_depth_order_fns children_fns parent_fns (length fns) main).fn_orders f
              ≡ some i)
            ↔ (get_elem?
                  (collect_in_depth_order_fns children_fns parent_fns
                    (length fns)
                    main).depth_ordered_fns
                  i
                ≡ some f))
unfolding collect_in_depth_order_fns
collect_in_depth_order_fns_lem children_fns parent_fns fns main has_main within =
    let (g, settled, empty) = finished children_fns parent_fns main fns has_main within in
    let s = order_fns children_fns parent_fns (length fns) (start_order main) in
    (
      (g.inv.numbered main 0).1 g.first,
      λ f. (
        λ h. g.inv.sound f (g.inv.ordered f ∙ h),
        λ d.
            sym (g.inv.ordered f)
            ∙ Descends-reached children_fns parent_fns main s g settled empty f d,
      ),
      g.inv.numbered,
    )

-- In the depth order every parent of a function comes before the function, unless the function is main
-- or was entered as the entrance of a recursive chain.
pub collect_in_depth_order_fns-parents :
    (children_fns parent_fns : ℕ → List ℕ) (fns : List ℕ) (main f i p : ℕ)
    → contains fns main ≡ true
    → ((q c : ℕ) → contains (children_fns q) c ≡ true → contains fns c ≡ true)
    → (collect_in_depth_order_fns children_fns parent_fns (length fns) main).fn_orders f ≡ some i
    → f ≢ main
    → contains
        (collect_in_depth_order_fns children_fns parent_fns
          (length fns)
          main).recursive_chain_entrance_fns
        f
      ≡ false
    → contains (parent_fns f) p ≡ true
    → (j : ℕ) × ((collect_in_depth_order_fns children_fns parent_fns (length fns) main).fn_orders p
        ≡ some j)
      × (j < i)
unfolding collect_in_depth_order_fns
collect_in_depth_order_fns-parents children_fns parent_fns fns main f i p has_main within known ne
      inside is_parent =
    let (g, settled, empty) = finished children_fns parent_fns main fns has_main within in
    let s = order_fns children_fns parent_fns (length fns) (start_order main) in
    contains-All (λ q. (j : ℕ) × (s.order.fn_orders q ≡ some j) × (j < i)) (parent_fns f) p
      (g.inv.before f i known ne inside) is_parent
