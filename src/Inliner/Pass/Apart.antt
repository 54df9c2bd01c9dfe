-- ===== src/Inliner/Pass/Apart.antt =====
-- The pass up to the inlining for loop-carried dependences, from the call graph on.
use gino.Base.{
  ℕ, suc, ◌<◌, ◌≡◌, ◌≢◌, refl, sym, ap, ◌∙◌, ◌↔◌, ◌==◌, ==_iff, true, false, some, Option-cases,
  Bool-cases, List-cases, inl, inr, List, [], ◌∷◌, get_elem?, contains, AreDistinct, arith,
}
use gino.Inliner.{order_of}
use gino.Inliner.Graph.Reached.{Reaches, entry, by_call}
use gino.Inliner.Graph.Collected.{collect_fn_graph_lem}
use gino.Inliner.Depth.Ordered.{Descends, root, child, is_some}
use gino.Inliner.Depth.Whole.{collect_in_depth_order_fns_lem, collect_in_depth_order_fns-parents}
use gino.Inliner.Carried.Apart.{inline_calls_in_loop_carried_dependences-apart}
use gino.Inliner.Pass.{
  Program, calls, called, keys_with, collect_graph, collect_order, prepare, fns_of_loops,
  inline_carried,
}

contains-index : (xs : List ℕ) (x : ℕ) → contains xs x ≡ true → (i : ℕ) × (get_elem? xs i ≡ some x)
unfolding contains
contains-index [] x m = absurd (ground arith)
contains-index (y ∷ ys) x m = elim (Bool-cases (y == x)) [
  | inl same ↦ (0, ap some ((==_iff y x).0 same))
  | inr other ↦ let (i, at) = contains-index ys x (ground arith) in (suc i, at)
]

-- A list in which every entry has one index.
indexed-AreDistinct :
    (xs : List ℕ)
    → ((i j x : ℕ) → get_elem? xs i ≡ some x → get_elem? xs j ≡ some x → i ≡ j)
    → AreDistinct xs
indexed-AreDistinct [] one = tt
indexed-AreDistinct (x ∷ xs) one = (
  elim (Bool-cases (contains xs x)) [
    | inl again ↦
        let (i, at) = contains-index xs x again in absurd (omega (arith, one 0 (suc i) x refl at))
    | inr fresh ↦ fresh
  ],
  indexed-AreDistinct xs (λ i j y at at'. omega (arith, one (suc i) (suc j) y at at')),
)

contains-keys_with :
    (m : Program) (entries : ℕ → List ℕ) (fs : List ℕ) (x : ℕ)
    → contains fs x ≡ false
    → contains (keys_with m entries fs) x ≡ false
unfolding keys_with contains
contains-keys_with m entries [] x h = refl
contains-keys_with m entries (f ∷ fs) x h = ground (arith, contains-keys_with m entries fs x)

keys_with-AreDistinct :
    (m : Program) (entries : ℕ → List ℕ) (fs : List ℕ)
    → AreDistinct fs
    → AreDistinct (keys_with m entries fs)
unfolding keys_with
keys_with-AreDistinct m entries [] d = tt
keys_with-AreDistinct m entries (f ∷ fs) d = elim (List-cases (entries f)) [
  | inl nothing ↦ rw (nothing, keys_with) (keys_with-AreDistinct m entries fs d.1)
  | inr (l, ls, some_loops) ↦
      rw (some_loops, keys_with)
        (contains-keys_with m entries fs f d.0, keys_with-AreDistinct m entries fs d.1)
]

module _ (m : Program) (main : ℕ) (has_main : contains m.fns main ≡ true)
    (closed : (f c : ℕ) → contains (called m f) c ≡ true → contains m.fns c ≡ true) where
  -- The callees of a function that main reaches are its children.
  children_are_called :
      (p c : ℕ)
      → Reaches (called m) main p
      → contains ((collect_graph m main).children_fns p) c ≡ contains (called m p) c
  unfolding collect_graph
  children_are_called p c r =
      let g = collect_fn_graph_lem (calls m) (called m) m.fns main has_main closed in
      g.2.callees p c ∙ ap (λ cs. contains cs c) (g.3 p ∙ rw ((g.1 p).1 r) refl)

  within :
      (p c : ℕ)
      → contains ((collect_graph m main).children_fns p) c ≡ true
      → contains m.fns c ≡ true
  unfolding collect_graph contains
  within p c h =
      let g = collect_fn_graph_lem (calls m) (called m) m.fns main has_main closed in
      closed p c (ground (arith, g.2.callees p c, g.3 p))

  Reaches-Descends :
      (p : ℕ) → Reaches (called m) main p → Descends (collect_graph m main).children_fns main p
  Reaches-Descends _ entry = root
  Reaches-Descends _ (by_call p c r call) =
      child p c (Reaches-Descends p r) (children_are_called p c r ∙ call)

  caller_is_parent :
      (p f : ℕ)
      → Reaches (called m) main p
      → contains (called m p) f ≡ true
      → contains ((collect_graph m main).parent_fns f) p ≡ true
  unfolding collect_graph
  caller_is_parent p f r call =
      let g = collect_fn_graph_lem (calls m) (called m) m.fns main has_main closed in
      sym (g.2.mirrored p f) ∙ children_are_called p f r ∙ call

  order_facts :
      ((collect_order m main).fn_orders main ≡ some 0)
      × ((f : ℕ)
          → (is_some ((collect_order m main).fn_orders f) ≡ true)
            ↔ Descends (collect_graph m main).children_fns main f)
      × ((f i : ℕ)
          → ((collect_order m main).fn_orders f ≡ some i)
            ↔ (get_elem? (collect_order m main).depth_ordered_fns i ≡ some f))
  unfolding collect_order
  order_facts =
      collect_in_depth_order_fns_lem (collect_graph m main).children_fns
        (collect_graph m main).parent_fns m.fns main has_main within

  -- A function that is no entrance is deeper than its callers.
  callee_deeper :
      (f p : ℕ)
      → f ≢ main
      → contains (collect_order m main).recursive_chain_entrance_fns f ≡ false
      → Reaches (called m) main p
      → contains (called m p) f ≡ true
      → order_of (collect_order m main) p < order_of (collect_order m main) f
  unfolding collect_order
  callee_deeper f p ne inside r call =
      let g = collect_graph m main in
      elim (Option-cases ((collect_order m main).fn_orders f)) [
        | inl unknown ↦
            absurd (ground (arith, (order_facts.1 f).1 (Reaches-Descends f (by_call p f r call))))
        | inr (i, known) ↦
            let before =
              collect_in_depth_order_fns-parents g.children_fns g.parent_fns m.fns main f i p
                has_main within known ne inside (caller_is_parent p f r call) in
            ground (arith, known, before.1, before.2)
      ]

  fns_of_loops-AreDistinct : AreDistinct (fns_of_loops m (prepare m main))
  unfolding fns_of_loops prepare
  fns_of_loops-AreDistinct = keys_with-AreDistinct m _ (collect_order m main).depth_ordered_fns (
      indexed-AreDistinct (collect_order m main).depth_ordered_fns
        (λ i j x at at'. cc ((order_facts.2 x i).1 at, (order_facts.2 x j).1 at')))

-- In one run of the inliner for loop-carried dependences, a function other than main that is no entrance
-- of a recursive chain and a caller of it that main reaches are never both changed: the calls are
-- collected, the graph is built, the functions are ordered, and where the callee is changed the caller
-- waits for the next run.
pub inline_carried-apart :
    (m : Program) (main f p : ℕ)
    → contains m.fns main ≡ true
    → ((q c : ℕ) → contains (called m q) c ≡ true → contains m.fns c ≡ true)
    → f ≢ main
    → contains (collect_order m main).recursive_chain_entrance_fns f ≡ false
    → Reaches (called m) main p
    → contains (called m p) f ≡ true
    → contains (inline_carried m main).1.fns_affected f ≡ true
    → contains (inline_carried m main).1.fns_affected p ≡ false
unfolding inline_carried prepare contains
inline_carried-apart m main f p has_main closed ne inside r call changed =
    inline_calls_in_loop_carried_dependences-apart m.analyses (fns_of_loops m (prepare m main))
      (prepare m main) f p (fns_of_loops-AreDistinct m main has_main closed)
      (callee_deeper m main has_main closed f p ne inside r call)
      (caller_is_parent m main has_main closed p f r call) refl refl changed
