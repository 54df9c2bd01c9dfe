-- ===== src/Parallelizer/Order.antt =====
-- The parallelizer follows the plan that the planner has attached to the loops.
use gino.Base.{
  contains, ℕ, suc, ◌+◌, ◌≤◌, ◌≡◌, ◌≢◌, sym, ◌∙◌, inl, inr, true, false, List, [], ◌∷◌, foldl,
  Option, none, some, All, ◌==◌, ==_iff, arith, if◌then◌else◌, Option-cases,
}
use gino.Planner.Selection.{Candidate}
use gino.Planner.Plan.{LoopOrder}
use gino.Planner.Plan.Numbering.{numbered}
use gino.Parallelizer.Entries.{
  OrderMap, lookup_order, IsRising, lookup_order-insert_order, insert_order-IsRising, OrderMap-ext,
}
use gino.Parallelizer.{Options, is_selected, select_loop, order_loops}

-- The metadata of a loop: the index that the plan has given it.
abbrev pub get_metadata : List LoopOrder → ℕ → Option ℕ
get_metadata [] l = none
get_metadata (o ∷ os) l = if o.loop == l then some o.index else get_metadata os l

abbrev pub entries : List LoopOrder → OrderMap
entries [] = []
entries (o ∷ os) = (o.index, o.loop) ∷ entries os

-- Each loop is a candidate once.
abbrev pub AreDistinct : List Candidate → Type 0
AreDistinct [] = Unit
AreDistinct (c ∷ cs) = All (λ d. d.loop ≢ c.loop) cs × AreDistinct cs

numbered-IsRising : (i : ℕ) (cs : List Candidate) → IsRising i (entries (numbered i cs))
numbered-IsRising i [] = tt
numbered-IsRising i (c ∷ cs) = (omega arith, rw (sym (suc_eq i)) (numbered-IsRising (i + 1) cs))
  where
    suc_eq : (k : ℕ) → k + 1 ≡ suc k
    suc_eq k = omega arith

-- A loop with an index is the entry at that index.
metadata-entry :
    (i : ℕ) (cs : List Candidate) (l j : ℕ)
    → get_metadata (numbered i cs) l ≡ some j
    → (i ≤ j) × (lookup_order (entries (numbered i cs)) j ≡ some l)
unfolding lookup_order
metadata-entry i [] l j e = cc
metadata-entry i (c ∷ cs) l j e = ground (arith, metadata-entry (i + 1) cs l j, ==_iff c.loop l)

-- With distinct loops, the entry at an index has that index.
other-loops :
    (i : ℕ) (cs : List Candidate) (k j l : ℕ)
    → All (λ d. d.loop ≢ k) cs
    → lookup_order (entries (numbered i cs)) j ≡ some l
    → k ≢ l
unfolding lookup_order
other-loops i [] k j l a e = cc
other-loops i (c ∷ cs) k j l a e = ground (arith, other-loops (i + 1) cs k j l a.1)

entry-metadata :
    (i : ℕ) (cs : List Candidate) (l j : ℕ)
    → AreDistinct cs
    → lookup_order (entries (numbered i cs)) j ≡ some l
    → get_metadata (numbered i cs) l ≡ some j
unfolding lookup_order
entry-metadata i [] l j d e = cc
entry-metadata i (c ∷ cs) l j d e = ground (
  arith,
  entry-metadata (i + 1) cs l j d.1,
  other-loops (i + 1) cs c.loop j l d.0,
  ==_iff c.loop l,
)

-- An entry of the plan is the loop of a candidate.
planned-visited :
    (visits : List ℕ) (i : ℕ) (cs : List Candidate) (j l : ℕ)
    → All (λ c. contains visits c.loop ≡ true) cs
    → lookup_order (entries (numbered i cs)) j ≡ some l
    → contains visits l ≡ true
unfolding lookup_order
planned-visited visits i [] j l a e = cc
planned-visited visits i (c ∷ cs) j l a e =
    ground (arith, planned-visited visits (i + 1) cs j l a.1)

module _ (options : Options) (everything : (i : ℕ) → is_selected options i ≡ true)
    (cs : List Candidate) where
  abbrev plan : OrderMap
  plan = entries (numbered 0 cs)

  abbrev order_of : ℕ → Option ℕ
  order_of = get_metadata (numbered 0 cs)

  -- The map holds entries of the plan only, and those of the loops visited.
  record Follows (visited : List ℕ) (m : OrderMap) : Type 0 where
    rising : IsRising 0 m
    sound : (i l : ℕ) → lookup_order m i ≡ some l → lookup_order plan i ≡ some l
    found : (i l : ℕ) → contains visited l ≡ true → order_of l ≡ some i → lookup_order m i ≡ some l

  select_loop-Follows :
      (visited : List ℕ) (m : OrderMap) (l : ℕ)
      → Follows visited m
      → Follows (l ∷ visited) (select_loop options order_of m l)
  unfolding select_loop contains
  select_loop-Follows visited m l v = elim (Option-cases (order_of l)) [
    | inl skip ↦
        rw (skip, select_loop)
          (record {
            rising = v.rising;
            sound = v.sound;
            found = λ j k c e. ground (arith, v.found j k, ==_iff l k);
          })
    | inr (i, has) ↦
        rw (has, select_loop)
          (rw (everything i) (record {
            rising = insert_order-IsRising i l 0 m (omega arith) v.rising;
            sound = λ j k e. ground (
              arith,
              v.sound j k,
              lookup_order-insert_order i l j m,
              metadata-entry 0 cs l i,
              ==_iff i j,
            );
            found = λ j k c e. ground (
              arith,
              v.found j k,
              lookup_order-insert_order i l j m,
              ==_iff l k,
              ==_iff i j,
              metadata-entry 0 cs l i,
              metadata-entry 0 cs k j,
            );
          }))
  ]

  start-Follows : Follows [] []
  unfolding lookup_order contains
  start-Follows = record {
    rising = tt;
    sound = λ i l e. absurd (none-not_some l e);
    found = λ i l c e. absurd (false-not_true c);
  }
    where
      none-not_some : (l : ℕ) → none ≡ some l → ⊥
      none-not_some l e = cc

      false-not_true : false ≡ true → ⊥
      false-not_true e = cc

  -- The loops that `foldl` has visited, last one first.
  abbrev visited_after : List ℕ → List ℕ → List ℕ
  visited_after visited [] = visited
  visited_after visited (l ∷ ls) = visited_after (l ∷ visited) ls

  visits-Follows :
      (visited : List ℕ) (m : OrderMap) (visits : List ℕ)
      → Follows visited m
      → Follows (visited_after visited visits) (foldl (select_loop options order_of) m visits)
  visits-Follows visited m [] v = v
  visits-Follows visited m (l ∷ ls) v =
      visits-Follows (l ∷ visited) (select_loop options order_of m l) ls
        (select_loop-Follows visited m l v)

  visited_after-keeps :
      (visited visits : List ℕ) (l : ℕ)
      → contains visited l ≡ true
      → contains (visited_after visited visits) l ≡ true
  unfolding contains
  visited_after-keeps visited [] l h = h
  visited_after-keeps visited (k ∷ ks) l h = visited_after-keeps (k ∷ visited) ks l (ground arith)

  visited_after-contains :
      (visited visits : List ℕ) (l : ℕ)
      → contains visits l ≡ true
      → contains (visited_after visited visits) l ≡ true
  unfolding contains
  visited_after-contains visited [] l h = absurd (ground arith)
  visited_after-contains visited (k ∷ ks) l h =
      ground
        (arith, visited_after-keeps (k ∷ visited) ks l, visited_after-contains (k ∷ visited) ks l)

  -- When the options select every loop, the plan numbers distinct loops, and each of them is visited,
  -- the map from which parallelize_loops takes its loops is the plan, in the plan's order, whatever
  -- other loops are visited and in whatever order.
  pub order_loops-plan :
      (visits : List ℕ)
      → All (λ c. contains visits c.loop ≡ true) cs
      → AreDistinct cs
      → order_loops options order_of visits ≡ plan
  unfolding order_loops
  order_loops-plan visits all distinct =
      let v = visits-Follows [] [] visits start-Follows in
      OrderMap-ext (foldl (select_loop options order_of) [] visits) plan 0 v.rising
        (numbered-IsRising 0 cs)
        (λ i. elim (Option-cases (lookup_order plan i)) [
          | inl nothing ↦
              elim (Option-cases
                (lookup_order (foldl (select_loop options order_of) [] visits) i)) [
                  | inl none_too ↦ none_too ∙ sym nothing
                  | inr (l, has) ↦ absurd (cc (v.sound i l has))
                ]
          | inr (l, has) ↦
              v.found i l
                (visited_after-contains [] visits l (planned-visited visits 0 cs i l all has))
                (entry-metadata 0 cs l i distinct has)
              ∙ sym has
        ])
