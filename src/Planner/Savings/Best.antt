-- ===== src/Planner/Savings/Best.antt =====
-- The visits of `evaluate_savings` compute, at each node, the savings by recursion on the tree.
use gino.Base.{
  ℕ, ◌+◌, ◌≤◌, ◌<◌, ◌≡◌, ◌≢◌, refl, ◌⊎◌, inl, inr, max, Bool, false, List, [], ◌∷◌, foldl, All,
  arith, if◌then◌else◌,
}
use gino.Base.Words.{u64_mod, add64}
use gino.Planner.LoopTree.{
  LoopTree, node, Children, leaf, child, get_loop, get_children, In, All-In, ChildrenIn, PostOrder,
  total, total_children,
}
use gino.Planner.Savings.{SavedMap, accumulate_children, visit_loop, evaluate_savings}

module _ (time_saved : ℕ → ℕ) (consider : ℕ → Bool) where
  unfoldable mutual
    pub best : LoopTree → ℕ
    best (node l cs) = if consider l then max (best_children cs) (time_saved l) else 0

    pub best_children : Children → ℕ
    best_children leaf = 0
    best_children (child t cs) = best t + best_children cs

  mutual
    unfolding best best_children total total_children

    pub best-le-total : (t : LoopTree) → best t ≤ total time_saved t
    best-le-total (node l cs) = ground (arith, best_children-le-total cs)

    pub best_children-le-total : (cs : Children) → best_children cs ≤ total_children time_saved cs
    best_children-le-total leaf = omega arith
    best_children-le-total (child t cs) = omega (arith, best-le-total t, best_children-le-total cs)

  -- The map holds the savings of every node visited so far, and 0 at loops not considered.
  record IsBest (done : List LoopTree) (m : SavedMap) : Type 0 where
    visited : (t : LoopTree) → In t done → m (get_loop t) ≡ best t
    skipped : (l : ℕ) → consider l ≡ false → m l ≡ 0

  accumulate_children-best :
      (done : List LoopTree) (m : SavedMap) (cs : Children) (saved : ℕ)
      → IsBest done m
      → ChildrenIn cs done
      → saved + best_children cs < u64_mod
      → accumulate_children time_saved consider m cs saved ≡ saved + best_children cs
  unfolding accumulate_children best
  accumulate_children-best done m leaf saved b i fits = omega arith
  accumulate_children-best done m (child (node l grand) cs) saved b i fits = ground (
    arith,
    b.visited (node l grand) i.0,
    accumulate_children-best done m cs (if consider l then add64 saved (m l) else saved) b i.1,
  )

  visit_loop-IsBest :
      (done : List LoopTree) (m : SavedMap) (t : LoopTree)
      → IsBest done m
      → ChildrenIn (get_children t) done
      → All (λ u. get_loop u ≢ get_loop t) done
      → total time_saved t < u64_mod
      → IsBest (t ∷ done) (visit_loop time_saved consider m t)
  unfolding visit_loop best total
  visit_loop-IsBest done m (node l cs) b i fresh fits = record {
    visited = λ u h. elim h [
      | inl e ↦ rw e (
          ground (
            arith,
            accumulate_children-best done m cs 0 b i,
            best_children-le-total cs,
            b.skipped l,
          ))
      | inr h' ↦ ground (arith, b.visited u h', All-In (λ v. get_loop v ≢ l) u done fresh h')
    ];
    skipped = λ k e. ground (arith, b.skipped k);
  }

  foldl-IsBest :
      (done : List LoopTree) (m : SavedMap) (visits : List LoopTree)
      → IsBest done m
      → PostOrder done visits
      → All (λ t. total time_saved t < u64_mod) visits
      → (t : LoopTree) → In t visits ⊎ In t done
      → foldl (visit_loop time_saved consider) m visits (get_loop t) ≡ best t
  foldl-IsBest done m [] b p fits t (inl i) = absurd i
  foldl-IsBest done m [] b p fits t (inr i) = b.visited t i
  foldl-IsBest done m (u ∷ us) b p fits t i =
      foldl-IsBest (u ∷ done) (visit_loop time_saved consider m u) us
        (visit_loop-IsBest done m u b p.0 p.1 fits.0) p.2 fits.1 t (regroup i)
    where
      regroup : In t (u ∷ us) ⊎ In t done → In t us ⊎ In t (u ∷ done)
      regroup (inl (inl e)) = inr (inl e)
      regroup (inl (inr h)) = inl h
      regroup (inr h) = inr (inr h)

  pub evaluate_savings-best :
      (visits : List LoopTree) (tree : LoopTree)
      → PostOrder [] visits
      → In tree visits
      → All (λ t. total time_saved t < u64_mod) visits
      → evaluate_savings time_saved consider visits tree ≡ best tree
  unfolding evaluate_savings
  evaluate_savings-best visits tree p i fits =
      foldl-IsBest [] (λ _. 0) visits (record { visited = λ t h. absurd h; skipped = λ l e. refl })
        p fits tree (inl i)
