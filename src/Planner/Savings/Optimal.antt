-- ===== src/Planner/Savings/Optimal.antt =====
-- What `evaluate_savings` promises: the best choice of loops to parallelize.
use gino.Base.{
  ℕ, ◌+◌, ◌≤◌, ◌<◌, ◌≡◌, refl, inl, inr, Bool, true, false, List, [], ◌∷◌, foldl, All, arith, leb,
  Bool-cases, ◌||◌,
}
use gino.Base.Words.{u64_mod}
use gino.Planner.LoopTree.{LoopTree, node, Children, leaf, child, get_loop, In, PostOrder, total}
use gino.Planner.Savings.{visit_loop, evaluate_savings}
use gino.Planner.Savings.Best.{best, best_children, evaluate_savings-best}

module _ (consider : ℕ → Bool) where
  -- A choice of loops of a tree, none nested in another: the loop of the root, or any choice below
  -- it, or none. A loop is chosen only if it is considered.
  mutual
    pub data Choice : LoopTree → Type 0 where
      nothing : (t : LoopTree) → Choice t
      whole : (l : ℕ) (cs : Children) → consider l ≡ true → Choice (node l cs)
      inside : (l : ℕ) (cs : Children) → Choices cs → Choice (node l cs)

    pub data Choices : Children → Type 0 where
      nil : Choices leaf
      cons : (t : LoopTree) (cs : Children) → Choice t → Choices cs → Choices (child t cs)

  -- Below a loop that is not considered, no loop is considered.
  unfoldable mutual
    pub has_considered : LoopTree → Bool
    has_considered (node l cs) = consider l || have_considered cs

    pub have_considered : Children → Bool
    have_considered leaf = false
    have_considered (child t cs) = has_considered t || have_considered cs

  unfoldable mutual
    pub IsClosed : LoopTree → Type 0
    IsClosed (node l cs) = (consider l ≡ false → have_considered cs ≡ false) × AreClosed cs

    pub AreClosed : Children → Type 0
    AreClosed leaf = Unit
    AreClosed (child t cs) = IsClosed t × AreClosed cs

  module _ (time_saved : ℕ → ℕ) where
    mutual
      pub gain : {t : LoopTree} → Choice t → ℕ
      gain (nothing t) = 0
      gain (whole l cs e) = time_saved l
      gain (inside l cs c) = gains c

      pub gains : {cs : Children} → Choices cs → ℕ
      gains nil = 0
      gains (cons t cs c d) = gain c + gains d

    -- A choice among loops that are not considered saves nothing.
    mutual
      unfolding gain gains has_considered have_considered

      gain-none : {t : LoopTree} (c : Choice t) → has_considered t ≡ false → gain c ≡ 0
      gain-none (nothing t) e = refl
      gain-none (whole l cs h) e = absurd (ground (arith, h, e))
      gain-none (inside l cs c) e = gains-none c (ground (arith, e))

      gains-none : {cs : Children} (c : Choices cs) → have_considered cs ≡ false → gains c ≡ 0
      gains-none nil e = refl
      gains-none (cons t cs c d) e =
          omega (arith, gain-none c (ground (arith, e)), gains-none d (ground (arith, e)))

    mutual
      unfolding gain gains best IsClosed AreClosed

      gain-le-best :
          {t : LoopTree} (c : Choice t) → IsClosed t → gain c ≤ best time_saved consider t
      gain-le-best (nothing t) k = omega arith
      gain-le-best (whole l cs e) k = ground arith
      gain-le-best (inside l cs c) k = elim (Bool-cases (consider l)) [
        | inl considered ↦ ground (arith, gains-le-best c k.1)
        | inr skipped ↦ omega (arith, gains-none c (k.0 skipped))
      ]

      gains-le-best :
          {cs : Children} (c : Choices cs)
          → AreClosed cs
          → gains c ≤ best_children time_saved consider cs
      gains-le-best nil k = omega arith
      gains-le-best (cons t cs c d) k = omega (arith, gain-le-best c k.0, gains-le-best d k.1)

    -- A considered loop is one of the choices.
    root-le-best :
        (l : ℕ) (cs : Children)
        → consider l ≡ true
        → time_saved l ≤ best time_saved consider (node l cs)
    unfolding best
    root-le-best l cs e = ground arith

    -- A choice that reaches the savings.
    Attained : LoopTree → Type 0
    Attained t = (c : Choice t) × (gain c ≡ best time_saved consider t)

    AllAttained : Children → Type 0
    AllAttained cs = (c : Choices cs) × (gains c ≡ best_children time_saved consider cs)

    Attained-node : (l : ℕ) (cs : Children) → AllAttained cs → Attained (node l cs)
    unfolding Attained AllAttained gain best
    Attained-node l cs (c, e) = elim (Bool-cases (consider l)) [
      | inr skipped ↦ (nothing (node l cs), rw skipped)
      | inl considered ↦
          elim (Bool-cases (leb (time_saved l) (best_children time_saved consider cs))) [
            | inl below ↦ (inside l cs c, ground arith)
            | inr above ↦ (whole l cs considered, ground arith)
          ]
    ]

    mutual
      unfolding Attained AllAttained gains best

      attain : (t : LoopTree) → Attained t
      attain (node l cs) = Attained-node l cs (attain_children cs)

      attain_children : (cs : Children) → AllAttained cs
      attain_children leaf = (nil, refl)
      attain_children (child t cs) =
          let (c, e) = attain t in let (d, f) = attain_children cs in (cons t cs c d, omega arith)

    -- If every node is visited once and after its children, the savings of each subtree fit in 64
    -- bits, and no loop below one that is not considered is considered, then the result is the maximum
    -- of what considered loops of the tree, none nested in another, save together: no choice of them
    -- saves more, and some choice saves as much.
    pub evaluate_savings-max :
        (visits : List LoopTree) (tree : LoopTree)
        → PostOrder [] visits
        → In tree visits
        → All (λ t. total time_saved t < u64_mod) visits
        → IsClosed tree
        → ((c : Choice tree) → gain c ≤ evaluate_savings time_saved consider visits tree)
          × ((c : Choice tree) × (gain c ≡ evaluate_savings time_saved consider visits tree))
    unfolding Attained
    evaluate_savings-max visits tree p i fits closed =
        rw (evaluate_savings-best time_saved consider visits tree p i fits)
          ((λ c. gain-le-best c closed), attain tree)

    -- A tree whose root is not considered is reported to save nothing, however it is visited.
    foldl-skipped :
        (m : ℕ → ℕ) (visits : List LoopTree) (l : ℕ)
        → consider l ≡ false
        → m l ≡ 0
        → foldl (visit_loop time_saved consider) m visits l ≡ 0
    unfolding visit_loop
    foldl-skipped m [] l e z = z
    foldl-skipped m (node k cs ∷ ts) l e z =
        foldl-skipped (visit_loop time_saved consider m (node k cs)) ts l e (ground arith)

    -- The defect: when the root of a tree is not a loop to consider, as with DOALL loops only, the
    -- savings reported for the tree are 0, although the same visits give at least the time that a
    -- considered loop saves to the subtree nested in it.
    pub evaluate_savings-skipped_root :
        (visits : List LoopTree) (tree nested : LoopTree)
        → PostOrder [] visits
        → In nested visits
        → All (λ t. total time_saved t < u64_mod) visits
        → consider (get_loop tree) ≡ false
        → consider (get_loop nested) ≡ true
        → (evaluate_savings time_saved consider visits tree ≡ 0)
          × (time_saved (get_loop nested) ≤ evaluate_savings time_saved consider visits nested)
    unfolding evaluate_savings
    evaluate_savings-skipped_root visits tree (node l cs) p i fits skipped considered = (
      foldl-skipped (λ _. 0) visits (get_loop tree) skipped refl,
      rw (evaluate_savings-best time_saved consider visits (node l cs) p i fits)
          (root-le-best l cs considered),
    )
