-- ===== src/Parallelizer/Disjoint.antt =====
-- No basic block is parallelized twice.
use gino.Base.{
  contains, ℕ, ◌≡◌, Option, inl, inr, Bool, true, false, ◌&&◌, List, [], ◌∷◌, All, ==_iff, arith,
  Bool-cases,
}
use gino.Parallelizer.Entries.{OrderMap}
use gino.Parallelizer.{
  Options, order_loops, Progress, no_progress, is_safe, mark, try_loop, try_loops,
  parallelize_loops,
}

-- Two lists of basic blocks have none in common.
abbrev pub AreApart : List ℕ → List ℕ → Type 0
AreApart xs ys = (bb : ℕ) → contains xs bb ≡ true → contains ys bb ≡ false

module _ (basic_blocks : ℕ → List ℕ) where
  abbrev pub ArePairwiseApart : List ℕ → Type 0
  ArePairwiseApart [] = Unit
  ArePairwiseApart (l ∷ ls) =
      All (λ k. AreApart (basic_blocks l) (basic_blocks k)) ls × ArePairwiseApart ls

  -- The marked blocks are those of the parallelized loops.
  record Inv (p : Progress) : Type 0 where
    marked :
        All
          (λ l. (bb : ℕ) → contains (basic_blocks l) bb ≡ true → p.modified_bbs bb ≡ true)
          p.parallelized
    apart : ArePairwiseApart p.parallelized

  is_safe_lem :
      (modified : ℕ → Bool) (bbs : List ℕ) (bb : ℕ)
      → is_safe modified bbs ≡ true
      → contains bbs bb ≡ true
      → modified bb ≡ false
  unfolding is_safe contains
  is_safe_lem modified [] bb s c = cc
  is_safe_lem modified (b ∷ bbs) bb s c = ground (arith, is_safe_lem modified bbs bb, ==_iff b bb)

  All-apart :
      (modified : ℕ → Bool) (bbs : List ℕ) (ls : List ℕ)
      → is_safe modified bbs ≡ true
      → All (λ l. (bb : ℕ) → contains (basic_blocks l) bb ≡ true → modified bb ≡ true) ls
      → All (λ k. AreApart bbs (basic_blocks k)) ls
  All-apart modified bbs [] s a = tt
  All-apart modified bbs (l ∷ ls) s a = (
    λ bb c. ground (arith, is_safe_lem modified bbs bb s c, a.0 bb),
    All-apart modified bbs ls s a.1,
  )

  All-marked :
      (modified : ℕ → Bool) (bbs : List ℕ) (ls : List ℕ)
      → All (λ l. (bb : ℕ) → contains (basic_blocks l) bb ≡ true → modified bb ≡ true) ls
      → All (λ l. (bb : ℕ) → contains (basic_blocks l) bb ≡ true → mark modified bbs bb ≡ true) ls
  unfolding mark
  All-marked modified bbs [] a = tt
  All-marked modified bbs (l ∷ ls) a =
      (λ bb c. ground (arith, a.0 bb), All-marked modified bbs ls a.1)

  module _ (parallelize : List ℕ → ℕ → Bool) where
    try_loop-Inv : (p : Progress) (l : ℕ) → Inv p → Inv (try_loop basic_blocks parallelize p l)
    unfolding try_loop mark
    try_loop-Inv p l v =
        elim (Bool-cases
          (is_safe p.modified_bbs (basic_blocks l) && parallelize p.parallelized l)) [
            | inl go ↦ rw go (record {
              marked = (
                λ bb c. ground arith,
                All-marked p.modified_bbs (basic_blocks l) p.parallelized v.marked,
              );
              apart = (
                All-apart p.modified_bbs (basic_blocks l) p.parallelized (ground arith) v.marked,
                v.apart,
              );
            })
            | inr stay ↦ rw stay v
          ]

    try_loops-Inv :
        (p : Progress) (m : OrderMap) → Inv p → Inv (try_loops basic_blocks parallelize p m)
    unfolding try_loops
    try_loops-Inv p [] v = v
    try_loops-Inv p ((i, l) ∷ m) v =
        try_loops-Inv (try_loop basic_blocks parallelize p l) m (try_loop-Inv p l v)

    -- Whatever the options, the plan and the answers of the techniques, no two loops that are
    -- parallelized have a basic block in common.
    pub parallelize_loops-apart :
        (options : Options) (order_of : ℕ → Option ℕ) (visits : List ℕ)
        → ArePairwiseApart
            (parallelize_loops basic_blocks parallelize options order_of visits).parallelized
    unfolding parallelize_loops
    parallelize_loops-apart options order_of visits =
        (try_loops-Inv no_progress (order_loops options order_of visits)
          (record { marked = tt; apart = tt })).apart
