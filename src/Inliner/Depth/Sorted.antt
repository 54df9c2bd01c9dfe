-- ===== src/Inliner/Depth/Sorted.antt =====
-- What sorting by depth gives: deepest functions first, the same functions, each once.
use gino.Base.{
  length, suc, AreDistinct, ℕ, ◌≤◌, ltb, ◌≡◌, refl, ap, ◌∙◌, ◌==◌, ==_iff, false, ◌||◌, List, [],
  ◌∷◌, contains, All, All-map, arith, Bool-cases, inl, inr,
}
use gino.Inliner.{DepthOrder, order_of}
use gino.Inliner.Depth.{insert_in_depth_order, sort_in_depth_order_fns}

-- No function is deeper than one before it.
abbrev pub Falls : DepthOrder → List ℕ → Type 0
Falls d [] = Unit
Falls d (f ∷ fs) = All (λ g. order_of d g ≤ order_of d f) fs × Falls d fs

insert-All :
    (P : ℕ → Type 0) (d : DepthOrder) (f : ℕ) (fs : List ℕ)
    → P f
    → All P fs
    → All P (insert_in_depth_order d f fs)
unfolding insert_in_depth_order
insert-All P d f [] p a = (p, tt)
insert-All P d f (g ∷ gs) p a = elim (Bool-cases (ltb (order_of d g) (order_of d f))) [
  | inl deeper ↦ rw (deeper, insert_in_depth_order) (p, a)
  | inr other ↦ rw (other, insert_in_depth_order) (a.0, insert-All P d f gs p a.1)
]

insert-Falls :
    (d : DepthOrder) (f : ℕ) (fs : List ℕ) → Falls d fs → Falls d (insert_in_depth_order d f fs)
unfolding insert_in_depth_order
insert-Falls d f [] h = (tt, tt)
insert-Falls d f (g ∷ gs) h = elim (Bool-cases (ltb (order_of d g) (order_of d f))) [
  | inl deeper ↦
      rw (deeper, insert_in_depth_order)
        ((ground (arith), All-map gs (λ k le. ground (arith, deeper, le)) h.0), h)
  | inr other ↦
      rw (other, insert_in_depth_order)
        (
          insert-All (λ k. order_of d k ≤ order_of d g) d f gs (ground arith) h.0,
          insert-Falls d f gs h.1,
        )
]

contains-insert :
    (d : DepthOrder) (f : ℕ) (fs : List ℕ) (x : ℕ)
    → contains (insert_in_depth_order d f fs) x ≡ (f == x || contains fs x)
unfolding insert_in_depth_order contains
contains-insert d f [] x = refl
contains-insert d f (g ∷ gs) x = ground (arith, contains-insert d f gs x)

insert-AreDistinct :
    (d : DepthOrder) (f : ℕ) (fs : List ℕ)
    → contains fs f ≡ false
    → AreDistinct fs
    → AreDistinct (insert_in_depth_order d f fs)
unfolding insert_in_depth_order contains
insert-AreDistinct d f [] n h = (refl, tt)
insert-AreDistinct d f (g ∷ gs) n h = elim (Bool-cases (ltb (order_of d g) (order_of d f))) [
  | inl deeper ↦ rw (deeper, insert_in_depth_order) (n, h)
  | inr other ↦
      rw (other, insert_in_depth_order)
        (
          ground (arith, contains-insert d f gs g, ==_iff g f, ==_iff f g),
          insert-AreDistinct d f gs (ground arith) h.1,
        )
]

length-insert_in_depth_order :
    (d : DepthOrder) (f : ℕ) (fs : List ℕ) → length (insert_in_depth_order d f fs) ≡ suc (length fs)
unfolding insert_in_depth_order
length-insert_in_depth_order d f [] = refl
length-insert_in_depth_order d f (g ∷ gs) = ground (arith, length-insert_in_depth_order d f gs)

module _ (d : DepthOrder) where
  pub length-sort_in_depth_order_fns :
      (fs : List ℕ) → length (sort_in_depth_order_fns d fs) ≡ length fs
  unfolding sort_in_depth_order_fns
  length-sort_in_depth_order_fns [] = refl
  length-sort_in_depth_order_fns (f ∷ fs) =
      length-insert_in_depth_order d f (sort_in_depth_order_fns d fs)
      ∙ ap suc (length-sort_in_depth_order_fns fs)

  pub sort_in_depth_order_fns-Falls : (fs : List ℕ) → Falls d (sort_in_depth_order_fns d fs)
  unfolding sort_in_depth_order_fns
  sort_in_depth_order_fns-Falls [] = tt
  sort_in_depth_order_fns-Falls (f ∷ fs) =
      insert-Falls d f (sort_in_depth_order_fns d fs) (sort_in_depth_order_fns-Falls fs)

  pub contains-sort_in_depth_order_fns :
      (fs : List ℕ) (x : ℕ) → contains (sort_in_depth_order_fns d fs) x ≡ contains fs x
  unfolding sort_in_depth_order_fns contains
  contains-sort_in_depth_order_fns [] x = refl
  contains-sort_in_depth_order_fns (f ∷ fs) x =
      contains-insert d f (sort_in_depth_order_fns d fs) x
      ∙ ground (arith, contains-sort_in_depth_order_fns fs x)

  pub sort_in_depth_order_fns-AreDistinct :
      (fs : List ℕ) → AreDistinct fs → AreDistinct (sort_in_depth_order_fns d fs)
  unfolding sort_in_depth_order_fns
  sort_in_depth_order_fns-AreDistinct [] h = tt
  sort_in_depth_order_fns-AreDistinct (f ∷ fs) h =
      insert-AreDistinct d f (sort_in_depth_order_fns d fs)
        (contains-sort_in_depth_order_fns fs f ∙ h.0) (sort_in_depth_order_fns-AreDistinct fs h.1)
