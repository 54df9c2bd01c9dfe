-- ===== src/Inliner/Hoist/File.antt =====
-- The functions that remain are written to a file and read back by the next run.
use gino.Base.{
  ℕ_discrete, ℕ, ◌≡◌, ◌≢◌, refl, ap, ◌∙◌, ◌↔◌, ◌==◌, ==_iff, ltb, Bool, false, not, ◌&&◌, ◌||◌,
  some, none, Option-cases, List, [], ◌∷◌, get_elem?, contains, set_insert, contains-set_insert,
  All, arith, Bool-cases, inl, inr,
}
use gino.Inliner.{DepthOrder, order_of}
use gino.Inliner.Hoist.{
  read_fns, get_functions_to_inline, insert_sorted, remaining_inds, register_remaining_functions,
}

-- Every index of the list stands for a function of the order, and none is 0.
abbrev AreReadable : DepthOrder → List ℕ → Type 0
AreReadable d [] = Unit
AreReadable d (i ∷ is) =
    ((f : ℕ) × (get_elem? d.depth_ordered_fns i ≡ some f) × (i ≢ 0)) × AreReadable d is

-- The functions with these indices.
abbrev has_index : DepthOrder → List ℕ → ℕ → Bool
has_index d [] f = false
has_index d (i ∷ is) f =
    elim (get_elem? d.depth_ordered_fns i) [ none ↦ false | some g ↦ g == f ] || has_index d is f

read_fns-contains :
    (d : DepthOrder) (inds fns : List ℕ)
    → AreReadable d inds
    → (r : List ℕ) × (read_fns d.depth_ordered_fns inds fns ≡ some r)
      × ((f : ℕ) → contains r f ≡ (contains fns f || has_index d inds f))
unfolding read_fns
read_fns-contains d [] fns a = (fns, refl, λ f. ground arith)
read_fns-contains d (i ∷ is) fns a =
    let (g, at, positive) = a.0 in
    let (r, read, members) = read_fns-contains d is (set_insert g fns) a.1 in
    (
      r,
      ground (arith, at, positive, read),
      λ f. ground (arith, members f, contains-set_insert g fns f, at, ==_iff g f),
    )

insert_sorted-AreReadable :
    (d : DepthOrder) (i : ℕ) (is : List ℕ)
    → AreReadable d (i ∷ is)
    → AreReadable d (insert_sorted i is)
unfolding insert_sorted
insert_sorted-AreReadable d i [] a = a
insert_sorted-AreReadable d i (j ∷ js) a = elim (Bool-cases (ltb j i)) [
  | inl below ↦ rw (below, insert_sorted) (a.1.0, insert_sorted-AreReadable d i js (a.0, a.1.1))
  | inr other ↦ rw (other, insert_sorted) a
]

has_index-insert_sorted :
    (d : DepthOrder) (i : ℕ) (is : List ℕ) (f : ℕ)
    → has_index d (insert_sorted i is) f ≡ has_index d (i ∷ is) f
unfolding insert_sorted
has_index-insert_sorted d i [] f = refl
has_index-insert_sorted d i (j ∷ js) f = ground (arith, has_index-insert_sorted d i js f)

-- The list and the map of a depth order agree.
abbrev pub IsNumbered : DepthOrder → Type 0
IsNumbered d = (f i : ℕ) → (d.fn_orders f ≡ some i) ↔ (get_elem? d.depth_ordered_fns i ≡ some f)

module _ (d : DepthOrder) (numbered : IsNumbered d) where
  at_order : (f : ℕ) → d.fn_orders f ≢ none → get_elem? d.depth_ordered_fns (order_of d f) ≡ some f
  at_order f known = elim (Option-cases (d.fn_orders f)) [
    | inl unknown ↦ absurd (known unknown)
    | inr (i, here) ↦ ground (arith, here, (numbered f i).0 here)
  ]

  remaining_inds-AreReadable :
      (fs : List ℕ) → All (λ f. d.fn_orders f ≢ none) fs → AreReadable d (remaining_inds d fs)
  unfolding remaining_inds
  remaining_inds-AreReadable [] a = tt
  remaining_inds-AreReadable (f ∷ fs) a = elim (Bool-cases (order_of d f == 0)) [
    | inl is_main ↦ rw (is_main, remaining_inds) (remaining_inds-AreReadable fs a.1)
    | inr other ↦
        rw (other, remaining_inds)
          (insert_sorted-AreReadable d (order_of d f) (remaining_inds d fs)
            ((f, at_order f a.0, λ e. ground (arith, other, e)), remaining_inds-AreReadable fs a.1))
  ]

  has_index-remaining_inds :
      (fs : List ℕ) (f : ℕ)
      → All (λ f. d.fn_orders f ≢ none) fs
      → has_index d (remaining_inds d fs) f ≡ (contains fs f && not (order_of d f == 0))
  unfolding remaining_inds contains
  has_index-remaining_inds [] f a = refl
  has_index-remaining_inds (g ∷ fs) f a = elim (Bool-cases (order_of d g == 0)) [
    | inl is_main ↦
        rw (is_main, remaining_inds)
          (has_index-remaining_inds fs f a.1 ∙ elim (ℕ_discrete g f) [
            | yes same ↦ ground (arith, is_main, ap (order_of d) same)
            | no differ ↦ ground (arith, ==_iff g f)
          ])
    | inr other ↦
        rw (other, remaining_inds)
          (has_index-insert_sorted d (order_of d g) (remaining_inds d fs) f
            ∙ elim (ℕ_discrete g f) [
              | yes same ↦ ground (arith, at_order g a.0, ==_iff g f, other, ap (order_of d) same)
              | no differ ↦
                  ground (arith, at_order g a.0, ==_iff g f, has_index-remaining_inds fs f a.1)
            ])
  ]

-- If the functions to check have orders, and the next run computes the same depth order, then it reads
-- back from the file exactly the functions that were left, without main: the file never fails an
-- assertion.
pub get_functions_to_inline-register_remaining_functions :
    (d : DepthOrder) (fns_to_check fns_with_loops : List ℕ) (inds : List ℕ)
    → IsNumbered d
    → All (λ f. d.fn_orders f ≢ none) fns_to_check
    → (register_remaining_functions d fns_to_check).0 ≡ some inds
    → (r : List ℕ) × (get_functions_to_inline
          (register_remaining_functions d fns_to_check).0
          fns_with_loops
          d
        ≡ some r)
      × ((f : ℕ) → contains r f ≡ (contains fns_to_check f && not (order_of d f == 0)))
unfolding get_functions_to_inline register_remaining_functions contains
get_functions_to_inline-register_remaining_functions d [] loops inds numbered a written =
    absurd (ground arith)
get_functions_to_inline-register_remaining_functions d (g ∷ fs) loops inds numbered a written =
    let (r, read, members) =
      read_fns-contains d (remaining_inds d (g ∷ fs)) []
        (remaining_inds-AreReadable d numbered (g ∷ fs) a) in
    (r, read, λ f. members f ∙ ground (arith, has_index-remaining_inds d numbered (g ∷ fs) f a))
