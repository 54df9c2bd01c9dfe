-- ===== src/Planner/Selection/Ordering.antt =====
-- The order of the selected loops.
use mathlib.Core.List.{mem-filter}
use mathlib.Core.List.Perm
use gino.Base.{
  ℕ, ◌*◌, ◌≤◌, ◌≡◌, ◌↔◌, ◌⊎◌, inl, inr, Mem, Perm, Bool, true, false, List, [], ◌∷◌, All, arith,
  is_true, Bool-cases,
}
use gino.Planner.LoopTree.{LoopTree}
use gino.Planner.Savings.{evaluate_all_savings}
use gino.Planner.Selection.{
  Candidate, is_selected, saves_too_little, filter_loops, compare_operator, insert_loop, sort_loops,
  evaluate_selection, select_the_order,
}

-- `compare_operator` is a strict weak order, which `std::sort` requires: no loop comes before
-- itself, the order is transitive, and so is being unordered.
pub compare_operator-IsWeakOrder :
    (a b c : Candidate)
    → (compare_operator a a ≡ false)
      × (compare_operator a b ≡ true → compare_operator b c ≡ true → compare_operator a c ≡ true)
      × (compare_operator a b ≡ false
          → compare_operator b a ≡ false
          → compare_operator b c ≡ false
          → compare_operator c b ≡ false
          → (compare_operator a c ≡ false) × (compare_operator c a ≡ false))
unfolding compare_operator
compare_operator-IsWeakOrder a b c = ground arith

-- No loop stands behind one that it should come before.
abbrev pub IsOrdered : List Candidate → Type 0
IsOrdered [] = Unit
IsOrdered (c ∷ cs) = All (λ d. compare_operator d c ≡ false) cs × IsOrdered cs

insert_loop-All :
    (P : Candidate → Type 0) (c : Candidate) (ds : List Candidate)
    → P c
    → All P ds
    → All P (insert_loop c ds)
unfolding insert_loop
insert_loop-All P c [] h a = (h, tt)
insert_loop-All P c (d ∷ ds) h a = ground (arith, insert_loop-All P c ds h a.1)

below_first :
    (c d : Candidate) (ds : List Candidate)
    → compare_operator d c ≡ false
    → All (λ e. compare_operator e d ≡ false) ds
    → All (λ e. compare_operator e c ≡ false) ds
unfolding compare_operator
below_first c d [] h a = tt
below_first c d (e ∷ ds) h a = (ground arith, below_first c d ds h a.1)

compare_operator-asymm :
    (c d : Candidate) → compare_operator d c ≡ true → compare_operator c d ≡ false
unfolding compare_operator
compare_operator-asymm c d h = ground arith

insert_loop-IsOrdered :
    (c : Candidate) (ds : List Candidate) → IsOrdered ds → IsOrdered (insert_loop c ds)
unfolding insert_loop
insert_loop-IsOrdered c [] o = (tt, tt)
insert_loop-IsOrdered c (d ∷ ds) o = elim (Bool-cases (compare_operator d c)) [
  | inl before ↦ rw before (
    insert_loop-All _ c ds (compare_operator-asymm c d before) o.0,
    insert_loop-IsOrdered c ds o.1,
  )
  | inr after ↦ rw after ((after, below_first c d ds after o.0), o)
]

sort_loops-IsOrdered : (cs : List Candidate) → IsOrdered (sort_loops cs)
unfolding sort_loops
sort_loops-IsOrdered [] = tt
sort_loops-IsOrdered (c ∷ cs) = insert_loop-IsOrdered c (sort_loops cs) (sort_loops-IsOrdered cs)

insert_loop-perm : (c : Candidate) (ds : List Candidate) → Perm (insert_loop c ds) (c ∷ ds)
unfolding insert_loop
insert_loop-perm c [] = Perm.refl (c ∷ [])
insert_loop-perm c (d ∷ ds) = elim (Bool-cases (compare_operator d c)) [
  | inl before ↦ rw before (Perm.trans (Perm.cons d (insert_loop-perm c ds)) (Perm.swap c d ds))
  | inr after ↦ rw after (Perm.refl (c ∷ d ∷ ds))
]

sort_loops-perm : (cs : List Candidate) → Perm (sort_loops cs) cs
unfolding sort_loops
sort_loops-perm [] = Perm.refl []
sort_loops-perm (c ∷ cs) =
    Perm.trans (insert_loop-perm c (sort_loops cs)) (Perm.cons c (sort_loops-perm cs))

-- The selection is a permutation of the loops that pass the filter, in which no loop stands behind
-- one that saves less, or saves as much and is nested more deeply.
pub select_the_order-perm :
    (force : Bool) (total_instructions : ℕ) (candidates : List Candidate) (time_saved : ℕ → ℕ)
    (doall_loops : ℕ → Bool) (visits : List LoopTree) (tree : LoopTree)
    → let s =
        select_the_order force total_instructions candidates time_saved doall_loops visits tree in
      Perm s.selected (filter_loops force total_instructions candidates) × IsOrdered s.selected
unfolding select_the_order
select_the_order-perm force total candidates time_saved doall_loops visits tree =
    go (filter_loops force total candidates)
  where
    go :
        (cs : List Candidate)
        → Perm
            (evaluate_selection cs
              (evaluate_all_savings time_saved doall_loops visits tree)).selected
            cs
          × IsOrdered
              (evaluate_selection cs
                (evaluate_all_savings time_saved doall_loops visits tree)).selected
    go [] = (Perm.refl [], tt)
    go (c ∷ cs) = (sort_loops-perm (c ∷ cs), sort_loops-IsOrdered (c ∷ cs))

is_selected_iff :
    (force : Bool) (total_instructions : ℕ) (c : Candidate)
    → (is_selected force total_instructions c ≡ true)
      ↔ ((force ≡ true) ⊎ (2 * total_instructions ≤ c.time_saved * 100))
unfolding is_selected saves_too_little
is_selected_iff force total c = ground arith

-- A loop passes the filter exactly when it is a candidate and parallelization is forced or the
-- loop saves at least 2 percent of the program's instructions.
pub mem-filter_loops :
    (force : Bool) (total_instructions : ℕ) (c : Candidate) (cs : List Candidate)
    → Mem c (filter_loops force total_instructions cs)
      ↔ (Mem c cs × ((force ≡ true) ⊎ (2 * total_instructions ≤ c.time_saved * 100)))
unfolding filter_loops
mem-filter_loops force total c cs = (
  λ m.
      let (at, e) = (mem-filter (λ d. is_true (is_selected force total d))).0 m in
      (at, (is_selected_iff force total c).0 e),
  λ h.
      (mem-filter (λ d. is_true (is_selected force total d))).1
        (h.0, (is_selected_iff force total c).1 h.1),
)
