-- ===== src/Inliner/Adjust/Loops.antt =====
-- The loops of a function after a call was inlined.
use gino.Base.{
  ℕ, ◌≤◌, ◌≡◌, ◌==◌, List, [], ◌∷◌, ◌++◌, Option, none, some, arith, length, take, drop,
  if◌then◌else◌,
}
use gino.Inliner.Adjust.{adjust_loop_orders_after_inline}
use gino.Inliner.Adjust.Splice.{insert_entries-eq}

abbrev pub loops_of : (ℕ → Option (List ℕ)) → ℕ → List ℕ
loops_of loops f = elim (loops f) [ none ↦ [] | some ls ↦ ls ]

-- The loops of the child are inserted at the index, and no other function's loops change.
pub adjust_loop_orders_after_inline-eq :
    (parent child n : ℕ) (loops : ℕ → Option (List ℕ)) (c : ℕ) (cs : List ℕ)
    → loops child ≡ some (c ∷ cs)
    → n ≤ length (loops_of loops parent)
    → (f : ℕ)
    → loops_of (adjust_loop_orders_after_inline parent child n loops) f ≡ (
        if f == parent
        then take n (loops_of loops parent) ++ ((c ∷ cs) ++ drop n (loops_of loops parent))
        else loops_of loops f)
unfolding adjust_loop_orders_after_inline
adjust_loop_orders_after_inline-eq parent child n loops c cs e h f =
    ground (arith, insert_entries-eq n (c ∷ cs) (loops_of loops parent) h (omega arith))
