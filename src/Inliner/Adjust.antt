-- ===== src/Inliner/Adjust.antt =====
-- Inliner::adjustFnGraphAfterInline and adjustLoopOrdersAfterInline (src/core/inliner/src/Inliner.cpp).
pub mod Splice
pub mod Replaced
pub mod Mirror
pub mod Loops
use gino.Base.{
  set_erase, ℕ, zero, suc, ◌+◌, ◌-◌, ◌==◌, Bool, true, false, Option, some, none, List, [], ◌∷◌,
  ◌++◌, length, get_or, set, take, drop, replicate, contains, set_insert, update, if◌then◌else◌,
}
use gino.Inliner.{FnGraph}
use gino.Inliner.Graph.{add_children}

-- The loop that moves the entries from `end_index` on by `count`, from the back: `n` rounds are left,
-- and the last of them writes at `end_index`.
unfoldable pub shift_entries : ℕ → ℕ → ℕ → List ℕ → List ℕ
shift_entries zero end_index count xs = xs
shift_entries (suc n) end_index count xs =
    shift_entries n end_index count (set xs (end_index + n) (get_or xs (end_index + n - count) 0))

-- The loop that writes the entries of the child from `index` on.
unfoldable pub write_entries : ℕ → List ℕ → List ℕ → List ℕ
write_entries index [] xs = xs
write_entries index (y ∷ ys) xs = write_entries (suc index) ys (set xs index y)

-- `resize`, and both loops.
unfoldable pub insert_entries : ℕ → List ℕ → List ℕ → List ℕ
unfolding shift_entries write_entries
insert_entries index ys xs =
    let resized = xs ++ replicate (length ys) 0 in
    let end_index = index + length ys in
    write_entries index ys
      (shift_entries (length resized - end_index) end_index (length ys) resized)

-- `erase(begin() + index)`.
unfoldable pub erase_at : ℕ → List ℕ → List ℕ
erase_at i [] = []
erase_at zero (x ∷ xs) = xs
erase_at (suc i) (x ∷ xs) = x ∷ erase_at i xs

-- The callees of the parent's calls: those of the child's calls in the place of the inlined one.
unfoldable pub called_after_inline : ℕ → List ℕ → List ℕ → List ℕ
unfolding insert_entries erase_at
called_after_inline call_ind [] parent_called = erase_at call_ind parent_called
called_after_inline call_ind (f ∷ fs) parent_called =
    insert_entries call_ind (f ∷ fs) (erase_at call_ind parent_called)

-- The new callees, and the links that are cleared before they are collected again.
unfoldable pub unlink : ℕ → ℕ → List ℕ → FnGraph → FnGraph
unfolding set_erase
unlink parent child called g = record g {
  ordered_called = update g.ordered_called parent called;
  children_fns = update g.children_fns parent [];
  parent_fns = update g.parent_fns child (set_erase parent (g.parent_fns child));
}

unfoldable pub adjust_fn_graph_after_inline : ℕ → ℕ → ℕ → FnGraph → FnGraph
unfolding called_after_inline unlink add_children
adjust_fn_graph_after_inline parent child call_ind g =
    let called = called_after_inline call_ind (g.ordered_called child) (g.ordered_called parent) in
    add_children parent [] called (unlink parent child called g)

-- The loops of the functions that have some, in program order.
unfoldable pub adjust_loop_orders_after_inline :
    ℕ → ℕ → ℕ → (ℕ → Option (List ℕ)) → ℕ → Option (List ℕ)
unfolding insert_entries
adjust_loop_orders_after_inline parent child next_loop_ind loops = elim (loops child) [
  | none ↦ loops
  | some [] ↦ loops
  | some (l ∷ ls) ↦
      let parent_loops : List ℕ = elim (loops parent) [ none ↦ [] | some ps ↦ ps ] in
      update loops parent (some (insert_entries next_loop_ind (l ∷ ls) parent_loops))
]
