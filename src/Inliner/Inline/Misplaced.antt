-- ===== src/Inliner/Inline/Misplaced.antt =====
-- Where the loops of an inlined function go.
use gino.Base.{
  ℕ, suc, ◌≡◌, refl, sym, ap, ◌∙◌, ◌==◌, Bool, false, List, [], ◌∷◌, ◌++◌, Option, Option-cases,
  some, none, map, contains, arith, inl, inr, if◌then◌else◌,
}
use gino.Inliner.Adjust.Loops.{loops_of, adjust_loop_orders_after_inline-eq}
use gino.Inliner.Inline.{
  State, Code, get_summary_if_header, next_loop_in, get_next_preorder_loop_after, record_inline,
}

abbrev is_header : Code → ℕ → Option (List ℕ) → Bool
is_header code b none = contains [] b
is_header code b (some loops) = contains (map code.header loops) b

loops_is_header :
    (code : Code) (b : ℕ) (loops : ℕ → Option (List ℕ)) (f : ℕ)
    → contains (map code.header (loops_of loops f)) b ≡ is_header code b (loops f)
loops_is_header code b loops f = elim (Option-cases (loops f)) [
  | inl nothing ↦ ground (arith, nothing)
  | inr (own, here) ↦ ground (arith, here)
]

no_header_zero :
    (code : Code) (b : ℕ) (loops : List ℕ) (i : ℕ)
    → contains (map code.header loops) b ≡ false
    → get_summary_if_header code b loops i ≡ 0
unfolding get_summary_if_header contains
no_header_zero code b [] i h = refl
no_header_zero code b (l ∷ loops) i h = ground (arith, no_header_zero code b loops (suc i))

-- The search for the next loop after a call stops at the first block behind the call's: when that
-- block is no loop header, the loops of the inlined function are put before all loops of the function,
-- also when some of these come before the call, and all other functions keep their loops.
pub record_inline-misplaced :
    (code : Code) (f child call b : ℕ) (bs : List ℕ) (s : State) (l : ℕ) (ls : List ℕ)
    → code.blocks_after call ≡ b ∷ bs
    → contains (map code.header (loops_of s.pre_ordered_loops f)) b ≡ false
    → s.pre_ordered_loops child ≡ some (l ∷ ls)
    → (g : ℕ)
    → loops_of (record_inline code f child call s).pre_ordered_loops g ≡ (
        if g == f
        then (l ∷ ls) ++ loops_of s.pre_ordered_loops f
        else loops_of s.pre_ordered_loops g)
unfolding record_inline get_next_preorder_loop_after next_loop_in contains
record_inline-misplaced code f child call b bs s l ls after no_header loops g =
    rw found
      (adjust_loop_orders_after_inline-eq f child 0 s.pre_ordered_loops l ls loops (omega arith) g)
  where
    found : get_next_preorder_loop_after code f call s.pre_ordered_loops ≡ 0
    found = elim (Option-cases (s.pre_ordered_loops f)) [
      | inl nothing ↦ rw (nothing, get_next_preorder_loop_after) refl
      | inr (own, here) ↦
          rw (here, after, get_next_preorder_loop_after)
            (no_header_zero code b own 0 (
              sym (loops_is_header code b s.pre_ordered_loops f ∙ ap (is_header code b) here)
              ∙ no_header))
    ]
