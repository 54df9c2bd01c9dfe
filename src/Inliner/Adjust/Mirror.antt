-- ===== src/Inliner/Adjust/Mirror.antt =====
-- The graph after a call was inlined.
use gino.Base.{
  contains-set_erase, get_elem?-lt, ℕ, ◌≡◌, ◌≢◌, sym, ap, ◌∙◌, ◌==◌, ==_iff, true, not, ◌&&◌, ◌||◌,
  List, [], Option, none, some, contains, arith, ℕ_discrete, get_elem?, if◌then◌else◌,
}
use gino.Inliner.{FnGraph, Mirrors}
use gino.Inliner.Graph.{add_children}
use gino.Inliner.Graph.Children.{add_children-ordered_called, contains-children, contains-parents}
use gino.Inliner.Adjust.{unlink, called_after_inline, adjust_fn_graph_after_inline}
use gino.Inliner.Adjust.Replaced.{replaced, contains-replaced, called_after_inline-eq}

-- The links of another function stay, whatever the call.
pub other_links :
    (parent child call_ind : ℕ) (g : FnGraph) (c p : ℕ)
    → parent ≢ p
    → contains ((adjust_fn_graph_after_inline parent child call_ind g).parent_fns c) p
      ≡ contains (g.parent_fns c) p
unfolding adjust_fn_graph_after_inline unlink contains
other_links parent child call_ind g c p ne =
    let called = called_after_inline call_ind (g.ordered_called child) (g.ordered_called parent) in
    ground (
      arith,
      contains-parents parent [] called (unlink parent child called g) p c,
      contains-set_erase parent (g.parent_fns child) p,
      ==_iff p parent,
      ==_iff parent p,
    )

module _ (parent child call_ind : ℕ) (g : FnGraph) where
  abbrev after : FnGraph
  after = adjust_fn_graph_after_inline parent child call_ind g

  abbrev new_called : List ℕ
  new_called = replaced call_ind (g.ordered_called child) (g.ordered_called parent)

  abbrev unlinked : FnGraph
  unlinked = unlink parent child new_called g

  adjusted :
      get_elem? (g.ordered_called parent) call_ind ≡ some child
      → after ≡ add_children parent [] new_called unlinked
  unfolding adjust_fn_graph_after_inline
  adjusted at =
      ap (λ called. add_children parent [] called (unlink parent child called g))
        (called_after_inline-eq call_ind (g.ordered_called child) (g.ordered_called parent)
          (get_elem?-lt (g.ordered_called parent) call_ind at))

  module _ (at : get_elem? (g.ordered_called parent) call_ind ≡ some child) where
    after_called :
        (f : ℕ) → after.ordered_called f ≡ (if f == parent then new_called else g.ordered_called f)
    unfolding unlink
    after_called f =
        rw (adjusted at)
          (rw (add_children-ordered_called parent [] new_called unlinked) (unlinked_called f))
      where
        unlinked_called :
            (f : ℕ)
            → unlinked.ordered_called f ≡ (if f == parent then new_called else g.ordered_called f)
        unlinked_called f = ground arith

    after_children :
        (p c : ℕ)
        → contains (after.children_fns p) c
          ≡ (if p == parent then contains new_called c else contains (g.children_fns p) c)
    unfolding unlink contains
    after_children p c =
        rw (adjusted at) (contains-children parent [] new_called unlinked p c ∙ ground arith)

    after_parents :
        (p c : ℕ)
        → contains (after.parent_fns c) p ≡ (
            if p == parent
            then contains new_called c || (contains (g.parent_fns c) p && not (c == child))
            else contains (g.parent_fns c) p)
    unfolding unlink contains
    after_parents p c = rw (adjusted at) (
        contains-parents parent [] new_called unlinked p c
        ∙ ground (arith, contains-set_erase parent (g.parent_fns child) p))

    -- A callee of the parent that is another function is still called.
    still_called :
        Mirrors g
        → (c : ℕ) → child ≢ c
        → contains (g.parent_fns c) parent ≡ true
        → contains new_called c ≡ true
    still_called m c ne link =
        contains-replaced call_ind (g.ordered_called child) (g.ordered_called parent) child c at ne
          (sym (m.callees parent c) ∙ m.mirrored parent c ∙ link)

    mirrored_after :
        Mirrors g → (p c : ℕ) → contains (after.children_fns p) c ≡ contains (after.parent_fns c) p
    mirrored_after m p c = elim (ℕ_discrete p parent) [
      | yes same ↦ rw same (
          ground (
            arith,
            after_children parent c,
            after_parents parent c,
            still_called m c,
            ==_iff c child,
          ))
      | no differ ↦
          ground (arith, after_children p c, after_parents p c, m.mirrored p c, ==_iff p parent)
    ]

-- A call of another function is inlined, in a graph where the children of each function are the callees
-- of its calls, and the parents are the children read backwards. Then the callees of the inlined
-- function stand in the place of the call in the list of the callees, no other function's list
-- changes, and the children and parents still agree with the lists. Every function other than the one
-- inlined into keeps its children, and is the parent of the same functions as before: so is the inlined
-- function, also when no caller of it is left.
pub adjust_fn_graph_after_inline-Mirrors :
    (parent child call_ind : ℕ) (g : FnGraph)
    → parent ≢ child
    → get_elem? (g.ordered_called parent) call_ind ≡ some child
    → Mirrors g
    → Mirrors (adjust_fn_graph_after_inline parent child call_ind g)
      × ((f : ℕ)
          → (adjust_fn_graph_after_inline parent child call_ind g).ordered_called f ≡ (
              if f == parent
              then replaced call_ind (g.ordered_called child) (g.ordered_called parent)
              else g.ordered_called f))
      × ((f c : ℕ)
          → f ≢ parent
          → (contains ((adjust_fn_graph_after_inline parent child call_ind g).children_fns f) c
              ≡ contains (g.children_fns f) c)
            × (contains ((adjust_fn_graph_after_inline parent child call_ind g).parent_fns c) f
                ≡ contains (g.parent_fns c) f))
adjust_fn_graph_after_inline-Mirrors parent child call_ind g other at m = (
  record {
    mirrored = mirrored_after parent child call_ind g at m;
    callees = λ p c. ground (
      arith,
      after_children parent child call_ind g at p c,
      after_called parent child call_ind g at p,
      m.callees p c,
    );
  },
  after_called parent child call_ind g at,
  λ f c ne. (
    ground (arith, after_children parent child call_ind g at f c, ==_iff f parent),
    ground (arith, after_parents parent child call_ind g at f c, ==_iff f parent),
  ),
)

-- The loops of a function after a call was inlined.
module _ (parent child next_loop_ind : ℕ) (loops : ℕ → Option (List ℕ)) where
  abbrev loops_of : ℕ → List ℕ
  loops_of f = elim (loops f) [ none ↦ [] | some ls ↦ ls ]
