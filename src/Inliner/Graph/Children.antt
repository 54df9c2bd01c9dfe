-- ===== src/Inliner/Graph/Children.antt =====
-- What the loop over the callees of a function adds to the graph.
use gino.Base.{
  ℕ, ◌≡◌, refl, ◌==◌, ==_iff, not, ◌&&◌, ◌||◌, List, [], ◌∷◌, contains, contains-append,
  contains-set_insert, arith, Bool-cases, inl, inr, ◌∙◌,
}
use gino.Inliner.{FnGraph}
use gino.Inliner.Graph.{add_child, add_children}

pub add_children-ordered_called :
    (parent : ℕ) (met called : List ℕ) (g : FnGraph)
    → (add_children parent met called g).ordered_called ≡ g.ordered_called
unfolding add_children
add_children-ordered_called parent met [] g = refl
add_children-ordered_called parent met (child ∷ called) g = elim (Bool-cases (contains met child)) [
  | inl old ↦ rw (old, add_children) (add_children-ordered_called parent met called g)
  | inr new ↦
      rw (new, add_children)
        (add_children-ordered_called parent (child ∷ met) called (add_child parent child g))
]

contains-add_child :
    (parent child : ℕ) (g : FnGraph) (p c : ℕ)
    → contains ((add_child parent child g).children_fns p) c
      ≡ (contains (g.children_fns p) c || (p == parent && child == c))
unfolding add_child contains
contains-add_child parent child g p c = ground (
  arith,
  contains-append (g.children_fns parent) (child ∷ []) c,
  contains-append (g.children_fns p) (child ∷ []) c,
)

contains-add_parent :
    (parent child : ℕ) (g : FnGraph) (p c : ℕ)
    → contains ((add_child parent child g).parent_fns c) p
      ≡ (contains (g.parent_fns c) p || (p == parent && child == c))
unfolding add_child
contains-add_parent parent child g p c = ground (
  arith,
  contains-set_insert parent (g.parent_fns child) p,
  contains-set_insert parent (g.parent_fns c) p,
)

-- The callees that are not met yet become children.
pub contains-children :
    (parent : ℕ) (met called : List ℕ) (g : FnGraph) (p c : ℕ)
    → contains ((add_children parent met called g).children_fns p) c ≡ (
        contains (g.children_fns p) c
        || (p == parent && (contains called c && not (contains met c))))
unfolding add_children contains
contains-children parent met [] g p c = ground arith
contains-children parent met (child ∷ called) g p c = elim (Bool-cases (contains met child)) [
  | inl old ↦
      rw (old, add_children)
        (contains-children parent met called g p c ∙ ground (arith, old, ==_iff child c))
  | inr new ↦
      rw (new, add_children)
        (contains-children parent (child ∷ met) called (add_child parent child g) p c
          ∙ ground (arith, contains-add_child parent child g p c, ==_iff child c))
]

pub contains-parents :
    (parent : ℕ) (met called : List ℕ) (g : FnGraph) (p c : ℕ)
    → contains ((add_children parent met called g).parent_fns c) p ≡ (
        contains (g.parent_fns c) p || (p == parent && (contains called c && not (contains met c))))
unfolding add_children contains
contains-parents parent met [] g p c = ground arith
contains-parents parent met (child ∷ called) g p c = elim (Bool-cases (contains met child)) [
  | inl old ↦
      rw (old, add_children)
        (contains-parents parent met called g p c ∙ ground (arith, old, ==_iff child c))
  | inr new ↦
      rw (new, add_children)
        (contains-parents parent (child ∷ met) called (add_child parent child g) p c
          ∙ ground (arith, contains-add_parent parent child g p c, ==_iff child c))
]
