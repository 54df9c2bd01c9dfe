-- ===== src/Planner/LoopTree.antt =====
-- The nesting trees of loops that the planner walks. A loop is the number that stands for its
-- `LoopStructure *`; a map from loops is a function.
use gino.Base.{ℕ, ◌+◌, ◌≡◌, ◌≢◌, ◌⊎◌, inl, inr, List, [], ◌∷◌, All}

mutual
  pub data LoopTree : Type 0 where
    node : ℕ → Children → LoopTree

  pub data Children : Type 0 where
    leaf : Children
    child : LoopTree → Children → Children

abbrev pub get_loop : LoopTree → ℕ
get_loop (node l cs) = l

abbrev pub get_children : LoopTree → Children
get_children (node l cs) = cs

-- A tree is one of a list of trees.
abbrev pub In : LoopTree → List LoopTree → Type 0
In t [] = ⊥
In t (u ∷ us) = (t ≡ u) ⊎ In t us

abbrev pub ChildrenIn : Children → List LoopTree → Type 0
ChildrenIn leaf ts = Unit
ChildrenIn (child t cs) ts = In t ts × ChildrenIn cs ts

pub All-In {κ} :
    (P : LoopTree → Type κ) (t : LoopTree) (ts : List LoopTree) → All P ts → In t ts → P t
All-In P t [] a i = absurd i
All-In P t (u ∷ us) a (inl e) = rw e a.0
All-In P t (u ∷ us) a (inr i) = All-In P t us a.1 i

-- What is relied on of `visitPostOrder`, a function of NOELLE: each node is visited once, after its
-- children, and different nodes have different loops. `done` is what was visited before.
abbrev pub PostOrder : List LoopTree → List LoopTree → Type 0
PostOrder done [] = Unit
PostOrder done (t ∷ ts) =
    ChildrenIn (get_children t) done
    × All (λ u. get_loop u ≢ get_loop t) done
    × PostOrder (t ∷ done) ts

module _ (value : ℕ → ℕ) where
  -- The sum of a value over the loops of a tree.
  unfoldable mutual
    pub total : LoopTree → ℕ
    total (node l cs) = value l + total_children cs

    pub total_children : Children → ℕ
    total_children leaf = 0
    total_children (child t cs) = total t + total_children cs
