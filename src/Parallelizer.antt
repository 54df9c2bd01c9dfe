-- ===== src/Parallelizer.antt =====
-- Parallelizer::parallelizeLoops (src/core/parallelizer/src/Parallelizer_loops.cpp): the loops that
-- have an index are parallelized in the order of their indices, unless a parallelized loop shares a
-- basic block with them.
pub mod Entries
pub mod Order
pub mod Disjoint
pub mod Technique
mod Tests
use gino.Base.{
  ℕ, contains, Bool, true, false, not, ◌&&◌, ◌||◌, List, [], ◌∷◌, Option, none, some, foldl, ◌==◌,
  if◌then◌else◌,
}
use gino.Parallelizer.Entries.{OrderMap, insert_order}

-- The lists of loop indices of the command line.
pub record Options : Type 0 where
  pub white_list : List ℕ
  pub black_list : List ℕ

select_by : List ℕ → List ℕ → ℕ → Bool
unfolding contains
select_by (w ∷ ws) bs i = contains (w ∷ ws) i
select_by [] (b ∷ bs) i = not (contains (b ∷ bs) i)
select_by [] [] i = true

pub is_selected : Options → ℕ → Bool
unfolding select_by
is_selected o i = select_by o.white_list o.black_list i

module _ (options : Options) (order_of : ℕ → Option ℕ) where
  -- The visitor: `order_of` is the metadata of a loop, read as a number.
  pub select_loop : OrderMap → ℕ → OrderMap
  select_loop m l = elim (order_of l) [
    | none ↦ m
    | some i ↦ if is_selected options i then insert_order i l m else m
  ]

  -- `visits` are the loops of all trees, in the order of `visitPreOrder`.
  pub order_loops : List ℕ → OrderMap
  unfolding select_loop
  order_loops visits = foldl select_loop [] visits

-- The basic blocks that parallelization has modified, and the loops parallelized, last one first.
pub record Progress : Type 0 where
  pub modified_bbs : ℕ → Bool
  pub parallelized : List ℕ

pub no_progress : Progress
no_progress = record { modified_bbs = λ _. false; parallelized = [] }

pub is_safe : (ℕ → Bool) → List ℕ → Bool
is_safe modified [] = true
is_safe modified (bb ∷ bbs) = not (modified bb) && is_safe modified bbs

pub mark : (ℕ → Bool) → List ℕ → ℕ → Bool
unfolding contains
mark modified bbs bb = modified bb || contains bbs bb

-- `basic_blocks` are those of a loop; `parallelize` is parallelizeLoop, whose answer may depend on
-- what was parallelized before.
module _ (basic_blocks : ℕ → List ℕ) (parallelize : List ℕ → ℕ → Bool) where
  pub try_loop : Progress → ℕ → Progress
  try_loop p l =
      if is_safe p.modified_bbs (basic_blocks l) && parallelize p.parallelized l
      then record {
        modified_bbs = mark p.modified_bbs (basic_blocks l);
        parallelized = l ∷ p.parallelized;
      }
      else p

  pub try_loops : Progress → OrderMap → Progress
  unfolding try_loop
  try_loops p [] = p
  try_loops p ((i, l) ∷ m) = try_loops (try_loop p l) m

  pub parallelize_loops : Options → (ℕ → Option ℕ) → List ℕ → Progress
  unfolding try_loops no_progress
  parallelize_loops options order_of visits =
      try_loops no_progress (order_loops options order_of visits)
