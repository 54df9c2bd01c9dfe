-- ===== src/Runtime/ArgPool/Blocks.antt =====
-- Well-formed pools of DOALL argument blocks, and the search for a block.
use gino.Base.{
  ℕ, zero, suc, ◌+◌, ◌≤◌, ◌<◌, ◌≡◌, refl, ap, Bool, true, false, List, [], ◌∷◌, ◌++◌, some, leb,
  set, length, get_elem?, arith, Bool-cases, ◌&&◌, inl, inr,
}
use gino.Runtime.ArgPool.{Block, ArgPool, find_block}

-- A block of a size: task `i` has core `i`.
abbrev pub HasCores : ℕ → Block → Type 0
HasCores size block = (i : ℕ) → i < size → (block i).core_id ≡ i

abbrev pub IsLocked : ℕ → Block → Type 0
IsLocked size block = (i : ℕ) → i < size → (block i).end_lock ≡ true

-- The three vectors have the same length, and a block that is available has all its locks held.
abbrev pub AreBlocks : List ℕ → List Bool → List Block → Type 0
AreBlocks [] [] [] = Unit
AreBlocks (size ∷ sizes) (available ∷ avs) (block ∷ blocks) =
    HasCores size block × (available ≡ true → IsLocked size block) × AreBlocks sizes avs blocks
AreBlocks _ _ _ = ⊥

abbrev pub IsValid : ArgPool → Type 0
IsValid pool = AreBlocks pool.doall_memory_sizes pool.doall_memory_availability pool.doall_memory

pub AreBlocks-append :
    (sizes : List ℕ) (avs : List Bool) (blocks : List Block) (size : ℕ) (block : Block)
    → AreBlocks sizes avs blocks
    → HasCores size block
    → IsLocked size block
    → AreBlocks (sizes ++ size ∷ []) (avs ++ false ∷ []) (blocks ++ block ∷ [])
AreBlocks-append [] [] [] size block v h k = (h, λ e. k, tt)
AreBlocks-append (s ∷ sizes) (a ∷ avs) (b ∷ blocks) size block v h k =
    (v.0, v.1, AreBlocks-append sizes avs blocks size block v.2 h k)
AreBlocks-append _ _ _ size block v h k = absurd v

pub AreBlocks-set-false :
    (sizes : List ℕ) (avs : List Bool) (blocks : List Block) (i : ℕ)
    → AreBlocks sizes avs blocks
    → AreBlocks sizes (set avs i false) blocks
AreBlocks-set-false [] [] [] i v = v
AreBlocks-set-false (s ∷ sizes) (a ∷ avs) (b ∷ blocks) zero v = (v.0, λ e. cc, v.2)
AreBlocks-set-false (s ∷ sizes) (a ∷ avs) (b ∷ blocks) (suc i) v =
    (v.0, v.1, AreBlocks-set-false sizes avs blocks i v.2)
AreBlocks-set-false _ _ _ i v = absurd v

-- A block may become available, with new contents, once its cores stand and its locks are held.
pub AreBlocks-set-true :
    (sizes : List ℕ) (avs : List Bool) (blocks : List Block) (i : ℕ) (block : Block)
    → AreBlocks sizes avs blocks
    → ((size : ℕ) → get_elem? sizes i ≡ some size → HasCores size block × IsLocked size block)
    → AreBlocks sizes (set avs i true) (set blocks i block)
AreBlocks-set-true [] [] [] i block v h = v
AreBlocks-set-true (s ∷ sizes) (a ∷ avs) (b ∷ blocks) zero block v h =
    ((h s refl).0, λ e. (h s refl).1, v.2)
AreBlocks-set-true (s ∷ sizes) (a ∷ avs) (b ∷ blocks) (suc i) block v h =
    (v.0, v.1, AreBlocks-set-true sizes avs blocks i block v.2 h)
AreBlocks-set-true _ _ _ i block v h = absurd v

-- A block that the search finds is available and large enough.
pub record Found (cores : ℕ) (avs : List Bool) (sizes : List ℕ) (k : ℕ) : Type 0 where
  pub free : get_elem? avs k ≡ some true
  pub size : ℕ
  pub sized : get_elem? sizes k ≡ some size
  pub enough : cores ≤ size

pub find_block_lem :
    (cores : ℕ) (avs : List Bool) (sizes : List ℕ) (i j : ℕ)
    → find_block cores avs sizes i ≡ some j
    → (k : ℕ) × (j ≡ i + k) × Found cores avs sizes k
unfolding find_block
find_block_lem cores [] sizes i j e = cc
find_block_lem cores (a ∷ avs) [] i j e = cc
find_block_lem cores (a ∷ avs) (s ∷ sizes) i j e = elim (Bool-cases (a && leb cores s)) [
  | inl hit ↦ (
    0,
    ground arith,
    record { free = ground arith; size = s; sized = refl; enough = ground arith },
  )
  | inr miss ↦
      let (k, at, f) = find_block_lem cores avs sizes (i + 1) j (ground arith) in
      (
        suc k,
        omega arith,
        record { free = f.free; size = f.size; sized = f.sized; enough = f.enough },
      )
]

-- The entry of a block that is available.
pub AreBlocks-get :
    (sizes : List ℕ) (avs : List Bool) (blocks : List Block) (i : ℕ) {size : ℕ}
    → AreBlocks sizes avs blocks
    → get_elem? avs i ≡ some true
    → get_elem? sizes i ≡ some size
    → (block : Block) × (get_elem? blocks i ≡ some block)
      × HasCores size block
      × IsLocked size block
AreBlocks-get [] [] [] i v e f = cc
AreBlocks-get (s ∷ sizes) (a ∷ avs) (b ∷ blocks) zero {size} v e f =
    let same : s ≡ size = cc in (b, refl, rw (← same) v.0, rw (← same) (v.1 (cc)))
AreBlocks-get (s ∷ sizes) (a ∷ avs) (b ∷ blocks) (suc i) v e f =
    AreBlocks-get sizes avs blocks i v.2 e f
AreBlocks-get _ _ _ i v e f = absurd v

pub AreBlocks-lengths :
    (sizes : List ℕ) (avs : List Bool) (blocks : List Block)
    → AreBlocks sizes avs blocks
    → (length sizes ≡ length avs) × (length blocks ≡ length avs)
AreBlocks-lengths [] [] [] v = (refl, refl)
AreBlocks-lengths (s ∷ sizes) (a ∷ avs) (b ∷ blocks) v =
    let (e, f) = AreBlocks-lengths sizes avs blocks v.2 in (ap suc e, ap suc f)
AreBlocks-lengths _ _ _ v = absurd v
