-- ===== src/Parallelizer/Entries.antt =====
-- `std::map<uint32_t, LoopContent *>` of Parallelizer::parallelizeLoops: entries in the order of
-- their keys.
use mathlib.Core.Path.{ap₂}
use gino.Base.{
  ℕ, ◌≤◌, ◌<◌, ◌≡◌, refl, suc, List, [], ◌∷◌, Option, none, some, ltb, ◌==◌, arith, if◌then◌else◌,
}

abbrev pub OrderMap : Type 0
OrderMap = List (ℕ × ℕ)

-- Assignment through `operator[]`.
unfoldable pub insert_order : ℕ → ℕ → OrderMap → OrderMap
insert_order i l [] = (i, l) ∷ []
insert_order i l ((j, k) ∷ m) =
    if i == j
    then (i, l) ∷ m
    else if ltb i j
    then (i, l) ∷ (j, k) ∷ m
    else (j, k) ∷ insert_order i l m

unfoldable pub lookup_order : OrderMap → ℕ → Option ℕ
lookup_order [] i = none
lookup_order ((j, k) ∷ m) i = if j == i then some k else lookup_order m i

-- Keys rise along the map, from a lower bound on.
abbrev pub IsRising : ℕ → OrderMap → Type 0
IsRising low [] = Unit
IsRising low ((j, k) ∷ m) = (low ≤ j) × IsRising (suc j) m

pub lookup_order-insert_order :
    (i l j : ℕ) (m : OrderMap)
    → lookup_order (insert_order i l m) j ≡ (if i == j then some l else lookup_order m j)
unfolding lookup_order insert_order
lookup_order-insert_order i l j [] = refl
lookup_order-insert_order i l j ((k, n) ∷ m) = ground (arith, lookup_order-insert_order i l j m)

pub insert_order-IsRising :
    (i l low : ℕ) (m : OrderMap) → low ≤ i → IsRising low m → IsRising low (insert_order i l m)
unfolding insert_order
insert_order-IsRising i l low [] h r = (h, tt)
insert_order-IsRising i l low ((j, k) ∷ m) h r = ground (arith, insert_order-IsRising i l (suc j) m)

pub lookup_order-below :
    (m : OrderMap) (low i : ℕ) → IsRising low m → i < low → lookup_order m i ≡ none
unfolding lookup_order
lookup_order-below [] low i r h = refl
lookup_order-below ((j, k) ∷ m) low i r h = ground (arith, lookup_order-below m (suc j) i r.1)

module _ (j k i l low : ℕ) (m n : OrderMap) (r : IsRising low ((j, k) ∷ m))
    (s : IsRising low ((i, l) ∷ n))
    (h : (x : ℕ) → lookup_order ((j, k) ∷ m) x ≡ lookup_order ((i, l) ∷ n) x) where
  same_key : j ≡ i
  unfolding lookup_order
  same_key =
      ground
        (arith, h i, h j, lookup_order-below m (suc j) i r.1, lookup_order-below n (suc i) j s.1)

  same_value : k ≡ l
  unfolding lookup_order
  same_value = ground (arith, h j, same_key)

  same_rest : (x : ℕ) → lookup_order m x ≡ lookup_order n x
  unfolding lookup_order
  same_rest x =
      ground (
        arith,
        h x,
        same_key,
        lookup_order-below m (suc j) x r.1,
        lookup_order-below n (suc i) x s.1,
      )

-- Maps with rising keys that hold the same entries are equal.
pub OrderMap-ext :
    (m n : OrderMap) (low : ℕ)
    → IsRising low m
    → IsRising low n
    → ((i : ℕ) → lookup_order m i ≡ lookup_order n i)
    → m ≡ n
unfolding lookup_order
OrderMap-ext [] [] low r s h = refl
OrderMap-ext [] ((j, k) ∷ n) low r s h = absurd (ground (arith, h j))
OrderMap-ext ((j, k) ∷ m) [] low r s h = absurd (ground (arith, h j))
OrderMap-ext ((j, k) ∷ m) ((i, l) ∷ n) low r s h =
    ap₂ ◌∷◌ (λ t. (same_key j k i l low m n r s h t, same_value j k i l low m n r s h t))
      (OrderMap-ext m n (suc j) r.1 (rw (same_key j k i l low m n r s h) s.1)
        (same_rest j k i l low m n r s h))
