-- ===== src/Base/Sets.antt =====
-- Sets of indices as ascending lists, the way `std::set<int>` iterates over them.
use Prim.Native.Nat.{ℕ, suc, ◌<◌, ◌≤◌}
use mathlib.Core.Path.{◌≡◌, refl, subst}
use mathlib.Core.Bool.{Bool, true, false, not, ◌&&◌, ◌||◌}
use mathlib.Core.List.{List, [], ◌∷◌, ◌++◌}
use native.Mathlib.Omega.{arith}
use gino.Base.Lists.{length, All}
use mathlib.Core.Logic.{inl, inr}
use gino.Base.Tests.{Bool-cases, ltb, ◌==◌, if◌then◌else◌, ==_iff}

-- `std::find`, or `find` of a set, against `end`.
unfoldable pub contains : List ℕ → ℕ → Bool
contains [] i = false
contains (j ∷ js) i = j == i || contains js i

-- `insert` of a set.
unfoldable pub set_insert : ℕ → List ℕ → List ℕ
set_insert i [] = i ∷ []
set_insert i (j ∷ js) =
    if i == j then j ∷ js else if ltb i j then i ∷ j ∷ js else j ∷ set_insert i js

-- `erase` of a set.
unfoldable pub set_erase : ℕ → List ℕ → List ℕ
set_erase i [] = []
set_erase i (j ∷ js) = let rest = set_erase i js in if i == j then rest else j ∷ rest

pub contains-set_insert :
    (i : ℕ) (js : List ℕ) (k : ℕ) → contains (set_insert i js) k ≡ (i == k || contains js k)
unfolding contains set_insert
contains-set_insert i [] k = refl
contains-set_insert i (j ∷ js) k = ground (arith, contains-set_insert i js k)

pub contains-set_erase :
    (i : ℕ) (js : List ℕ) (k : ℕ) → contains (set_erase i js) k ≡ (contains js k && not (i == k))
unfolding contains set_erase
contains-set_erase i [] k = refl
contains-set_erase i (j ∷ js) k = ground (arith, contains-set_erase i js k)

pub contains-append :
    (xs ys : List ℕ) (i : ℕ) → contains (xs ++ ys) i ≡ (contains xs i || contains ys i)
unfolding contains
contains-append [] ys i = refl
contains-append (x ∷ xs) ys i = ground (arith, contains-append xs ys i)

-- The entries of a list that are not visited.
unfoldable pub count_unvisited : List ℕ → List ℕ → ℕ
count_unvisited visited [] = 0
count_unvisited visited (n ∷ ns) =
    let rest = count_unvisited visited ns in if contains visited n then rest else suc rest

count_unvisited-more :
    (visited : List ℕ) (x : ℕ) (ns : List ℕ)
    → count_unvisited (x ∷ visited) ns ≤ count_unvisited visited ns
unfolding count_unvisited contains
count_unvisited-more visited x [] = omega arith
count_unvisited-more visited x (n ∷ ns) = ground (arith, count_unvisited-more visited x ns)

-- A node that becomes visited is counted no more.
pub count_unvisited-less :
    (visited : List ℕ) (x : ℕ) (ns : List ℕ)
    → contains visited x ≡ false
    → contains ns x ≡ true
    → count_unvisited (x ∷ visited) ns < count_unvisited visited ns
unfolding count_unvisited contains
count_unvisited-less visited x [] h m = absurd (ground arith)
count_unvisited-less visited x (n ∷ ns) h m = ground (
  arith,
  count_unvisited-less visited x ns h,
  count_unvisited-more visited x ns,
  ==_iff n x,
  ==_iff x n,
)

count_unvisited-ext :
    (xs ys ns : List ℕ)
    → ((n : ℕ) → contains xs n ≡ contains ys n)
    → count_unvisited xs ns ≡ count_unvisited ys ns
unfolding count_unvisited
count_unvisited-ext xs ys [] e = refl
count_unvisited-ext xs ys (n ∷ ns) e = ground (arith, e n, count_unvisited-ext xs ys ns e)

-- The same when the visited nodes are a set.
pub count_unvisited-insert :
    (visited : List ℕ) (x : ℕ) (ns : List ℕ)
    → contains visited x ≡ false
    → contains ns x ≡ true
    → count_unvisited (set_insert x visited) ns < count_unvisited visited ns
unfolding contains
count_unvisited-insert visited x ns h m = omega (
  arith,
  count_unvisited-less visited x ns h m,
  count_unvisited-ext (set_insert x visited) (x ∷ visited) ns
      (λ n. contains-set_insert x visited n),
)

pub count_unvisited-all : (ns : List ℕ) → count_unvisited [] ns ≡ length ns
unfolding count_unvisited contains
count_unvisited-all [] = refl
count_unvisited-all (n ∷ ns) = omega (arith, count_unvisited-all ns)

pub count_unvisited-le : (visited ns : List ℕ) → count_unvisited visited ns ≤ length ns
unfolding count_unvisited
count_unvisited-le visited [] = omega arith
count_unvisited-le visited (n ∷ ns) = ground (arith, count_unvisited-le visited ns)

-- No entry stands twice.
abbrev pub AreDistinct : List ℕ → Type 0
AreDistinct [] = Unit
AreDistinct (x ∷ xs) = (contains xs x ≡ false) × AreDistinct xs

pub append-AreDistinct :
    (xs : List ℕ) (x : ℕ) → contains xs x ≡ false → AreDistinct xs → AreDistinct (xs ++ x ∷ [])
unfolding contains
append-AreDistinct [] x h d = (refl, tt)
append-AreDistinct (y ∷ ys) x h d = (
  ground (arith, contains-append ys (x ∷ []) y, ==_iff x y, ==_iff y x),
  append-AreDistinct ys x (ground arith) d.1,
)

pub All-contains :
    (P : ℕ → Type 0) (xs : List ℕ) → ((x : ℕ) → contains xs x ≡ true → P x) → All P xs
unfolding contains
All-contains P [] h = tt
All-contains P (x ∷ xs) h =
    (h x (ground (arith, ==_iff x x)), All-contains P xs (λ y m. h y (ground arith)))

pub contains-All : (P : ℕ → Type 0) (xs : List ℕ) (x : ℕ) → All P xs → contains xs x ≡ true → P x
unfolding contains
contains-All P [] x a m = absurd (ground arith)
contains-All P (y ∷ ys) x a m = elim (Bool-cases (y == x)) [
  | inl same ↦ subst P ((==_iff y x).0 same) a.0
  | inr other ↦ contains-All P ys x a.1 (ground arith)
]
