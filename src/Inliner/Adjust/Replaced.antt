-- ===== src/Inliner/Adjust/Replaced.antt =====
-- A list with one entry replaced by the entries of another list, as both adjust functions make it.
use gino.Base.{
  ℕ, zero, suc, ◌<◌, ◌≡◌, ◌≢◌, refl, sym, ap, ◌∙◌, true, List, [], ◌∷◌, ◌++◌, some, contains,
  contains-append, arith, length, take, drop, get_elem?, take-append-drop,
}
use gino.Inliner.Adjust.{erase_at, called_after_inline}
use gino.Inliner.Adjust.Splice.{insert_entries-eq}

-- The entries of `new` in the place of the one at the index.
abbrev pub replaced : ℕ → List ℕ → List ℕ → List ℕ
replaced i new xs = take i xs ++ (new ++ drop (suc i) xs)

take-erase_at : (i : ℕ) (xs : List ℕ) → take i (erase_at i xs) ≡ take i xs
unfolding erase_at
take-erase_at zero xs = refl
take-erase_at (suc i) [] = refl
take-erase_at (suc i) (x ∷ xs) = ap (λ ys. x ∷ ys) (take-erase_at i xs)

drop-erase_at : (i : ℕ) (xs : List ℕ) → drop i (erase_at i xs) ≡ drop (suc i) xs
unfolding erase_at
drop-erase_at zero [] = refl
drop-erase_at zero (x ∷ xs) = refl
drop-erase_at (suc i) [] = refl
drop-erase_at (suc i) (x ∷ xs) = drop-erase_at i xs

length-erase_at : (i : ℕ) (xs : List ℕ) → i < length xs → suc (length (erase_at i xs)) ≡ length xs
unfolding erase_at
length-erase_at i [] h = absurd (omega arith)
length-erase_at zero (x ∷ xs) h = refl
length-erase_at (suc i) (x ∷ xs) h = ap suc (length-erase_at i xs (omega arith))

-- An entry other than the one that is replaced stays.
pub contains-replaced :
    (i : ℕ) (new xs : List ℕ) (x c : ℕ)
    → get_elem? xs i ≡ some x
    → x ≢ c
    → contains xs c ≡ true
    → contains (replaced i new xs) c ≡ true
unfolding contains
contains-replaced i new [] x c at ne m = absurd (ground arith)
contains-replaced zero new (y ∷ xs) x c at ne m = ground (arith, contains-append new xs c)
contains-replaced (suc i) new (y ∷ xs) x c at ne m =
    ground (arith, contains-replaced i new xs x c at ne)

pub called_after_inline-eq :
    (i : ℕ) (new xs : List ℕ) → i < length xs → called_after_inline i new xs ≡ replaced i new xs
unfolding called_after_inline
called_after_inline-eq i [] xs h =
    sym (take-append-drop i (erase_at i xs)) ∙ rw (take-erase_at i xs, drop-erase_at i xs) refl
called_after_inline-eq i (f ∷ fs) xs h =
    insert_entries-eq i (f ∷ fs) (erase_at i xs) (omega (arith, length-erase_at i xs h))
      (omega arith)
    ∙ rw (take-erase_at i xs, drop-erase_at i xs) refl
