-- ===== src/Parallelizer/Technique.antt =====
-- Parallelizer::parallelizeLoop (src/core/parallelizer/src/Parallelizer_loop.cpp): the technique that
-- a loop is parallelized with.
use gino.Base.{
  ℕ, ◌≡◌, Bool, true, false, ◌&&◌, List, [], ◌∷◌, Option, none, some, arith, if◌then◌else◌, ◌↔◌,
  ◌<◌,
}

pub data Technique : Type 0 where
  doall : Technique
  helix : Technique
  dswp : Technique

-- What the techniques, NOELLE and the loop answer for one loop. `apply` may refuse to parallelize.
pub record Answers : Type 0 where
  pub is_enabled : Technique → Bool
  pub is_enabled_for_loop : Technique → Bool
  pub can_be_applied : Technique → Bool
  pub apply : Technique → Bool

pub parallelization_techniques : List Technique
parallelization_techniques = doall ∷ helix ∷ dswp ∷ []

-- The test of the loop over the techniques.
pub is_applicable : Answers → Technique → Bool
is_applicable a t = a.is_enabled t && a.is_enabled_for_loop t && a.can_be_applied t

pub record Attempt : Type 0 where
  pub code_modified : Bool
  pub used_technique : Option Technique

pub try_techniques : Answers → List Technique → Attempt
unfolding is_applicable
try_techniques a [] = record { code_modified = false; used_technique = none }
try_techniques a (t ∷ ts) =
    if is_applicable a t
    then record { code_modified = a.apply t; used_technique = some t }
    else try_techniques a ts

-- The answer, and the technique whose code is linked in place of the loop.
pub parallelize_loop : Answers → Bool × Option Technique
unfolding try_techniques parallelization_techniques
parallelize_loop a =
    let attempt = try_techniques a parallelization_techniques in
    if attempt.code_modified then (true, attempt.used_technique) else (false, none)

-- The place of a technique in the order of preference, stated without the list.
abbrev rank : Technique → ℕ
rank doall = 0
rank helix = 1
rank dswp = 2

abbrev pub IsPreferred : Answers → Technique → Type 0
IsPreferred a t =
    (is_applicable a t ≡ true) × ((s : Technique) → rank s < rank t → is_applicable a s ≡ false)

module _ (a : Answers) where
  used-IsPreferred :
      (t : Technique) → parallelize_loop a ≡ (true, some t) → IsPreferred a t × (a.apply t ≡ true)
  unfolding parallelize_loop try_techniques parallelization_techniques
  used-IsPreferred doall e = (
    (
      ground arith,
      λ s. elim s [ doall ↦ ground arith | helix ↦ ground arith | dswp ↦ ground arith ],
    ),
    ground arith,
  )
  used-IsPreferred helix e = (
    (
      ground arith,
      λ s. elim s [ doall ↦ ground arith | helix ↦ ground arith | dswp ↦ ground arith ],
    ),
    ground arith,
  )
  used-IsPreferred dswp e = (
    (
      ground arith,
      λ s. elim s [ doall ↦ ground arith | helix ↦ ground arith | dswp ↦ ground arith ],
    ),
    ground arith,
  )

  preferred_is_used :
      (t : Technique) → IsPreferred a t → a.apply t ≡ true → parallelize_loop a ≡ (true, some t)
  unfolding parallelize_loop try_techniques parallelization_techniques
  preferred_is_used doall p m = ground (arith, p.1 doall, p.1 helix, p.1 dswp)
  preferred_is_used helix p m = ground (arith, p.1 doall, p.1 helix, p.1 dswp)
  preferred_is_used dswp p m = ground (arith, p.1 doall, p.1 helix, p.1 dswp)

-- A loop is parallelized with a technique exactly when the technique is the first applicable one, in
-- the order DOALL, HELIX, DSWP, and its own `apply` succeeds: no other technique is tried after one
-- that gives up.
pub parallelize_loop_iff :
    (a : Answers) (t : Technique)
    → (parallelize_loop a ≡ (true, some t)) ↔ (IsPreferred a t × (a.apply t ≡ true))
parallelize_loop_iff a t = (used-IsPreferred a t, λ h. preferred_is_used a t h.0 h.1)
