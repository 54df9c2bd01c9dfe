-- ===== src/Dswp/Clones/Tests.antt =====
-- The search at a concrete SCCDAG: 3 depends on 2, which depends on 1 and 4; 1 and 2 are clonable.
use gino.Base.{
  Bool-cases, inl, inr, ℕ, ◌≡◌, refl, ◌↔◌, Bool, true, List, [], ◌∷◌, contains, set_insert, ◌==◌,
  ◌||◌, if◌then◌else◌, All,
}
use gino.Dswp.Clones.{visit_edge, visit_edges, search, start_search, add_clonable_sccs}
use gino.Dswp.Clones.Found.{Feeds, add_clonable_sccs_iff}

abbrev incoming : ℕ → List ℕ
incoming n = if n == 3 then 2 ∷ [] else if n == 2 then 1 ∷ 4 ∷ [] else []

abbrev is_clonable : ℕ → Bool
is_clonable n = n == 1 || n == 2

abbrev nodes : List ℕ
nodes = 1 ∷ 2 ∷ 3 ∷ 4 ∷ []

both_found : add_clonable_sccs is_clonable incoming 4 (3 ∷ []) ≡ 1 ∷ 2 ∷ []
unfolding add_clonable_sccs search start_search visit_edges visit_edge contains set_insert
both_found = refl

in_nodes : (n : ℕ) → All (λ x. contains nodes x ≡ true) (incoming n)
unfolding contains
in_nodes n = elim (Bool-cases (n == 3)) [
  | inl three ↦ rw three (refl, tt)
  | inr other ↦ elim (Bool-cases (n == 2)) [
    | inl two ↦ rw (other, two) (refl, (refl, tt))
    | inr neither ↦ rw (other, neither) tt
  ]
]

add_clonable_sccs_iff_example :
    (search is_clonable incoming 5 (start_search (3 ∷ []))).dependent_nodes ≡ []
    × ((x : ℕ)
        → (contains (add_clonable_sccs is_clonable incoming 4 (3 ∷ [])) x ≡ true)
          ↔ ((is_clonable x ≡ true) × Feeds incoming (3 ∷ []) x))
add_clonable_sccs_iff_example = add_clonable_sccs_iff is_clonable incoming nodes (3 ∷ []) in_nodes
