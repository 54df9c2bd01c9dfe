-- ===== src/Dswp/Stages/Tests.antt =====
-- A stage structure of two stages at concrete inputs: SCC 1 is cloned into the second stage.
use gino.Base.{ℕ, ◌≡◌, refl, ◌↔◌, ◌⊎◌, Bool, true, List, [], ◌∷◌, ◌==◌, All, contains}
use gino.Dswp.Stages.{StageSccs, is_complete_and_valid, add_stages, add_stage_sccs, are_all_present}
use gino.Dswp.Stages.Cover.{count_stages, is_complete_and_valid_iff}

abbrev is_clonable : ℕ → Bool
is_clonable n = n == 1

abbrev two_stages : List StageSccs
two_stages =
    record { stage_sccs = 2 ∷ []; clonable_sccs = [] }
    ∷ record { stage_sccs = 3 ∷ 4 ∷ []; clonable_sccs = 1 ∷ [] }
    ∷ []

two_stages_valid : is_complete_and_valid is_clonable (1 ∷ 2 ∷ 3 ∷ 4 ∷ []) two_stages ≡ true
unfolding is_complete_and_valid add_stages add_stage_sccs are_all_present contains
two_stages_valid = refl

is_complete_and_valid_iff_example :
    (is_complete_and_valid is_clonable (1 ∷ 2 ∷ 3 ∷ 4 ∷ []) two_stages ≡ true)
    ↔ All (λ n. (is_clonable n ≡ true) ⊎ (count_stages n two_stages ≡ 1)) (1 ∷ 2 ∷ 3 ∷ 4 ∷ [])
unfolding contains
is_complete_and_valid_iff_example =
    is_complete_and_valid_iff is_clonable (1 ∷ 2 ∷ 3 ∷ 4 ∷ []) two_stages
      (((refl, tt), tt), (((refl, (refl, tt)), (refl, tt)), tt))
      ((refl, tt), ((refl, (refl, tt)), tt))
