-- ===== src/Inliner/Carried/Tests.antt =====
-- The theorems on loop-carried dependences at the program with four functions.
use gino.Base.{
  ℕ, length, ◌<◌, ◌≤◌, ◌≡◌, ◌⊎◌, refl, true, false, some, [], ◌∷◌, contains, set_insert, All, Any,
}
use gino.Inliner.Inline.{inline_function_call, State, record_inline, is_inlined}
use gino.Inliner.Carried.{
  inline_calls_in_loop_carried_dependences, choose_call, check_sccs, inline_within_loop,
}
use gino.Inliner.Carried.Chosen.{inline_within_loop-best, call_of, considered, memory_edges}
use gino.Inliner.Carried.Eligible.{Counts, Eligible}
use gino.Inliner.Carried.SubLoops.{inline_calls_in_loop_carried_dependences-loops}
use gino.Inliner.Samples.{callee, code, analyses, order, state}

inline_within_loop-best_example :
    (inline_within_loop analyses 2 300 state ≡ (false, state))
    ⊎ ((call fn : ℕ) × (inline_within_loop analyses 2 300 state
          ≡ (true, record_inline code 2 fn call state))
        × (callee call ≡ some fn)
        × (is_inlined code 2 fn call state ≡ true)
        × ((k : ℕ) × Counts analyses order 2 300 (considered (analyses.sccs_that_block_doall 300)) k
            × (k < 10))
        × ((best : ℕ) × (0 < best)
            × Any
                (λ n.
                  Eligible analyses order 2 300 n
                  × (call_of n ≡ some call)
                  × (memory_edges n ≡ best))
                (considered (analyses.sccs_that_block_doall 300))
            × All
                (λ n. Eligible analyses order 2 300 n → memory_edges n ≤ best)
                (considered (analyses.sccs_that_block_doall 300))))
inline_within_loop-best_example = inline_within_loop-best analyses 2 300 state

-- The call with two memory dependences is chosen.
inlined_call : (inline_within_loop analyses 2 300 state).1.fns_affected ≡ 2 ∷ []
unfolding inline_within_loop choose_call check_sccs inline_function_call is_inlined contains
    record_inline set_insert
inlined_call = refl

abbrev doall_state : State
doall_state = record state { loops_to_check = λ f. 401 ∷ [] }

inline_calls_in_loop_carried_dependences-loops_example :
    (length (
        (inline_calls_in_loop_carried_dependences analyses (2 ∷ []) doall_state).1.loops_to_check 2)
      ≡ 1)
    × (contains
          ((inline_calls_in_loop_carried_dependences analyses (2 ∷ []) doall_state).1.loops_to_check
            2)
          401
        ≡ true)
unfolding contains
inline_calls_in_loop_carried_dependences-loops_example =
    inline_calls_in_loop_carried_dependences-loops analyses (2 ∷ []) doall_state 2 401 (λ k. refl)
