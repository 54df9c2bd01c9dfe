-- ===== src/Inliner/Carried/Touched.antt =====
-- What the work on the loops of one function changes.
use gino.Base.{
  ℕ, ◌≡◌, ◌≢◌, refl, ◌==◌, Bool, true, false, ◌&&◌, ◌||◌, List, [], ◌∷◌, leb, length, contains,
  contains-set_insert, update, arith, Bool-cases, inl, inr,
}
use gino.Inliner.Adjust.Mirror.{other_links}
use gino.Inliner.Inline.{State, record_inline, find_index}
use gino.Inliner.Carried.{
  Analyses, inline_within_loop, inline_in_loops, disable_sub_loops, is_enabled,
}
use gino.Inliner.Carried.Chosen.{inline_within_loop-best}

-- Only the function is affected, and only its own links change.
pub record Touches (f : ℕ) (s : State) (r : Bool × State) : Type 0 where
  pub affected :
      (x : ℕ) → contains r.1.fns_affected x ≡ (contains s.fns_affected x || (r.0 && f == x))
  pub links :
      (c p : ℕ) → f ≢ p → contains (r.1.graph.parent_fns c) p ≡ contains (s.graph.parent_fns c) p

module _ (a : Analyses) (f : ℕ) where
  untouched : (s : State) → Touches f s (false, s)
  untouched s = record { affected = λ x. ground arith; links = λ c p ne. refl }

  record_inline-Touches :
      (child call : ℕ) (s : State) → Touches f s (true, record_inline a.code f child call s)
  unfolding record_inline
  record_inline-Touches child call s = record {
    affected = λ x. ground (arith, contains-set_insert f s.fns_affected x);
    links =
        λ c p ne. other_links f child (find_index call (s.graph.ordered_calls f)) s.graph c p ne;
  }

  inline_within_loop-Touches : (loop : ℕ) (s : State) → Touches f s (inline_within_loop a f loop s)
  inline_within_loop-Touches loop s = elim (inline_within_loop-best a f loop s) [
    | inl no_call ↦ rw no_call (untouched s)
    | inr (call, callee, done, known, inlined, few, best) ↦
        rw done (record_inline-Touches callee call s)
  ]

  -- A state that differs in the enabled loops only is touched alike.
  after_disabled :
      (s : State) (loops : ℕ → List ℕ) (r : Bool × State)
      → Touches f (record s { loops_to_check = loops }) r
      → Touches f s r
  after_disabled s loops r t = record { affected = t.affected; links = t.links }

  pub inline_in_loops-Touches :
      (loops : List ℕ) (s : State) → Touches f s (inline_in_loops a f loops s)
  unfolding inline_in_loops
  inline_in_loops-Touches [] s = untouched s
  inline_in_loops-Touches (loop ∷ loops) s =
      elim (Bool-cases (is_enabled a (a.code.header (a.structure loop)) (s.loops_to_check f))) [
        | inr off ↦ rw (off, inline_in_loops) (inline_in_loops-Touches loops s)
        | inl on ↦ elim (Bool-cases (leb 1 (length (a.sub_loops loop)) && a.is_doall loop)) [
          | inl doall ↦
              let loops' =
                update s.loops_to_check f
                  (disable_sub_loops (a.sub_loops loop) (s.loops_to_check f)) in
              rw (on, doall, inline_in_loops)
                (after_disabled s loops' _
                  (inline_in_loops-Touches loops (record s { loops_to_check = loops' })))
          | inr other ↦ elim (inline_within_loop-best a f loop s) [
            | inl no_call ↦
                rw (on, other, no_call, inline_in_loops) (inline_in_loops-Touches loops s)
            | inr (call, callee, done, known, inlined, few, best) ↦
                rw (on, other, done, inline_in_loops) (record_inline-Touches callee call s)
          ]
        ]
      ]
