-- ===== src/Inliner/Carried/Apart.antt =====
-- A function and its parent are not both changed by one run.
use gino.Base.{
  AreDistinct, ℕ, ◌≤◌, ◌<◌, ◌≡◌, ◌≢◌, refl, ap, ◌∙◌, ◌==◌, ==_iff, Bool, true, false, ◌||◌, List,
  [], ◌∷◌, contains, set_insert, contains-set_insert, All, arith, Bool-cases, inl, inr, ℕ_discrete,
  if◌then◌else◌,
}
use gino.Inliner.{DepthOrder, order_of}
use gino.Inliner.Depth.{sort_in_depth_order_fns}
use gino.Inliner.Depth.Sorted.{
  Falls, sort_in_depth_order_fns-Falls, sort_in_depth_order_fns-AreDistinct,
}
use gino.Inliner.Inline.{State}
use gino.Inliner.Carried.{
  Analyses, inline_in_loops, avoid_all, inline_in_fns, inline_calls_in_loop_carried_dependences,
}
use gino.Inliner.Carried.Touched.{Touches, inline_in_loops-Touches}

contains-avoid_all :
    (fs avoid : List ℕ) (x : ℕ)
    → contains (avoid_all fs avoid) x ≡ (contains fs x || contains avoid x)
unfolding avoid_all contains
contains-avoid_all [] avoid x = refl
contains-avoid_all (f ∷ fs) avoid x =
    contains-avoid_all fs (set_insert f avoid) x ∙ ground (arith, contains-set_insert f avoid x)

below-contains :
    (d : DepthOrder) (n f : ℕ) (fs : List ℕ)
    → All (λ g. order_of d g ≤ n) fs
    → n < order_of d f
    → contains fs f ≡ false
unfolding contains
below-contains d n f [] a lt = refl
below-contains d n f (g ∷ gs) a lt = ground (arith, below-contains d n f gs a.1 lt, differ)
  where
    differ : (g == f) ≡ false
    differ = elim (Bool-cases (g == f)) [
      | inl same ↦ absurd (omega (arith, a.0, ap (order_of d) ((==_iff g f).0 same)))
      | inr other ↦ other
    ]

module _ (a : Analyses) (d : DepthOrder) where
  abbrev tried : ℕ → State → Bool × State
  tried f s = inline_in_loops a f (a.loop_contents f) s

  abbrev avoid_after : ℕ → List ℕ → State → List ℕ
  avoid_after f avoid s =
      if (tried f s).0 then avoid_all ((tried f s).1.graph.parent_fns f) avoid else avoid

  -- A function that is avoided is not affected.
  avoided_kept :
      (fs avoid : List ℕ) (s : State) (p : ℕ)
      → contains avoid p ≡ true
      → contains (inline_in_fns a fs avoid s).1.fns_affected p ≡ contains s.fns_affected p
  unfolding inline_in_fns
  avoided_kept [] avoid s p in_avoid = refl
  avoided_kept (f ∷ fs) avoid s p in_avoid = elim (Bool-cases (contains avoid f)) [
    | inl skipped ↦
        rw (skipped, inline_in_fns)
          (avoided_kept fs (avoid_all (s.graph.parent_fns f) avoid) s p
            (ground (arith, contains-avoid_all (s.graph.parent_fns f) avoid p)))
    | inr taken ↦
        rw (taken, inline_in_fns)
          (avoided_kept fs (avoid_after f avoid s) (tried f s).1 p
              (ground (arith, contains-avoid_all ((tried f s).1.graph.parent_fns f) avoid p))
            ∙ ground (
              arith,
              (inline_in_loops-Touches a f (a.loop_contents f) s).affected p,
              ==_iff f p,
              other f p avoid taken in_avoid,
            ))
  ]
    where
      other :
          (f p : ℕ) (avoid : List ℕ) → contains avoid f ≡ false → contains avoid p ≡ true → f ≢ p
      other f p avoid no_f with_p e = ground (arith, ap (contains avoid) e)

  -- A function that is not in the list is not affected.
  absent_kept :
      (fs avoid : List ℕ) (s : State) (p : ℕ)
      → contains fs p ≡ false
      → contains (inline_in_fns a fs avoid s).1.fns_affected p ≡ contains s.fns_affected p
  unfolding inline_in_fns contains
  absent_kept [] avoid s p absent = refl
  absent_kept (f ∷ fs) avoid s p absent = elim (Bool-cases (contains avoid f)) [
    | inl skipped ↦
        rw (skipped, inline_in_fns)
          (absent_kept fs (avoid_all (s.graph.parent_fns f) avoid) s p (ground arith))
    | inr taken ↦
        rw (taken, inline_in_fns)
          (absent_kept fs (avoid_after f avoid s) (tried f s).1 p (ground arith)
            ∙ ground (arith, (inline_in_loops-Touches a f (a.loop_contents f) s).affected p))
  ]

  module _ (f p : ℕ) (deeper : order_of d p < order_of d f) where
    ordered_apart : f ≢ p
    ordered_apart e = omega (arith, ap (order_of d) e)

    -- The affected functions after the work on function `g`.
    touched : (g : ℕ) (s : State) → Touches g s (tried g s)
    touched g s = inline_in_loops-Touches a g (a.loop_contents g) s

    -- Once the function is done, its parent is avoided if it was affected.
    own_turn :
        (fs avoid : List ℕ) (s : State)
        → contains fs f ≡ false
        → contains (s.graph.parent_fns f) p ≡ true
        → contains s.fns_affected f ≡ false
        → contains s.fns_affected p ≡ false
        → contains (inline_in_fns a fs (avoid_after f avoid s) (tried f s).1).1.fns_affected f
          ≡ true
        → contains (inline_in_fns a fs (avoid_after f avoid s) (tried f s).1).1.fns_affected p
          ≡ false
    own_turn fs avoid s absent link no_f no_p done = elim (Bool-cases (tried f s).0) [
      | inr nothing ↦ absurd (
          ground (
            arith,
            nothing,
            absent_kept fs (avoid_after f avoid s) (tried f s).1 f absent,
            (touched f s).affected f,
          ))
      | inl inlined ↦
          avoided_kept fs (avoid_after f avoid s) (tried f s).1 p (
            rw inlined (
              ground (
                arith,
                contains-avoid_all ((tried f s).1.graph.parent_fns f) avoid p,
                (touched f s).links f p ordered_apart,
              )))
          ∙ ground (arith, (touched f s).affected p, ==_iff f p, ordered_apart)
    ]

    -- While the deeper function waits, its parent is not affected.
    inline_in_fns-apart :
        (fs avoid : List ℕ) (s : State)
        → Falls d fs
        → AreDistinct fs
        → contains (s.graph.parent_fns f) p ≡ true
        → contains s.fns_affected f ≡ false
        → contains s.fns_affected p ≡ false
        → contains (inline_in_fns a fs avoid s).1.fns_affected f ≡ true
        → contains (inline_in_fns a fs avoid s).1.fns_affected p ≡ false
    unfolding inline_in_fns
    inline_in_fns-apart [] avoid s falls distinct link no_f no_p = λ done. absurd (ground arith)
    inline_in_fns-apart (g ∷ fs) avoid s falls distinct link no_f no_p =
        elim (Bool-cases (contains avoid g)) [
          | inl skipped ↦
              rw (skipped, inline_in_fns)
                (inline_in_fns-apart fs (avoid_all (s.graph.parent_fns g) avoid) s falls.1
                  distinct.1 link no_f no_p)
          | inr taken ↦
              rw (taken, inline_in_fns)
                (elim (ℕ_discrete g f) [
                  | yes own ↦ rw own (own_turn fs avoid s (rw (← own) distinct.0) link no_f no_p)
                  | no other ↦ elim (ℕ_discrete g p) [
                    | yes early ↦ λ done. absurd (
                        ground (
                          arith,
                          done,
                          absent_kept fs (avoid_after g avoid s) (tried g s).1 f
                              (below-contains d (order_of d g) f fs falls.0 (rw early deeper)),
                          (touched g s).affected f,
                          ==_iff g f,
                        ))
                    | no apart ↦
                        inline_in_fns-apart fs (avoid_after g avoid s) (tried g s).1 falls.1
                          distinct.1 ((touched g s).links f p apart ∙ link)
                          (ground (arith, (touched g s).affected f, ==_iff g f))
                          (ground (arith, (touched g s).affected p, ==_iff g p))
                  ]
                ])
        ]

-- One run of the inlining for loop-carried dependences never changes both a function and a parent of
-- it that is less deep in the call graph: when a call in the deeper function is inlined, that parent
-- is left for a later run.
pub inline_calls_in_loop_carried_dependences-apart :
    (a : Analyses) (fns : List ℕ) (s : State) (f p : ℕ)
    → AreDistinct fns
    → order_of s.order p < order_of s.order f
    → contains (s.graph.parent_fns f) p ≡ true
    → contains s.fns_affected f ≡ false
    → contains s.fns_affected p ≡ false
    → contains (inline_calls_in_loop_carried_dependences a fns s).1.fns_affected f ≡ true
    → contains (inline_calls_in_loop_carried_dependences a fns s).1.fns_affected p ≡ false
unfolding inline_calls_in_loop_carried_dependences
inline_calls_in_loop_carried_dependences-apart a fns s f p distinct deeper link no_f no_p =
    inline_in_fns-apart a s.order f p deeper (sort_in_depth_order_fns s.order fns) [] s
      (sort_in_depth_order_fns-Falls s.order fns)
      (sort_in_depth_order_fns-AreDistinct s.order fns distinct) link no_f no_p
