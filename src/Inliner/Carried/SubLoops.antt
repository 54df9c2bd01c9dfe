-- ===== src/Inliner/Carried/SubLoops.antt =====
-- What becomes of the enabled loops.
use gino.Base.{
  ℕ, zero, suc, ◌-◌, ◌≤◌, ◌≡◌, ◌≢◌, refl, ◌∙◌, ==_iff, true, false, ◌&&◌, List, [], ◌∷◌, leb,
  length, length-append, drop, contains, contains-append, update, arith, Bool-cases, inl, inr,
  if◌then◌else◌,
}
use gino.Inliner.Inline.{State, record_inline}
use gino.Inliner.Carried.{
  Analyses, kept_entries, remove, disable_sub_loop, disable_sub_loops, is_enabled, inline_in_loops,
  avoid_all, inline_in_fns, inline_calls_in_loop_carried_dependences,
}
use gino.Inliner.Carried.Chosen.{inline_within_loop-best}
use gino.Inliner.Depth.{sort_in_depth_order_fns}

length-kept_entries : (i : ℕ) (xs : List ℕ) → length (kept_entries i xs) ≤ length xs
unfolding kept_entries
length-kept_entries i [] = omega arith
length-kept_entries i (x ∷ xs) = ground (arith, length-kept_entries i xs)

contains-kept_entries :
    (i l : ℕ) (xs : List ℕ) → i ≢ l → contains (kept_entries i xs) l ≡ contains xs l
unfolding kept_entries contains
contains-kept_entries i l [] ne = refl
contains-kept_entries i l (x ∷ xs) ne =
    ground (arith, contains-kept_entries i l xs ne, ==_iff x i, ==_iff x l)

length-drop : (n : ℕ) (xs : List ℕ) → length (drop n xs) ≡ length xs - n
length-drop zero xs = omega arith
length-drop (suc n) [] = omega arith
length-drop (suc n) (x ∷ xs) = omega (arith, length-drop n xs)

drop-contains : (n l : ℕ) (xs : List ℕ) → contains (drop n xs) l ≡ true → contains xs l ≡ true
unfolding contains
drop-contains zero l xs h = h
drop-contains (suc n) l [] h = h
drop-contains (suc n) l (x ∷ xs) h = ground (arith, drop-contains n l xs h)

-- `std::remove` does not make the vector shorter.
length-remove : (i : ℕ) (xs : List ℕ) → length (remove i xs) ≡ length xs
unfolding remove
length-remove i xs =
    let kept = kept_entries i xs in
    omega (
      arith,
      length-append kept (drop (length kept) xs),
      length-drop (length kept) xs,
      length-kept_entries i xs,
    )

contains-remove : (i l : ℕ) (xs : List ℕ) → i ≢ l → contains (remove i xs) l ≡ contains xs l
unfolding remove
contains-remove i l xs ne =
    let kept = kept_entries i xs in
    contains-append kept (drop (length kept) xs) l
    ∙ ground (arith, contains-kept_entries i l xs ne, drop-contains (length kept) l xs)

disable_sub_loops-length :
    (children to_check : List ℕ) → length (disable_sub_loops children to_check) ≡ length to_check
unfolding disable_sub_loops disable_sub_loop
disable_sub_loops-length [] to_check = refl
disable_sub_loops-length (c ∷ children) to_check =
    disable_sub_loops-length children (disable_sub_loop c to_check)
    ∙ ground (arith, length-remove c to_check)

contains-disable_sub_loops :
    (l : ℕ) (children to_check : List ℕ)
    → contains children l ≡ false
    → contains (disable_sub_loops children to_check) l ≡ contains to_check l
unfolding disable_sub_loops disable_sub_loop contains
contains-disable_sub_loops l [] to_check h = refl
contains-disable_sub_loops l (c ∷ children) to_check h =
    let other : c ≢ l = λ e. ground (arith, ==_iff c l) in
    contains-disable_sub_loops l children (disable_sub_loop c to_check) (ground arith)
    ∙ ground (arith, contains-remove c l to_check other)

module _ (a : Analyses) (l : ℕ) (apart : (k : ℕ) → contains (a.sub_loops k) l ≡ false) where
  -- Loop `l` is enabled as before, and no list of enabled loops is shorter.
  KeepsLoops : State → State → Type 0
  KeepsLoops s t =
      (f : ℕ)
      → (length (t.loops_to_check f) ≡ length (s.loops_to_check f))
        × (contains (t.loops_to_check f) l ≡ contains (s.loops_to_check f) l)

  KeepsLoops-refl : (s : State) → KeepsLoops s s
  unfolding KeepsLoops
  KeepsLoops-refl s f = (refl, refl)

  KeepsLoops-trans : (s t u : State) → KeepsLoops s t → KeepsLoops t u → KeepsLoops s u
  unfolding KeepsLoops
  KeepsLoops-trans s t u p q f = ((q f).0 ∙ (p f).0, (q f).1 ∙ (p f).1)

  record_inline-KeepsLoops :
      (f child call : ℕ) (s : State) → KeepsLoops s (record_inline a.code f child call s)
  unfolding KeepsLoops record_inline
  record_inline-KeepsLoops f child call s g = (refl, refl)

  disabled-KeepsLoops :
      (f loop : ℕ) (s : State)
      → KeepsLoops s (record s {
        loops_to_check =
            update s.loops_to_check f (disable_sub_loops (a.sub_loops loop) (s.loops_to_check f));
      })
  unfolding KeepsLoops
  disabled-KeepsLoops f loop s g = (
    ground (arith, disable_sub_loops-length (a.sub_loops loop) (s.loops_to_check f)),
    ground
        (arith, contains-disable_sub_loops l (a.sub_loops loop) (s.loops_to_check f) (apart loop)),
  )

  inline_in_loops-KeepsLoops :
      (f : ℕ) (loops : List ℕ) (s : State) → KeepsLoops s (inline_in_loops a f loops s).1
  unfolding inline_in_loops
  inline_in_loops-KeepsLoops f [] s = KeepsLoops-refl s
  inline_in_loops-KeepsLoops f (loop ∷ loops) s =
      elim (Bool-cases (is_enabled a (a.code.header (a.structure loop)) (s.loops_to_check f))) [
        | inr off ↦ rw (off, inline_in_loops) (inline_in_loops-KeepsLoops f loops s)
        | inl on ↦ elim (Bool-cases (leb 1 (length (a.sub_loops loop)) && a.is_doall loop)) [
          | inl doall ↦
              let s' = record s {
                loops_to_check =
                    update s.loops_to_check f
                      (disable_sub_loops (a.sub_loops loop) (s.loops_to_check f));
              } in
              rw (on, doall, inline_in_loops)
                (KeepsLoops-trans s s' (inline_in_loops a f loops s').1
                  (disabled-KeepsLoops f loop s) (inline_in_loops-KeepsLoops f loops s'))
          | inr other ↦ elim (inline_within_loop-best a f loop s) [
            | inl no_call ↦
                rw (on, other, no_call, inline_in_loops) (inline_in_loops-KeepsLoops f loops s)
            | inr (call, callee, done, known, inlined, few, best) ↦
                rw (on, other, done, inline_in_loops) (record_inline-KeepsLoops f callee call s)
          ]
        ]
      ]

  inline_in_fns-KeepsLoops :
      (fs avoid : List ℕ) (s : State) → KeepsLoops s (inline_in_fns a fs avoid s).1
  unfolding inline_in_fns
  inline_in_fns-KeepsLoops [] avoid s = KeepsLoops-refl s
  inline_in_fns-KeepsLoops (f ∷ fs) avoid s = elim (Bool-cases (contains avoid f)) [
    | inl avoided ↦
        rw (avoided, inline_in_fns)
          (inline_in_fns-KeepsLoops fs (avoid_all (s.graph.parent_fns f) avoid) s)
    | inr taken ↦
        let t = inline_in_loops a f (a.loop_contents f) s in
        let avoid' = if t.0 then avoid_all (t.1.graph.parent_fns f) avoid else avoid in
        rw (taken, inline_in_fns)
          (KeepsLoops-trans s t.1 (inline_in_fns a fs avoid' t.1).1
            (inline_in_loops-KeepsLoops f (a.loop_contents f) s)
            (inline_in_fns-KeepsLoops fs avoid' t.1))
  ]

-- The inliner means to disable the sub-loops of an enabled DOALL loop, but looks for them by the
-- addresses of their structures and never erases them. Let a structure be none of the objects that
-- NOELLE gives for sub-loops, as those that the inliner creates are: whatever loops are DOALL and
-- whatever calls are inlined, after the work on all functions it is among the enabled loops of the same
-- functions as before, and every list of enabled loops has the length that it had.
pub inline_calls_in_loop_carried_dependences-loops :
    (a : Analyses) (fns : List ℕ) (s : State) (f l : ℕ)
    → ((k : ℕ) → contains (a.sub_loops k) l ≡ false)
    → (length ((inline_calls_in_loop_carried_dependences a fns s).1.loops_to_check f)
        ≡ length (s.loops_to_check f))
      × (contains ((inline_calls_in_loop_carried_dependences a fns s).1.loops_to_check f) l
          ≡ contains (s.loops_to_check f) l)
unfolding inline_calls_in_loop_carried_dependences KeepsLoops
inline_calls_in_loop_carried_dependences-loops a fns s f l apart =
    inline_in_fns-KeepsLoops a l apart (sort_in_depth_order_fns s.order fns) [] s f
