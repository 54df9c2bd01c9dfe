-- ===== src/Inliner/Hoist/Ends.antt =====
-- The while loop of the hoisting ends: each round goes on by one function, and each parent is inserted
-- once.
use gino.Base.{
  ℕ, zero, suc, ◌+◌, ◌≤◌, ◌≡◌, sym, ◌∙◌, inl, inr, true, false, ◌&&◌, ◌||◌, none, Option-cases,
  Bool-cases, List, [], ◌∷◌, contains, get_elem?, get_elem?_past, length, count_unvisited,
  count_unvisited-insert, count_unvisited-le, arith, ℕ_discrete, subst, All, All-contains,
}
use gino.Inliner.Adjust.Mirror.{other_links}
use gino.Inliner.Depth.{sort_in_depth_order_fns}
use gino.Inliner.Depth.Sorted.{length-sort_in_depth_order_fns}
use gino.Inliner.Inline.{
  State, Code, record_inline, find_index, inline_function_call, inline_function_call-cases,
}
use gino.Inliner.Hoist.Safe.{record_parent-state}
use gino.Inliner.Hoist.{
  Hoist, Tried, as_set, calls_fn, try_calls, is_tried, record_parent, try_parent, try_parents,
  hoist_fn, hoist, start_hoist, inline_fns_of_loops_to_cg_root,
}

module _ (code : Code) (fns : List ℕ) where
  -- The parents are functions of the program.
  abbrev pub AreWithin : State → Type 0
  AreWithin s = (c p : ℕ) → contains (s.graph.parent_fns c) p ≡ true → contains fns p ≡ true

  record_inline-AreWithin :
      (parent child call : ℕ) (s : State)
      → contains fns parent ≡ true
      → AreWithin s
      → AreWithin (record_inline code parent child call s)
  unfolding record_inline
  record_inline-AreWithin parent child call s m w c p h = elim (ℕ_discrete parent p) [
    | yes own ↦ subst (λ q. contains fns q ≡ true) own m
    | no other ↦ w c p (
        sym (
          other_links parent child (find_index call (s.graph.ordered_calls parent)) s.graph c p
            other)
        ∙ h)
  ]

  inline_function_call-AreWithin :
      (parent child call : ℕ) (s : State)
      → contains fns parent ≡ true
      → AreWithin s
      → AreWithin (inline_function_call code parent child call s).1
  inline_function_call-AreWithin parent child call s m w =
      elim (inline_function_call-cases code parent child call s) [
        | inr refused ↦ subst (λ r. AreWithin r.1) (sym refused) w
        | inl (inlined, done) ↦
            subst (λ r. AreWithin r.1) (sym done) (record_inline-AreWithin parent child call s m w)
      ]

  try_calls-AreWithin :
      (parent child : ℕ) (calls : List ℕ) (t : Tried)
      → contains fns parent ≡ true
      → AreWithin t.state
      → AreWithin (try_calls code parent child calls t).state
  unfolding try_calls
  try_calls-AreWithin parent child [] t m w = w
  try_calls-AreWithin parent child (call ∷ calls) t m w =
      let r = inline_function_call code parent child call t.state in
      let w' = inline_function_call-AreWithin parent child call t.state m w in
      elim (Bool-cases (calls_fn code child call)) [
        | inr other ↦ rw (other, try_calls) (try_calls-AreWithin parent child calls t m w)
        | inl own ↦ elim (Bool-cases (t.inlined || r.0)) [
          | inl stop ↦ rw (own, stop, try_calls) w'
          | inr more ↦
              rw (own, more, try_calls)
                (try_calls-AreWithin parent child calls
                  (record { state = r.1; inlined = false; inlined_calls = t.inlined_calls && r.0 })
                  m w')
        ]
      ]

  -- The functions of the list, and those that may still be inserted.
  abbrev pub work : Hoist → ℕ
  work h = length h.ordered_fns + count_unvisited h.fns_will_check fns

  -- What a step keeps.
  record Keeps (h t : Hoist) : Type 0 where
    within : AreWithin t.state
    bound : work t ≤ work h

  record_parent-Keeps :
      (parent : ℕ) (t : Tried) (h : Hoist)
      → contains fns parent ≡ true
      → AreWithin t.state
      → Keeps h (record_parent parent t h)
  unfolding record_parent
  record_parent-Keeps parent t h m w = record {
    within = subst AreWithin (sym (record_parent-state parent t h)) w;
    bound = ground (arith, count_unvisited-insert h.fns_will_check parent fns);
  }

  Keeps-trans : (h t u : Hoist) → Keeps h t → Keeps t u → Keeps h u
  Keeps-trans h t u k l = record { within = l.within; bound = omega (arith, k.bound, l.bound) }

  Keeps-refl : (h : Hoist) → AreWithin h.state → Keeps h h
  Keeps-refl h w = record { within = w; bound = omega arith }

  try_parent-Keeps :
      (child parent : ℕ) (h : Hoist)
      → contains fns parent ≡ true
      → AreWithin h.state
      → Keeps h (try_parent code child parent h)
  unfolding try_parent
  try_parent-Keeps child parent h m w = elim (Bool-cases (is_tried child parent h.state)) [
    | inr refused ↦ rw (refused, try_parent) (Keeps-refl h w)
    | inl tried ↦
        let t : Tried = record { state = h.state; inlined = h.inlined; inlined_calls = true } in
        let calls = as_set (h.state.graph.ordered_calls parent) in
        rw (tried, try_parent)
          (record_parent-Keeps parent (try_calls code parent child calls t) h m
            (try_calls-AreWithin parent child calls t m w))
  ]

  try_parents-Keeps :
      (child : ℕ) (parents : List ℕ) (h : Hoist)
      → All (λ p. contains fns p ≡ true) parents
      → AreWithin h.state
      → Keeps h (try_parents code child parents h)
  unfolding try_parents
  try_parents-Keeps child [] h a w = Keeps-refl h w
  try_parents-Keeps child (parent ∷ parents) h a w =
      let h' = try_parent code child parent h in
      let one = try_parent-Keeps child parent h a.0 w in
      Keeps-trans h h' (try_parents code child parents h') one
        (try_parents-Keeps child parents h' a.1 one.within)

  hoist_fn-Keeps : (child : ℕ) (h : Hoist) → AreWithin h.state → Keeps h (hoist_fn code child h)
  unfolding hoist_fn
  hoist_fn-Keeps child h w =
      let start = record h { inlined_in_parents = true } in
      let parents = h.state.graph.parent_fns child in
      let k =
        try_parents-Keeps child parents start
          (All-contains (λ p. contains fns p ≡ true) parents (w child)) w in
      elim (Bool-cases (contains h.fns_to_avoid child)) [
        | inl avoided ↦ rw (avoided, hoist_fn) (record { within = w; bound = omega arith })
        | inr taken ↦ elim (Bool-cases (try_parents code child parents start).inlined_in_parents) [
          | inr left ↦ rw (taken, left, hoist_fn) (record { within = k.within; bound = k.bound })
          | inl all ↦ rw (taken, all, hoist_fn) (record { within = k.within; bound = k.bound })
        ]
      ]

  hoist-ends :
      (fuel i : ℕ) (h : Hoist)
      → AreWithin h.state
      → work h ≤ fuel + i
      → get_elem? (hoist code fuel i h).1.ordered_fns (hoist code fuel i h).0 ≡ none
  unfolding hoist
  hoist-ends zero i h w b = get_elem?_past h.ordered_fns i (omega arith)
  hoist-ends (suc fuel) i h w b = elim (Option-cases (get_elem? h.ordered_fns i)) [
    | inl over ↦ rw (over, hoist) over
    | inr (child, here) ↦
        let k = hoist_fn-Keeps child h w in
        rw (here, hoist)
          (hoist-ends fuel (suc i) (hoist_fn code child h) k.within (omega (arith, k.bound)))
  ]

-- If the parents of all functions are functions of the program, then the while loop of the hoisting
-- ends by its own test within as many rounds as there are functions to check and functions of the
-- program: the index that it has reached is past the list, whatever was inserted on the way.
pub inline_fns_of_loops_to_cg_root-ends :
    (code : Code) (fns : List ℕ) (s : State)
    → ((c p : ℕ) → contains (s.graph.parent_fns c) p ≡ true → contains fns p ≡ true)
    → get_elem?
        (inline_fns_of_loops_to_cg_root code (length fns) s).1.ordered_fns
        (inline_fns_of_loops_to_cg_root code (length fns) s).0
      ≡ none
unfolding inline_fns_of_loops_to_cg_root start_hoist
inline_fns_of_loops_to_cg_root-ends code fns s within =
    hoist-ends code fns (length s.fns_to_check + length fns) 0 (start_hoist s) within (
      omega (
        arith,
        length-sort_in_depth_order_fns s.order s.fns_to_check,
        count_unvisited-le (as_set (sort_in_depth_order_fns s.order s.fns_to_check)) fns,
      ))
