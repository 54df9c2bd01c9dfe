-- ===== src/Inliner/Carried/Chosen.antt =====
-- Which call the search over the SCCs of a loop finds.
use gino.Base.{
  ℕ, ◌+◌, ◌≤◌, ◌<◌, ltb, leb, ◌==◌, ◌≡◌, refl, sym, ◌∙◌, ◌⊎◌, inl, inr, true, false, ◌&&◌, Option,
  some, none, List, [], ◌∷◌, ◌++◌, length, All, Any, All-map, Any-map, All-append, Any-left,
  Any-right, All-Any, arith, Bool-cases, Option-cases, if◌then◌else◌,
}
use gino.Inliner.{DepthOrder}
use gino.Inliner.Inline.{inline_function_call-cases, State, is_inlined, record_inline}
use gino.Inliner.Carried.{
  SccNode, call_node, other_node, Analyses, Choice, count_memory_edges, consider, check_node,
  check_nodes, check_sccs, choose_call, inline_within_loop, no_choice,
}
use gino.Inliner.Carried.Eligible.{
  Eligible, Counts, is_small, is_small_iff, count_candidates, count_candidates-Counts,
}

abbrev pub call_of : SccNode → Option ℕ
call_of other_node = none
call_of (call_node call edges) = some call

abbrev pub memory_edges : SccNode → ℕ
memory_edges other_node = 0
memory_edges (call_node call edges) = count_memory_edges edges

-- The nodes of the SCCs with more than one instruction.
abbrev pub considered : List (List SccNode) → List SccNode
considered [] = []
considered (scc ∷ sccs) = if length scc == 1 then considered sccs else scc ++ considered sccs

module _ (a : Analyses) (d : DepthOrder) (f loop : ℕ) where
  abbrev pub Bounds : ℕ → SccNode → Type 0
  Bounds m n = is_small a d f loop n ≡ true → memory_edges n ≤ m

  abbrev pub Best : Choice → SccNode → Type 0
  Best c n =
      (is_small a d f loop n ≡ true)
      × (call_of n ≡ c.inline_call)
      × (memory_edges n ≡ c.max_mem_edges)
      × (0 < c.max_mem_edges)

  abbrev Same : Choice → Choice → Type 0
  Same c r = (r.inline_call ≡ c.inline_call) × (r.max_mem_edges ≡ c.max_mem_edges)

  count_candidates-append :
      (xs ys : List SccNode)
      → count_candidates a d f loop (xs ++ ys)
        ≡ count_candidates a d f loop xs + count_candidates a d f loop ys
  count_candidates-append [] ys = omega arith
  count_candidates-append (x ∷ xs) ys = omega (arith, count_candidates-append xs ys)

  -- What the scan of the nodes makes of a choice.
  record Chose (ns : List SccNode) (c r : Choice) : Type 0 where
    grows : c.max_mem_edges ≤ r.max_mem_edges
    bounds : All (Bounds r.max_mem_edges) ns
    origin : Same c r ⊎ Any (Best r) ns
    counted :
        r.number_of_function_calls_to_inline
        ≡ c.number_of_function_calls_to_inline + count_candidates a d f loop ns

  check_node-Chose : (n : SccNode) (c : Choice) → Chose (n ∷ []) c (check_node a d f loop n c)
  unfolding check_node consider
  check_node-Chose other_node c = record {
    grows = omega arith;
    bounds = (λ h. absurd (ground arith), tt);
    origin = inl (refl, refl);
    counted = omega arith;
  }
  check_node-Chose (call_node call edges) c = record {
    grows = ground arith;
    bounds = (λ h. ground arith, tt);
    origin =
        elim (Bool-cases (
          is_small a d f loop (call_node call edges)
          && ltb c.max_mem_edges (count_memory_edges edges))) [
            | inl better ↦ inr (inl (ground arith))
            | inr worse ↦ inl (ground arith)
          ];
    counted = ground arith;
  }

  module _ {c r t : Choice} where
    join : (xs ys : List SccNode) → Chose xs c r → Chose ys r t → Chose (xs ++ ys) c t
    join xs ys p q = record {
      grows = omega (arith, p.grows, q.grows);
      bounds =
          All-append (Bounds t.max_mem_edges) xs ys
            (All-map xs (λ n b h. omega (arith, b h, q.grows)) p.bounds) q.bounds;
      origin = elim q.origin [
        | inl same ↦ elim p.origin [
          | inl same' ↦ inl (same.0 ∙ same'.0, same.1 ∙ same'.1)
          | inr best ↦ inr (
              Any-left (Best t) xs ys (
                Any-map xs
                  (λ n b. (b.0, b.1 ∙ sym same.0, b.2 ∙ sym same.1, omega (arith, b.3, same.1)))
                  best))
        ]
        | inr best ↦ inr (Any-right (Best t) xs ys best)
      ];
      counted = omega (arith, p.counted, q.counted, count_candidates-append xs ys);
    }

  check_nodes-Chose : (ns : List SccNode) (c : Choice) → Chose ns c (check_nodes a d f loop ns c)
  unfolding check_nodes
  check_nodes-Chose [] c = record {
    grows = omega arith;
    bounds = tt;
    origin = inl (refl, refl);
    counted = omega arith;
  }
  check_nodes-Chose (n ∷ ns) c =
      join (n ∷ []) ns (check_node-Chose n c) (check_nodes-Chose ns (check_node a d f loop n c))

  check_sccs-Chose :
      (sccs : List (List SccNode)) (c : Choice)
      → Chose (considered sccs) c (check_sccs a d f loop sccs c)
  unfolding check_sccs
  check_sccs-Chose [] c = check_nodes-Chose [] c
  check_sccs-Chose (scc ∷ sccs) c = elim (Bool-cases (length scc == 1)) [
    | inl single ↦ rw (single, check_sccs) (check_sccs-Chose sccs c)
    | inr several ↦
        rw (several, check_sccs)
          (join scc (considered sccs) (check_nodes-Chose scc c)
            (check_sccs-Chose sccs (check_nodes a d f loop scc c)))
  ]

  abbrev nodes : List SccNode
  nodes = considered (a.sccs_that_block_doall loop)

  -- A chosen call is one with the most memory dependences.
  chosen_best :
      (call : ℕ)
      → (choose_call a d f loop).inline_call ≡ some call
      → (best : ℕ) × (0 < best)
        × Any
            (λ n.
              (is_small a d f loop n ≡ true) × (call_of n ≡ some call) × (memory_edges n ≡ best))
            nodes
        × All (Bounds best) nodes
  unfolding choose_call
  chosen_best call chosen =
      let r = check_sccs-Chose (a.sccs_that_block_doall loop) no_choice in
      elim r.origin [
        | inl same ↦ absurd (ground (arith, same.0))
        | inr best ↦
            let positive = All-Any nodes r.bounds best in
            (
              (choose_call a d f loop).max_mem_edges,
              positive.2.3,
              Any-map nodes (λ n b. (b.0, b.1 ∙ chosen, b.2)) best,
              r.bounds,
            )
      ]

-- Whenever a call of a loop is inlined, it is in any of the SCCs that block DOALL, those of one
-- instruction aside, and its callee is smaller than the loop, has a body and no loops, is no intrinsic
-- and another function, not less deep and in no cycle of the call graph; the call is in no sub-loop and
-- in at least one memory dependence; no other such call is in more; less than 10 calls pass these tests
-- but the size; and the guards of the inlining hold. Otherwise the state does not change.
pub inline_within_loop-best :
    (a : Analyses) (f loop : ℕ) (s : State)
    → (inline_within_loop a f loop s ≡ (false, s))
      ⊎ ((call callee : ℕ) × (inline_within_loop a f loop s
            ≡ (true, record_inline a.code f callee call s))
          × (a.code.called_function call ≡ some callee)
          × (is_inlined a.code f callee call s ≡ true)
          × ((k : ℕ) × Counts a s.order f loop (considered (a.sccs_that_block_doall loop)) k
              × (k < 10))
          × ((best : ℕ) × (0 < best)
              × Any
                  (λ n.
                    Eligible a s.order f loop n × (call_of n ≡ some call) × (memory_edges n ≡ best))
                  (considered (a.sccs_that_block_doall loop))
              × All
                  (λ n. Eligible a s.order f loop n → memory_edges n ≤ best)
                  (considered (a.sccs_that_block_doall loop))))
unfolding inline_within_loop choose_call
inline_within_loop-best a f loop s = elim (Option-cases c.inline_call) [
  | inl nothing ↦ inl (rw (nothing, inline_within_loop) refl)
  | inr (call, chosen) ↦ elim (Bool-cases (leb 10 c.number_of_function_calls_to_inline)) [
    | inl too_many ↦ inl (ground arith)
    | inr few ↦ elim (Option-cases (a.code.called_function call)) [
      | inl unknown ↦ inl (ground arith)
      | inr (callee, known) ↦ elim (inline_function_call-cases a.code f callee call s) [
        | inr refused ↦ inl (ground arith)
        | inl (inlined, done) ↦ inr (
          call,
          callee,
          ground (arith, done),
          known,
          inlined,
          (
            count_candidates a s.order f loop nodes_of,
            count_candidates-Counts a s.order f loop nodes_of,
            ground (arith, scanned.counted),
          ),
          described call chosen,
        )
      ]
    ]
  ]
]
  where
    nodes_of : List SccNode
    nodes_of = considered (a.sccs_that_block_doall loop)

    described :
        (call : ℕ)
        → (choose_call a s.order f loop).inline_call ≡ some call
        → (best : ℕ) × (0 < best)
          × Any
              (λ n. Eligible a s.order f loop n × (call_of n ≡ some call) × (memory_edges n ≡ best))
              nodes_of
          × All (λ n. Eligible a s.order f loop n → memory_edges n ≤ best) nodes_of
    described call chosen =
        let (best, positive, some_node, bound) = chosen_best a s.order f loop call chosen in
        (
          best,
          positive,
          Any-map nodes_of (λ n b. ((is_small_iff a s.order f loop n).0 b.0, b.1, b.2)) some_node,
          All-map nodes_of (λ n b e. b ((is_small_iff a s.order f loop n).1 e)) bound,
        )

    c : Choice
    c = choose_call a s.order f loop

    scanned :
        Chose a s.order f loop
          (considered (a.sccs_that_block_doall loop))
          no_choice
          (check_sccs a s.order f loop (a.sccs_that_block_doall loop) no_choice)
    scanned = check_sccs-Chose a s.order f loop (a.sccs_that_block_doall loop) no_choice
