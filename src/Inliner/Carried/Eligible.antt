-- ===== src/Inliner/Carried/Eligible.antt =====
-- What the tests of the search over the SCCs of a loop say of a callee.
use gino.Base.{
  suc, ◌↔◌, ◌≢◌, ==_iff, ap, subst, ℕ, ◌+◌, ◌≤◌, ◌<◌, ltb, ◌≡◌, sym, inl, inr, Bool, true, false,
  ◌&&◌, some, none, List, [], ◌∷◌, arith, Bool-cases, Option-cases, if◌then◌else◌,
}
use gino.Inliner.{DepthOrder, order_of}
use gino.Inliner.Carried.{SccNode, call_node, other_node, Analyses, may_inline}

-- The tests on a callee: it has a body and is no intrinsic, it is another function, one that is not less
-- deep, in no cycle of the call graph and without loops, and the call is in no sub-loop.
abbrev pub Passes : Analyses → DepthOrder → ℕ → ℕ → ℕ → ℕ → Type 0
Passes a d f loop call callee =
    (a.is_empty callee ≡ false)
    × (a.is_intrinsic callee ≡ false)
    × (callee ≢ f)
    × (order_of d f ≤ order_of d callee)
    × (a.is_included_in_its_sub_loops loop call ≡ false)
    × (a.does_it_belong_to_an_scc callee ≡ false)
    × (a.number_of_loops callee ≡ 0)

may_inline_iff :
    (a : Analyses) (d : DepthOrder) (f loop call callee : ℕ)
    → (may_inline a d f loop call callee ≡ true) ↔ Passes a d f loop call callee
unfolding may_inline
may_inline_iff a d f loop call callee = (
  λ e. (
    ground arith,
    ground arith,
    λ same. ground (arith, ==_iff callee f),
    ground arith,
    ground arith,
    ground arith,
    ground arith,
  ),
  λ h. ground (arith, h.0, h.1, h.2, h.3, h.4, h.5, h.6, ==_iff callee f),
)

-- A call of the node can be chosen: its callee passes the tests and is smaller than the loop.
abbrev pub Eligible : Analyses → DepthOrder → ℕ → ℕ → SccNode → Type 0
Eligible a d f loop other_node = ⊥
Eligible a d f loop (call_node call edges) =
    (callee : ℕ) × (a.code.called_function call ≡ some callee)
    × Passes a d f loop call callee
    × (a.code.static_instructions callee < a.loop_static_instructions loop)

-- The nodes that are calls of known functions that pass the tests, each once.
pub data Counts (a : Analyses) (d : DepthOrder) (f loop : ℕ) : List SccNode → ℕ → Type 0 where
  no_nodes : Counts a d f loop [] 0
  passing :
      (call callee : ℕ) (edges : List Bool) (ns : List SccNode) (n : ℕ)
      → a.code.called_function call ≡ some callee
      → Passes a d f loop call callee
      → Counts a d f loop ns n
      → Counts a d f loop (call_node call edges ∷ ns) (suc n)
  hidden_callee :
      (call : ℕ) (edges : List Bool) (ns : List SccNode) (n : ℕ)
      → a.code.called_function call ≡ none
      → Counts a d f loop ns n
      → Counts a d f loop (call_node call edges ∷ ns) n
  failing :
      (call callee : ℕ) (edges : List Bool) (ns : List SccNode) (n : ℕ)
      → a.code.called_function call ≡ some callee
      → ¬ Passes a d f loop call callee
      → Counts a d f loop ns n
      → Counts a d f loop (call_node call edges ∷ ns) n
  no_call :
      (ns : List SccNode) (n : ℕ) → Counts a d f loop ns n → Counts a d f loop (other_node ∷ ns) n

module _ (a : Analyses) (d : DepthOrder) (f loop : ℕ) where
  -- A call of a known function that passes all tests.
  abbrev is_candidate : SccNode → Bool
  is_candidate other_node = false
  is_candidate (call_node call edges) = elim (a.code.called_function call) [
    | none ↦ false
    | some callee ↦ may_inline a d f loop call callee
  ]

  -- Its callee is smaller than the loop.
  abbrev pub is_small : SccNode → Bool
  is_small other_node = false
  is_small (call_node call edges) = elim (a.code.called_function call) [
    | none ↦ false
    | some callee ↦
        may_inline a d f loop call callee
        && ltb (a.code.static_instructions callee) (a.loop_static_instructions loop)
  ]

  abbrev pub count_candidates : List SccNode → ℕ
  count_candidates [] = 0
  count_candidates (n ∷ ns) = (if is_candidate n then 1 else 0) + count_candidates ns

  pub is_small_iff : (n : SccNode) → (is_small n ≡ true) ↔ Eligible a d f loop n
  is_small_iff other_node = (λ e. absurd (ground arith), λ e. elim e [ ])
  is_small_iff (call_node call edges) = elim (Option-cases (a.code.called_function call)) [
    | inl hidden ↦ (λ e. absurd (ground (arith, hidden)), λ e. absurd (ground (arith, hidden, e.1)))
    | inr (callee, known) ↦ (
      λ e. (
        callee,
        known,
        (may_inline_iff a d f loop call callee).0 (ground (arith, known)),
        ground (arith, known),
      ),
      λ (c, known', passes, small).
          let same : c ≡ callee = cc (known, known') in
          let passed =
            (may_inline_iff a d f loop call callee).1
              (subst (λ k. Passes a d f loop call k) same passes) in
          ground (arith, known, passed, small, ap a.code.static_instructions same),
    )
  ]

  pub count_candidates-Counts : (ns : List SccNode) → Counts a d f loop ns (count_candidates ns)
  count_candidates-Counts [] = no_nodes
  count_candidates-Counts (other_node ∷ ns) =
      let e : count_candidates (other_node ∷ ns) ≡ count_candidates ns = omega arith in
      subst (Counts a d f loop (other_node ∷ ns)) (sym e)
        (no_call ns _ (count_candidates-Counts ns))
  count_candidates-Counts (call_node call edges ∷ ns) =
      elim (Option-cases (a.code.called_function call)) [
        | inl hidden ↦
            let e : count_candidates (call_node call edges ∷ ns) ≡ count_candidates ns =
              ground (arith, hidden) in
            subst (Counts a d f loop (call_node call edges ∷ ns)) (sym e)
              (hidden_callee call edges ns _ hidden (count_candidates-Counts ns))
        | inr (callee, known) ↦ elim (Bool-cases (may_inline a d f loop call callee)) [
          | inl passed ↦
              let e : count_candidates (call_node call edges ∷ ns) ≡ suc (count_candidates ns) =
                ground (arith, known, passed) in
              subst (Counts a d f loop (call_node call edges ∷ ns)) (sym e) (
                passing call callee edges ns _ known
                  ((may_inline_iff a d f loop call callee).0 passed) (count_candidates-Counts ns))
          | inr failed ↦
              let e : count_candidates (call_node call edges ∷ ns) ≡ count_candidates ns =
                ground (arith, known, failed) in
              subst (Counts a d f loop (call_node call edges ∷ ns)) (sym e) (
                failing call callee edges ns _ known
                  (λ p. ground (arith, failed, (may_inline_iff a d f loop call callee).1 p))
                  (count_candidates-Counts ns))
        ]
      ]
