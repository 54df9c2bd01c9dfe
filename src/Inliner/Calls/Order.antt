-- ===== src/Inliner/Calls/Order.antt =====
-- The calls are collected in the order of the program.
use gino.Base.{
  ℕ, ◌+◌, ◌≡◌, refl, sym, ap, ◌∙◌, ◌==◌, ==_iff, Bool, true, false, ◌&&◌, ◌||◌, Option, none, some,
  Option-cases, List, [], ◌∷◌, ◌++◌, map, contains, contains-set_insert, All, arith, Bool-cases,
  inl, inr, if◌then◌else◌,
}
use gino.Inliner.Calls.{
  Instruction, call_inst, other_inst, BasicBlock, scan_block, collect_block, is_linked,
  collect_unordered_calls, calls_of_block, order_calls, callees_of, collect_fn_calls_and_called,
}

-- The instructions of a function, in its order.
abbrev pub instructions_of : List BasicBlock → List Instruction
instructions_of [] = []
instructions_of (b ∷ bs) = b.instructions ++ instructions_of bs

-- Every call of the block has it as its parent.
abbrev pub AreIn : (ℕ → ℕ) → ℕ → List Instruction → Type 0
AreIn get_parent b [] = Unit
AreIn get_parent b (other_inst ∷ is) = AreIn get_parent b is
AreIn get_parent b (call_inst call ∷ is) = (get_parent call ≡ b) × AreIn get_parent b is

abbrev pub count_call : ℕ → List Instruction → ℕ
count_call call [] = 0
count_call call (other_inst ∷ is) = count_call call is
count_call call (call_inst c ∷ is) = (if c == call then 1 else 0) + count_call call is

-- The calls stand once, in their block.
abbrev pub IsPlaced : (ℕ → ℕ) → List ℕ → BasicBlock → Type 0
IsPlaced get_parent calls b =
    AreIn get_parent b.id b.instructions
    × All (λ c. get_parent c ≡ b.id → count_call c b.instructions ≡ 1) calls

scan_block-append :
    (calls : List ℕ) (is js : List Instruction)
    → scan_block calls (is ++ js) ≡ scan_block calls is ++ scan_block calls js
unfolding scan_block
scan_block-append calls [] js = refl
scan_block-append calls (other_inst ∷ is) js = scan_block-append calls is js
scan_block-append calls (call_inst c ∷ is) js = ground (arith, scan_block-append calls is js)

module _ (get_parent : ℕ → ℕ) where
  contains-calls_of_block :
      (calls : List ℕ) (b x : ℕ)
      → contains (calls_of_block get_parent calls b) x ≡ (contains calls x && get_parent x == b)
  unfolding calls_of_block contains
  contains-calls_of_block [] b x = refl
  contains-calls_of_block (c ∷ calls) b x =
      ground (arith, contains-calls_of_block calls b x, ==_iff c x)

  -- Within the block its own calls are found like all.
  scan_own :
      (calls : List ℕ) (b : ℕ) (is : List Instruction)
      → AreIn get_parent b is
      → scan_block (calls_of_block get_parent calls b) is ≡ scan_block calls is
  unfolding scan_block
  scan_own calls b [] a = refl
  scan_own calls b (other_inst ∷ is) a = scan_own calls b is a
  scan_own calls b (call_inst c ∷ is) a =
      ground (arith, scan_own calls b is a.1, contains-calls_of_block calls b c, a.0)

  placed_own :
      (calls : List ℕ) (b : BasicBlock)
      → All (λ c. get_parent c ≡ b.id → count_call c b.instructions ≡ 1) calls
      → All (λ c. count_call c b.instructions ≡ 1) (calls_of_block get_parent calls b.id)
  unfolding calls_of_block
  placed_own [] b a = tt
  placed_own (c ∷ calls) b a = elim (Bool-cases (get_parent c == b.id)) [
    | inl own ↦
        rw (own, calls_of_block) (a.0 ((==_iff (get_parent c) b.id).0 own), placed_own calls b a.1)
    | inr other ↦ rw (other, calls_of_block) (placed_own calls b a.1)
  ]

scan_none : (is : List Instruction) → scan_block [] is ≡ []
unfolding scan_block contains
scan_none [] = refl
scan_none (other_inst ∷ is) = scan_none is
scan_none (call_inst c ∷ is) = scan_none is

scan_absent : (c : ℕ) (is : List Instruction) → count_call c is ≡ 0 → scan_block (c ∷ []) is ≡ []
unfolding scan_block contains
scan_absent c [] h = refl
scan_absent c (other_inst ∷ is) h = scan_absent c is h
scan_absent c (call_inst d ∷ is) h = ground (arith, scan_absent c is, ==_iff c d, ==_iff d c)

scan_single :
    (c : ℕ) (is : List Instruction) → count_call c is ≡ 1 → scan_block (c ∷ []) is ≡ c ∷ []
unfolding scan_block contains
scan_single c [] h = absurd (omega arith)
scan_single c (other_inst ∷ is) h = scan_single c is h
scan_single c (call_inst d ∷ is) h =
    ground (arith, scan_single c is, scan_absent c is, ==_iff c d, ==_iff d c)

-- The shortcuts for a block with no call or one give what the scan gives.
collect_block-scan :
    (calls : List ℕ) (is : List Instruction)
    → All (λ c. count_call c is ≡ 1) calls
    → collect_block calls is ≡ scan_block calls is
unfolding collect_block
collect_block-scan [] is a = sym (scan_none is)
collect_block-scan (c ∷ []) is a = sym (scan_single c is a.0)
collect_block-scan (c ∷ c' ∷ calls) is a = refl

order_calls-scan :
    (get_parent : ℕ → ℕ) (calls : List ℕ) (blocks : List BasicBlock)
    → All (IsPlaced get_parent calls) blocks
    → order_calls get_parent calls blocks ≡ scan_block calls (instructions_of blocks)
unfolding order_calls
order_calls-scan get_parent calls [] a = refl
order_calls-scan get_parent calls (b ∷ bs) a =
    ap (λ ys. ys ++ order_calls get_parent calls bs)
      (collect_block-scan (calls_of_block get_parent calls b.id) b.instructions
          (placed_own get_parent calls b a.0.1)
        ∙ scan_own get_parent calls b.id b.instructions a.0.0)
    ∙ ap (λ ys. scan_block calls b.instructions ++ ys) (order_calls-scan get_parent calls bs a.1)
    ∙ sym (scan_block-append calls b.instructions (instructions_of bs))

abbrev pub is_recorded : List (Option ℕ) → ℕ → Bool
is_recorded [] x = false
is_recorded (none ∷ records) x = is_recorded records x
is_recorded (some call ∷ records) x = call == x || is_recorded records x

module _ (called_function : ℕ → Option ℕ) (is_empty : ℕ → Bool) where
  contains-collect_unordered_calls :
      (records : List (Option ℕ)) (x : ℕ)
      → contains (collect_unordered_calls called_function is_empty records) x
        ≡ (is_recorded records x && is_linked called_function is_empty x)
  unfolding collect_unordered_calls contains
  contains-collect_unordered_calls [] x = refl
  contains-collect_unordered_calls (none ∷ records) x = contains-collect_unordered_calls records x
  contains-collect_unordered_calls (some call ∷ records) x =
      let rest = collect_unordered_calls called_function is_empty records in
      ground (
        arith,
        contains-collect_unordered_calls records x,
        contains-set_insert call rest x,
        ==_iff call x,
      )

  linked_callee :
      (c : ℕ) → is_linked called_function is_empty c ≡ true → (f : ℕ) × (called_function c ≡ some f)
  unfolding is_linked
  linked_callee c h = elim (Option-cases (called_function c)) [
    | inl unknown ↦ absurd (ground arith)
    | inr known ↦ known
  ]

  -- Every scanned call has a callee.
  scanned_callees :
      (calls : List ℕ) (is : List Instruction)
      → ((x : ℕ) → contains calls x ≡ true → is_linked called_function is_empty x ≡ true)
      → map some (callees_of called_function (scan_block calls is))
        ≡ map called_function (scan_block calls is)
  unfolding callees_of scan_block
  scanned_callees calls [] linked = refl
  scanned_callees calls (other_inst ∷ is) linked = scanned_callees calls is linked
  scanned_callees calls (call_inst c ∷ is) linked = elim (Bool-cases (contains calls c)) [
    | inr other ↦ rw (other, scan_block) (scanned_callees calls is linked)
    | inl own ↦
        let (f, known) = linked_callee c (linked c own) in
        rw (own, scan_block) (ground (arith, scanned_callees calls is linked))
  ]

-- If every call of a block has it as its parent, and every recorded call stands exactly once in its
-- block, then the collected calls are the scan of all instructions of the function in their order for
-- the recorded calls, which are the direct calls of functions with a body, and the list of callees has
-- the callee of each of them at its place.
pub collect_fn_calls_and_called-in_order :
    (called_function : ℕ → Option ℕ) (is_empty : ℕ → Bool) (get_parent : ℕ → ℕ)
    (records : List (Option ℕ)) (blocks : List BasicBlock)
    → All (IsPlaced get_parent (collect_unordered_calls called_function is_empty records)) blocks
    → ((collect_fn_calls_and_called called_function is_empty get_parent records blocks).0
        ≡ scan_block
            (collect_unordered_calls called_function is_empty records)
            (instructions_of blocks))
      × ((x : ℕ)
          → contains (collect_unordered_calls called_function is_empty records) x
            ≡ (is_recorded records x && is_linked called_function is_empty x))
      × (map some (collect_fn_calls_and_called called_function is_empty get_parent records blocks).1
          ≡ map called_function
              (collect_fn_calls_and_called called_function is_empty get_parent records blocks).0)
unfolding collect_fn_calls_and_called
collect_fn_calls_and_called-in_order called_function is_empty get_parent records blocks placed =
    let calls = collect_unordered_calls called_function is_empty records in
    let in_order = order_calls-scan get_parent calls blocks placed in
    (
      in_order,
      contains-collect_unordered_calls called_function is_empty records,
      rw in_order (
          scanned_callees called_function is_empty calls (instructions_of blocks) (λ x h.
            ground (arith, contains-collect_unordered_calls called_function is_empty records x))),
    )
