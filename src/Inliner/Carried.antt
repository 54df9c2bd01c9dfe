-- ===== src/Inliner/Carried.antt =====
-- Inliner_loopCarried.cpp (src/core/inliner/src): the calls in loop-carried data dependences.
pub mod Chosen
pub mod Eligible
pub mod Touched
pub mod Apart
pub mod SubLoops
mod Tests
use gino.Base.{
  ℕ, suc, ltb, leb, ◌==◌, Bool, true, false, not, ◌&&◌, ◌||◌, Option, some, none, List, [], ◌∷◌,
  ◌++◌, length, drop, contains, set_insert, update, if◌then◌else◌,
}
use gino.Inliner.{FnGraph, DepthOrder, order_of}
use gino.Inliner.Depth.{sort_in_depth_order_fns}
use gino.Inliner.Inline.{State, Code, inline_function_call}

-- A node of an SCC: a call with its edges, each told whether it is a memory dependence, or another
-- instruction.
pub data SccNode : Type 0 where
  call_node : ℕ → List Bool → SccNode
  other_node : SccNode

-- What NOELLE and LLVM tell.
pub record Analyses : Type 0 where
  pub code : Code
  pub is_empty : ℕ → Bool
  pub is_intrinsic : ℕ → Bool
  pub does_it_belong_to_an_scc : ℕ → Bool
  pub number_of_loops : ℕ → ℕ
  pub loop_contents : ℕ → List ℕ
  pub structure : ℕ → ℕ
  pub sub_loops : ℕ → List ℕ
  pub is_included_in_its_sub_loops : ℕ → ℕ → Bool
  pub loop_static_instructions : ℕ → ℕ
  pub sccs_that_block_doall : ℕ → List (List SccNode)
  pub is_doall : ℕ → Bool

-- The locals of the search for a call.
pub record Choice : Type 0 where
  pub max_mem_edges : ℕ
  pub number_of_function_calls_to_inline : ℕ
  pub inline_call : Option ℕ

abbrev pub no_choice : Choice
no_choice = record { max_mem_edges = 0; number_of_function_calls_to_inline = 0; inline_call = none }

unfoldable pub count_memory_edges : List Bool → ℕ
count_memory_edges [] = 0
count_memory_edges (true ∷ edges) = suc (count_memory_edges edges)
count_memory_edges (false ∷ edges) = count_memory_edges edges

module _ (a : Analyses) (d : DepthOrder) (f loop : ℕ) where
  -- The tests on a callee whose function is known.
  unfoldable pub may_inline : ℕ → ℕ → Bool
  may_inline call callee =
      not (a.is_empty callee)
      && (not (a.is_intrinsic callee)
          && (not (callee == f)
              && (not (ltb (order_of d callee) (order_of d f))
                  && (not (a.is_included_in_its_sub_loops loop call)
                      && (not (a.does_it_belong_to_an_scc callee)
                          && not (ltb 0 (a.number_of_loops callee)))))))

  unfoldable pub consider : ℕ → ℕ → List Bool → Choice → Choice
  unfolding count_memory_edges
  consider call callee edges c =
      let counted = record c {
        number_of_function_calls_to_inline = suc c.number_of_function_calls_to_inline;
      } in
      if ltb c.max_mem_edges (count_memory_edges edges)
        && ltb (a.code.static_instructions callee) (a.loop_static_instructions loop)
      then record counted { max_mem_edges = count_memory_edges edges; inline_call = some call }
      else counted

  unfoldable pub check_node : SccNode → Choice → Choice
  unfolding may_inline consider
  check_node other_node c = c
  check_node (call_node call edges) c = elim (a.code.called_function call) [
    | none ↦ c
    | some callee ↦ if may_inline call callee then consider call callee edges c else c
  ]

  unfoldable pub check_nodes : List SccNode → Choice → Choice
  unfolding check_node
  check_nodes [] c = c
  check_nodes (n ∷ ns) c = check_nodes ns (check_node n c)

  -- An SCC of one instruction is skipped.
  unfoldable pub check_sccs : List (List SccNode) → Choice → Choice
  unfolding check_nodes
  check_sccs [] c = c
  check_sccs (scc ∷ sccs) c = check_sccs sccs (if length scc == 1 then c else check_nodes scc c)

  unfoldable pub choose_call : Choice
  choose_call = check_sccs (a.sccs_that_block_doall loop) no_choice

abbrev pub max_number_of_function_calls_to_inline_per_loop : ℕ
max_number_of_function_calls_to_inline_per_loop = 10

unfoldable pub kept_entries : ℕ → List ℕ → List ℕ
kept_entries i [] = []
kept_entries i (x ∷ xs) = let rest = kept_entries i xs in if x == i then rest else x ∷ rest

-- `std::remove` with no `erase`: the entries that are kept move to the front, and the tail of the
-- vector stays as it was.
unfoldable pub remove : ℕ → List ℕ → List ℕ
unfolding kept_entries
remove i xs = let kept = kept_entries i xs in kept ++ drop (length kept) xs

-- `std::find` compares the addresses of the loop structures.
unfoldable pub disable_sub_loop : ℕ → List ℕ → List ℕ
unfolding remove
disable_sub_loop child to_check =
    if contains to_check child then remove child to_check else to_check

unfoldable pub disable_sub_loops : List ℕ → List ℕ → List ℕ
unfolding disable_sub_loop
disable_sub_loops [] to_check = to_check
disable_sub_loops (child ∷ children) to_check =
    disable_sub_loops children (disable_sub_loop child to_check)

-- Adds functions to those that are avoided.
unfoldable pub avoid_all : List ℕ → List ℕ → List ℕ
avoid_all [] avoid = avoid
avoid_all (f ∷ fs) avoid = avoid_all fs (set_insert f avoid)

module _ (a : Analyses) where
  unfoldable pub inline_within_loop : ℕ → ℕ → State → Bool × State
  inline_within_loop f loop s =
      let c = choose_call a s.order f loop in
      elim c.inline_call [
        | none ↦ (false, s)
        | some call ↦
            if leb max_number_of_function_calls_to_inline_per_loop
              c.number_of_function_calls_to_inline
            then (false, s)
            else elim (a.code.called_function call) [
              | none ↦ (false, s)
              | some callee ↦ inline_function_call a.code f callee call s
            ]
      ]

  -- Whether a loop with this header is enabled.
  unfoldable pub is_enabled : ℕ → List ℕ → Bool
  is_enabled h [] = false
  is_enabled h (l ∷ to_check) = a.code.header l == h || is_enabled h to_check

  -- The loops of a function, outer ones first, up to the first that inlines a call.
  unfoldable pub inline_in_loops : ℕ → List ℕ → State → Bool × State
  inline_in_loops f [] s = (false, s)
  inline_in_loops f (loop ∷ loops) s =
      let skip = inline_in_loops f loops s in
      let disabled = inline_in_loops f loops (record s {
        loops_to_check =
            update s.loops_to_check f (disable_sub_loops (a.sub_loops loop) (s.loops_to_check f));
      }) in
      let tried = inline_within_loop f loop s in
      let next = inline_in_loops f loops tried.1 in
      if not (is_enabled (a.code.header (a.structure loop)) (s.loops_to_check f))
      then skip
      else if leb 1 (length (a.sub_loops loop)) && a.is_doall loop
      then disabled
      else if tried.0
      then (true, tried.1)
      else next

  -- The loop over the functions, deepest first.
  unfoldable pub inline_in_fns : List ℕ → List ℕ → State → Bool × State
  inline_in_fns [] avoid s = (false, s)
  inline_in_fns (f ∷ fs) avoid s =
      let skip = inline_in_fns fs (avoid_all (s.graph.parent_fns f) avoid) s in
      let tried = inline_in_loops f (a.loop_contents f) s in
      let rest =
        inline_in_fns fs (if tried.0 then avoid_all (tried.1.graph.parent_fns f) avoid else avoid)
          tried.1 in
      if contains avoid f then skip else (tried.0 || rest.0, rest.1)

  -- `fns` are the keys of loopsToCheck.
  unfoldable pub inline_calls_in_loop_carried_dependences : List ℕ → State → Bool × State
  inline_calls_in_loop_carried_dependences fns s =
      inline_in_fns (sort_in_depth_order_fns s.order fns) [] s
