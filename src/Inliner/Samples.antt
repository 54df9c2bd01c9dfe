-- ===== src/Inliner/Samples.antt =====
-- A program with four functions: 0 calls 1 and 2, 1 calls 2, and 2 calls 3 twice.
use gino.Base.{
  ℕ, zero, suc, ◌+◌, ◌==◌, true, false, ◌||◌, Option, some, none, List, [], ◌∷◌, if◌then◌else◌,
}
use gino.Inliner.{FnGraph, DepthOrder}
use gino.Inliner.Calls.{call_inst, other_inst, BasicBlock}
use gino.Inliner.Inline.{State, Code}
use gino.Inliner.Carried.{call_node, Analyses}
use gino.Inliner.Pass.{Program}

abbrev pub callee : ℕ → Option ℕ
callee call =
    if call == 10
    then some 1
    else if call == 11
    then some 2
    else if call == 12
    then some 2
    else if call == 13
    then some 3
    else if call == 15
    then some 3
    else none

abbrev pub block_of : ℕ → ℕ
block_of call =
    if call == 10
    then 100
    else if call == 12
    then 110
    else if call == 13
    then 120
    else if call == 15
    then 120
    else 101

abbrev pub blocks_of : ℕ → List BasicBlock
blocks_of zero =
    record { id = 100; instructions = other_inst ∷ call_inst 10 ∷ [] }
    ∷ record { id = 101; instructions = call_inst 11 ∷ call_inst 14 ∷ [] }
    ∷ []
blocks_of (suc zero) = record { id = 110; instructions = call_inst 12 ∷ [] } ∷ []
blocks_of (suc (suc zero)) =
    record { id = 120; instructions = call_inst 13 ∷ other_inst ∷ call_inst 15 ∷ [] } ∷ []
blocks_of (suc (suc (suc f))) = []

abbrev pub records_of : ℕ → List (Option ℕ)
records_of zero = some 11 ∷ none ∷ some 14 ∷ some 10 ∷ []
records_of (suc zero) = some 12 ∷ []
records_of (suc (suc zero)) = some 15 ∷ some 13 ∷ []
records_of (suc (suc (suc f))) = []

abbrev pub code : Code
code = record {
  blocks_after = λ call. if call == 10 then 101 ∷ [] else [];
  header = λ l. if l == 200 then 120 else if l == 301 then 120 else if l == 210 then 110 else l;
  static_instructions = λ f. 10 + f;
  called_function = callee;
  inline_function = λ call. true;
}

-- The loop 300 of function 2 has the structure 301, and a sub-loop.
abbrev pub analyses : Analyses
analyses = record {
  code = code;
  is_empty = λ f. f == 9;
  is_intrinsic = λ f. false;
  does_it_belong_to_an_scc = λ f. false;
  number_of_loops = λ f. if f == 2 then 1 else 0;
  loop_contents = λ f. if f == 2 then 300 ∷ [] else [];
  structure = λ l. l + 1;
  sub_loops = λ l. 302 ∷ [];
  is_included_in_its_sub_loops = λ l call. false;
  loop_static_instructions = λ l. 50;
  sccs_that_block_doall =
      λ l. (call_node 13 (true ∷ false ∷ []) ∷ call_node 15 (true ∷ true ∷ []) ∷ []) ∷ [];
  is_doall = λ l. l == 400;
}

abbrev pub program : Program
program = record {
  is_enabled = true;
  entry_function = some 0;
  number_of_program_instructions = 40;
  fns = 0 ∷ 1 ∷ 2 ∷ 3 ∷ [];
  records = records_of;
  blocks = blocks_of;
  get_parent = block_of;
  is_loop_header = λ b. b == 120 || b == 110;
  get_loop_for = λ b. b + 80;
  is_profile_available = true;
  is_hot = λ l. true;
  should_loops_be_hoist_to_main = false;
  file = none;
  analyses = analyses;
}

-- The graph of the program.
abbrev pub called_in : ℕ → List ℕ
called_in zero = 1 ∷ 2 ∷ []
called_in (suc zero) = 2 ∷ []
called_in (suc (suc zero)) = 3 ∷ 3 ∷ []
called_in (suc (suc (suc f))) = []

abbrev pub callers_of : ℕ → List ℕ
callers_of zero = []
callers_of (suc zero) = 0 ∷ []
callers_of (suc (suc zero)) = 0 ∷ 1 ∷ []
callers_of (suc (suc (suc zero))) = 2 ∷ []
callers_of (suc (suc (suc (suc f)))) = []

abbrev pub fns : List ℕ
fns = 0 ∷ 1 ∷ 2 ∷ 3 ∷ []

abbrev pub graph : FnGraph
graph = record {
  parent_fns = callers_of;
  children_fns = called_in;
  ordered_calls = λ f.
      if f == 0
      then 10 ∷ 11 ∷ []
      else if f == 1
      then 12 ∷ []
      else if f == 2
      then 13 ∷ 15 ∷ []
      else [];
  ordered_called = called_in;
}

abbrev pub order_in : ℕ → Option ℕ
order_in zero = some 0
order_in (suc zero) = some 1
order_in (suc (suc zero)) = some 2
order_in (suc (suc (suc zero))) = some 3
order_in (suc (suc (suc (suc f)))) = none

abbrev pub order : DepthOrder
order = record { depth_ordered_fns = fns; recursive_chain_entrance_fns = []; fn_orders = order_in }

abbrev pub loops_in : ℕ → Option (List ℕ)
loops_in f =
    if f == 2
    then some (200 ∷ [])
    else if f == 1
    then some (210 ∷ [])
    else if f == 0
    then some (190 ∷ [])
    else none

abbrev pub state : State
state = record {
  graph = graph;
  order = order;
  pre_ordered_loops = loops_in;
  fns_affected = [];
  loops_to_check = λ f. if f == 2 then 200 ∷ [] else if f == 1 then 210 ∷ [] else [];
  fns_to_check = 1 ∷ 2 ∷ [];
}
