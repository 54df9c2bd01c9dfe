-- ===== src/Lib.antt =====
-- A model of Gino, a compiler that parallelizes the loops of LLVM programs on top of the NOELLE library.
--
-- The program has four parts, and two of them share a plan. The planner
-- (src/core/parallelization_planner) walks
-- the nesting trees of the loops, estimates the time that parallelizing each loop saves, selects and
-- sorts loops, and attaches to each selected loop its index as metadata; it also exports which loops
-- are DOALL ones. The parallelizer (src/core/parallelizer) reads the indices back, and tries the loops
-- in that order; for each it asks three techniques, DOALL, HELIX and DSWP (src/core/doall,
-- src/core/helix, src/core/dswp), and the first applicable one rewrites the loop. The rewritten program
-- calls the runtime (src/core/runtime/Parallelizer_utils.cpp), whose dispatchers reserve cores, hand
-- the tasks of a loop to the thread pool VIRGIL, and wait for them. Before the planner runs, the inliner
-- (src/core/inliner) inlines calls that keep loops from being parallelized, one per function and run,
-- and on request hoists loops to the entry function.
--
-- Base: names shared by all files. Base/Tests has the Boolean tests, Base/Lists the lists over native
-- numbers, Base/Sets the ordered sets of indices, Base/Words the arithmetic of machine words, with its
-- wrap-around written out.
--
-- Planner, the pass of the planner:
--   Planner/LoopTree    the nesting trees, and the orders in which NOELLE visits them
--   Planner/Savings     evaluateSavings of LoopEvaluation.cpp; its map from loops is a function
--   Planner/Profiles    what the timing model asks of NOELLE's profiles
--   Planner/Timing      LoopTimingModel of TimingModel.cpp
--   Planner/Filter      removeLoopsNotWorthParallelizing of LoopSelector.cpp
--   Planner/Selection   selectTheOrderOfLoopsToParallelize of LoopSelector.cpp
--   Planner/Plan        runOnModule of Pass.cpp: the state is the metadata and the next index
--
-- Inliner, the pass of the inliner (src/core/inliner/src, Inliner.cpp unless said otherwise):
--   Inliner          the members of the class, in Inliner.hpp, that hold the graph and the order
--   Inliner/Calls    collectFnCallsAndCalled
--   Inliner/Graph    collectFnGraph: the state is the graph, the queue and the reached functions
--   Inliner/Depth    collectInDepthOrderFns and sortInDepthOrderFns
--   Inliner/Adjust   adjustLoopOrdersAfterInline and adjustFnGraphAfterInline, the writes into their
--                    vectors included
--   Inliner/Inline   inlineFunctionCall and getNextPreorderLoopAfter: State has the members that change
--   Inliner/Carried  Inliner_loopCarried.cpp
--   Inliner/Hoist    inlineFnsOfLoopsToCGRoot, and the file of the functions that remain
--   Inliner/Pass     runOnModule, getLoopsToInline and createPreOrderedLoopSummariesFor
-- The rounds of their searches are bounded by the number of functions, and that of the hoisting by the
-- functions to check in addition.
--
-- Applicability, canBeAppliedToLoop of the techniques:
--   Applicability/Sccs         the SCCs, and getSCCsThatBlockDOALLToBeApplicable of DOALL_analysis.cpp
--   Applicability/Clonable     getClonableSCCs of DSWP_clonableSCCs.cpp
--   Applicability/Doall        DOALL_applicabilityGuard.cpp
--   Applicability/LoopCarried  HELIX_applicabilityGuard.cpp, and the same function of DSWP.cpp
--   Applicability/Marks        exportDoallMetadata of the planner, and the time saved by a DOALL loop
--
-- Parallelizer, the pass of the parallelizer:
--   Parallelizer            parallelizeLoops of Parallelizer_loops.cpp: the state is the set of
--                           modified basic blocks
--   Parallelizer/Entries    its std::map from indices to loops, as a list of entries by rising keys
--   Parallelizer/Technique  parallelizeLoop of Parallelizer_loop.cpp
--
-- Dswp, the technique DSWP:
--   Dswp/Widths  the sizes of queues: QueueInfo of DSWPTask.hpp, the table of Helper.cpp, and the
--                allocation of queues in NOELLE_DSWPDispatcher
--   Dswp/Queues  registerQueue and areQueuesAcyclical of Queue.cpp: the state is the vector of queues
--                and the sets of the stages
--   Dswp/Clones  addClonableSCCsToStages of Pipeline.cpp: the state is the queue of the search, the
--                visited nodes and the clones of the stage
--   Dswp/Stages  isCompleteAndValidStageStructure of Pipeline.cpp
--   Dswp/Requests  collectDataAndMemoryQueueInfo of Queue.cpp: it returns the arguments of its calls of
--                registerQueue
--   Dswp/Control  collectControlQueueInfo of Queue.cpp, in the same way
--   Dswp/Controlled  collectTransitivelyControlledTasks of Queue.cpp: the state is the queue of the
--                search, the visited nodes and the stages found
--
-- Heuristics, the merging of DSWP stages (src/core/heuristics): InvocationLatency.cpp,
-- PartitionCostAnalysis.cpp, MinMaxSizePartitionAnalysis.cpp and Heuristics.cpp, over the partitioner of
-- NOELLE, whose operations are the record Partition.
--
-- Runtime, the class NoelleRuntime and the dispatchers:
--   Runtime/Cores    the ledger of idle cores: reserveCores, releaseCores, getAvailableCores
--   Runtime/ArgPool  the memory for task arguments: getDOALLArgs, releaseDOALLArgs
--   Runtime/Doall    NOELLE_DOALLDispatcher and NOELLE_DOALLTrampoline, as steps of the dispatcher and
--                    of the tasks in any interleaving
--   Runtime/Helix    the arrays of locks of NOELLE_HELIX_dispatcher, HELIX_wait and HELIX_signal, as
--                    steps of the cores in any interleaving
--   Runtime/Dswp     NOELLE_DSWPDispatcher and NOELLE_DSWPTrampoline, as steps of the dispatcher and of
--                    the tasks of the stages in any interleaving
--
-- Correspondence. Loops, SCCs, instructions, basic blocks and functions are numbers, since the source
-- compares their addresses only. A method that changes its object returns the new state. A call that
-- aborts returns none. Code under a lock is one step. The signed NOELLE_idleCores is kept as its bit
-- pattern. Averages and fractions of type double or float are exact fractions, and a comparison with a
-- quotient by zero is written out; so rounding is not modelled.
--
-- Bounds and fuel. `double_until` of Dswp/Widths runs on fuel: its argument n doubles the power at most
-- n times, which is enough as 2 ^ n is at least n. The search of
-- Dswp/Clones runs on fuel: the SCCs of the stage and the nodes of the SCCDAG bound its rounds, and the
-- property of the search says that its queue is empty then. So does that of Dswp/Controlled, on one
-- round and the edges of the SCCDAG, and the traversal of Heuristics, on the
-- roots and the sets of the partition; the merging loop runs on as many rounds as there are sets, and a
-- property says that it ends by itself within them.
--
-- Parameters. NOELLE, LLVM and VIRGIL are not part of the repository: the profiles, the order of
-- visits, the dependence graph and its SCCs, the types of producers and the ids of tasks are arguments.
-- What is relied on is stated where it is used: `PostOrder` for the order of visits, and that a task
-- that was submitted may run once, and is always able to, by the steps of Runtime/Doall. The answers of
-- NOELLE to the inliner are the same for its whole run, while the source asks again for each function.
-- A spin lock or mutex is a flag that any thread may release, as the source does; POSIX leaves the release
-- by a thread that does not hold it undefined. Not modelled are the limits of `std::stoi` and `uint32_t` on the
-- indices read from the metadata, and the cast of the ids of stages to `int`.
--
-- Not modelled: the generation of LLVM code by the techniques, the enablers, the passes
-- that print, the tool that reports saved time, the autotuner, and the scripts. Of the dispatcher of
-- HELIX the submission and the join of tasks are left out, which are those of DOALL over an array that
-- is allocated for the call.
pub mod Base
pub mod Runtime
pub mod Planner
pub mod Parallelizer
pub mod Dswp
pub mod Applicability
pub mod Heuristics
pub mod Inliner
