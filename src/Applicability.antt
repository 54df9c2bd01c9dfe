-- ===== src/Applicability.antt =====
-- Which of the three techniques can be applied to a loop: DOALL::canBeAppliedToLoop
-- (src/core/doall/src), HELIX::canBeAppliedToLoop (src/core/helix/src), DSWP::canBeAppliedToLoop
-- (src/core/dswp/src), and the check that the last two share
-- (src/core/parallelization_technique/src).
pub mod Sccs
pub mod Clonable
pub mod Doall
pub mod LoopCarried
pub mod Marks
mod Tests
