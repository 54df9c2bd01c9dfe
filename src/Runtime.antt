-- ===== src/Runtime.antt =====
-- The runtime that parallelized loops are linked with (src/core/runtime/Parallelizer_utils.cpp).
pub mod Cores
pub mod ArgPool
pub mod Doall
pub mod Helix
pub mod Dswp
