-- ===== src/Dswp.antt =====
-- The DSWP technique (src/core/dswp/src) and the part of the runtime that it relies on.
pub mod Widths
pub mod Queues
pub mod Clones
pub mod Stages
pub mod Controlled
pub mod Requests
pub mod Control
