-- ===== src/Bwos.antt =====
-- The block-based work-stealing queue of src/core/include/bwos_lifo_queue.hpp.
pub mod Words
pub mod Block
pub mod Queue
mod Examples
