-- ===== src/Flate.antt =====
-- gsip/internal/flate: the DEFLATE decoder with checkpoints.
pub mod Dict
pub mod Source
pub mod Huffman
pub mod Checkpoint
pub mod State
pub mod Symbols
pub mod Blocks
pub mod Reading
pub mod Sound
pub mod Resume
pub mod Token
mod Tests
