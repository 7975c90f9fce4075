-- ===== src/Blob.antt =====
-- internal/blob: moving a file between two nodes as a manifest, a verdict and framed chunks.
-- This file has the data; the children have the operations, and below them the proofs.
pub mod Validate
pub mod Build
pub mod SafeName
pub mod Wire
pub mod Send
pub mod Receive
use edge_grid.Prelude.{ℕ, Bool, Text, List}
use edge_grid.Prelude.Int.{ℤ}

-- 64 << 20
abbrev pub max_chunk_size : ℕ
max_chunk_size = 67_108_864

-- 4 << 20
abbrev pub default_chunk_size : ℕ
default_chunk_size = 4_194_304

-- 1 << 20
abbrev pub max_chunks : ℕ
max_chunks = 1_048_576

pub record ChunkInfo : Type 0 where
  pub index : ℤ
  pub offset : ℤ
  pub length : ℤ
  pub sha256 : Text

pub record Manifest : Type 0 where
  pub name : Text
  pub media_type : Text
  pub size : ℤ
  pub sha256 : Text
  pub chunks : List ChunkInfo

-- Progress of chunk.go, and the calls of a ProgressFunc in order.
pub record Progress : Type 0 where
  pub chunks_done : ℕ
  pub chunks_total : ℕ
  pub bytes_done : ℤ
  pub bytes_total : ℤ
  pub verifying : Bool
