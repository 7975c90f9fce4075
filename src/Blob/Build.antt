-- ===== src/Blob/Build.antt =====
-- BuildManifest of internal/blob/manifest.go.
pub mod Cuts
pub mod Outcome
use edge_grid.Prelude.{
  ℕ, zero, suc, ◌+◌, Bool, true, Text, List, [], ◌∷◌, ◌++◌, Option, none, some, length, ltb,
  is_empty, if◌then◌else◌, not,
}
use edge_grid.Prelude.Int.{ℤ, pos, ltb_ℤ, add64, pos_part}
use edge_grid.Prelude.Results.{Result, ok, err, ◌>>=◌}
use edge_grid.Prelude.Path.{base_name}
use edge_grid.Disk.{File, ReadEnd, ReadResult, full, short, eof, failed, read_full}
use edge_grid.Blob.{ChunkInfo, Manifest, default_chunk_size}

-- `stuck` is no error of the program: the model's loop ran out of fuel.
pub data BuildError : Type 0 where
  open_failed read_failed stuck : BuildError

-- The loop's variables; `whole` holds what was written to the running hash.
pub record Progress : Type 0 where
  pub chunks : List ChunkInfo
  pub whole : Text
  pub offset : ℤ
  pub index : ℤ

abbrev pub start : Progress
start = record { chunks = []; whole = []; offset = pos 0; index = pos 0 }

-- `if chunkSize <= 0 { chunkSize = DefaultChunkSize }`
unfoldable pub effective_size : ℤ → ℕ
effective_size n = if ltb_ℤ n (pos 1) then default_chunk_size else pos_part n

module _ (sha256_hex : Text → Text) where
  -- The body under `if n > 0`.
  unfoldable pub add_chunk : Progress → Text → Progress
  add_chunk p buf = if is_empty buf then p else record {
    chunks =
        p.chunks
        ++ (record {
          index = p.index;
          offset = p.offset;
          length = pos (length buf);
          sha256 = sha256_hex buf;
        }
            ∷ []);
    whole = p.whole ++ buf;
    offset = add64 p.offset (pos (length buf));
    index = add64 p.index (pos 1);
  }

  unfoldable pub build_loop : ℕ → ℕ → File → Progress → Result BuildError Progress
  build_loop zero chunk_size f p = err stuck
  build_loop (suc fuel) chunk_size f p =
      let r = read_full chunk_size f in
      let p' = add_chunk p r.bytes in
      let rest = build_loop fuel chunk_size r.file p' in
      elim r.ended [ full ↦ rest | short ↦ ok p' | eof ↦ ok p' | failed ↦ err read_failed ]

  -- `file` is what os.Open finds at `path`. A round that goes on has read `chunk_size` bytes, so one
  -- more round than bytes is enough.
  unfoldable pub build_manifest : Text → Text → ℤ → Option File → Result BuildError Manifest
  build_manifest path media_type chunk_size none = err open_failed
  build_manifest path media_type chunk_size (some f) =
      build_loop (suc (length f.contents)) (effective_size chunk_size) f start >>= λ p. ok (record {
        name = base_name path;
        media_type = media_type;
        size = p.offset;
        sha256 = sha256_hex p.whole;
        chunks = p.chunks;
      })
