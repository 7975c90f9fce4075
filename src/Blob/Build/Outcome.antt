-- ===== src/Blob/Build/Outcome.antt =====
-- What BuildManifest returns, on every file.
use edge_grid.Prelude.{
  ℕ, zero, suc, ◌+◌, ◌*◌, ◌≤◌, ◌<◌, ◌≡◌, ◌≢◌, refl, sym, ap, subst, Text, List, [], ◌∷◌, Option,
  some, none, length, arith, length-append, length-drop,
}
use edge_grid.Prelude.Int.{ℤ, pos}
use edge_grid.Prelude.Results.{ok, err}
use edge_grid.Prelude.Path.{base_name}
use edge_grid.Disk.{File, read_full, full}
use edge_grid.Blob.{ChunkInfo, Manifest, max_chunk_size, max_chunks}
use edge_grid.Blob.Build.{
  Progress, effective_size, add_chunk, build_loop, build_manifest, start, stuck,
}
use edge_grid.Disk.Laws.{readable}
use edge_grid.Blob.Build.Cuts.{Cuts, loop_cuts}
use edge_grid.Blob.Validate.{validate}
use edge_grid.Blob.Validate.Spec.{Tiles, total, validate_iff}

effective_size-pos : (n : ℤ) → 1 ≤ effective_size n
unfolding effective_size
effective_size-pos n = ground arith

-- A read that fills the buffer leaves less to read.
read_full_shrinks :
    (n : ℕ) (f : File)
    → 1 ≤ n
    → (read_full n f).ended ≡ full
    → length (read_full n f).file.contents < length f.contents
unfolding read_full
read_full_shrinks n f h e = ground (arith, length-drop n f.contents)

module _ (sha256_hex : Text → Text) where
  Cuts-Tiles :
      (n i off : ℕ) (s : Text) (cs : List ChunkInfo)
      → n ≤ max_chunk_size
      → Cuts sha256_hex n i off s cs
      → Tiles i off cs × (total cs ≡ length s)
  Cuts-Tiles n i off s [] h e = (tt, sym (ap length e))
  Cuts-Tiles n i off s (c ∷ cs) h (piece, rest, e, k, lo, hi, more) =
      let (tiles, sum) = Cuts-Tiles n (suc i) (off + length piece) rest cs h more in
      rw (e, k)
        (
          (
            record {
              index = refl;
              offset = refl;
              length = refl;
              positive = lo;
              bounded = omega arith;
            },
            tiles,
          ),
          omega (arith, sum, length-append piece rest),
        )

  few_chunks : (k n len max : ℕ) → 1 ≤ n → k * n < len + n → len ≤ n * max → k ≤ max
  few_chunks k n len max h a b = grind arith

  -- The manifest passes Validate, has the hash and the size of the file, and its chunks are
  -- consecutive pieces of it, of 1 to n bytes, each with its own hash.
  abbrev pub Describes : ℕ → Text → Manifest → Type 0
  Describes n s m =
      (validate m ≡ ok tt)
      × (m.sha256 ≡ sha256_hex s)
      × (m.size ≡ pos (length s))
      × Cuts sha256_hex n 0 0 s m.chunks

  -- For a readable file that fits in 1048576 chunks of the chosen size, which is 64 MiB at most,
  -- BuildManifest returns a manifest that Validate accepts. It has the hash and the size of the
  -- file, and its chunks are consecutive pieces of it, each with its own hash.
  pub build_manifest-Describes :
      (path media_type : Text) (chunk_size : ℤ) (s : Text)
      → effective_size chunk_size ≤ max_chunk_size
      → length s ≤ effective_size chunk_size * max_chunks
      → (m : Manifest) × (build_manifest sha256_hex path media_type chunk_size (some (readable s))
          ≡ ok m)
        × (Describes (effective_size chunk_size) s m)
  unfolding build_manifest
  build_manifest-Describes path media_type chunk_size s h fits =
      let n = effective_size chunk_size in
      let (new, run, cuts, few) =
        loop_cuts sha256_hex (suc (length s)) n 0 0 s [] [] (effective_size-pos chunk_size)
          (omega arith) (omega arith) (omega arith) in
      let (tiles, sum) = Cuts-Tiles n 0 0 s new h cuts in
      let m : Manifest = record {
        name = base_name path;
        media_type = media_type;
        size = pos (0 + length s);
        sha256 = sha256_hex s;
        chunks = new;
      } in
      let size : m.size ≡ pos (total new) = ap pos (omega (arith, sum)) in
      let count =
        few_chunks (length new) n (length s) max_chunks (effective_size-pos chunk_size) few fits in
      let valid = (validate_iff m).1 (record { count = count; tiles = tiles; size = size }) in
      (m, rw run, (valid, refl, ap pos (omega arith), cuts))

  pub built-Describes :
      (path media_type : Text) (chunk_size : ℤ) (s : Text) (m : Manifest)
      → effective_size chunk_size ≤ max_chunk_size
      → length s ≤ effective_size chunk_size * max_chunks
      → build_manifest sha256_hex path media_type chunk_size (some (readable s)) ≡ ok m
      → Describes (effective_size chunk_size) s m
  built-Describes path media_type chunk_size s m h fits built =
      let (m', run, facts) = build_manifest-Describes path media_type chunk_size s h fits in
      subst (Describes (effective_size chunk_size) s) (cc (run, built)) facts

  loop-ne-stuck :
      (fuel n : ℕ) (f : File) (p : Progress)
      → 1 ≤ n
      → length f.contents < fuel
      → build_loop sha256_hex fuel n f p ≢ err stuck
  unfolding build_loop
  loop-ne-stuck zero n f p h k = absurd (omega arith)
  loop-ne-stuck (suc fuel) n f p h k = ground (
    arith,
    read_full_shrinks n f h,
    loop-ne-stuck fuel n (read_full n f).file (add_chunk sha256_hex p (read_full n f).bytes) h,
  )

  -- The loop of BuildManifest ends on every file, also where the disk fails.
  pub build_manifest-ne-stuck :
      (path media_type : Text) (chunk_size : ℤ) (file : Option File)
      → build_manifest sha256_hex path media_type chunk_size file ≢ err stuck
  unfolding build_manifest
  build_manifest-ne-stuck path media_type chunk_size none = λ e. cc
  build_manifest-ne-stuck path media_type chunk_size (some f) = ground (
    arith,
    loop-ne-stuck (suc (length f.contents)) (effective_size chunk_size) f start
        (effective_size-pos chunk_size) (omega arith),
  )
