-- ===== src/Blob/Validate/Spec.antt =====
-- What a manifest that passes Validate looks like: the chunks tile the blob.
use edge_grid.Prelude.{
  ℕ, suc, ◌+◌, ◌*◌, ◌^◌, ◌≤◌, ◌<◌, ◌≡◌, refl, ◌↔◌, inl, inr, List, [], ◌∷◌, arith, length, ap, ◌∙◌,
}
use edge_grid.Prelude.Int.{ℤ, pos, pos_part, eqb_ℤ_iff, add64, add64-pos}
use edge_grid.Prelude.Results.{ok, Result-cases}
use edge_grid.Blob.{ChunkInfo, Manifest, max_chunk_size, max_chunks}
use edge_grid.Blob.Validate.{check_chunk, check_chunks, validate}

-- The chunk at position `i` starts at byte `off`.
pub record Fits (i off : ℕ) (c : ChunkInfo) : Type 0 where
  pub index : c.index ≡ pos i
  pub offset : c.offset ≡ pos off
  pub length : c.length ≡ pos (pos_part c.length)
  pub positive : 1 ≤ pos_part c.length
  pub bounded : pos_part c.length ≤ max_chunk_size

-- The chunks from position `i` on tile the bytes from `off` on.
abbrev pub Tiles : ℕ → ℕ → List ChunkInfo → Type 0
Tiles i off [] = Unit
Tiles i off (c ∷ cs) = Fits i off c × Tiles (suc i) (off + pos_part c.length) cs

abbrev pub total : List ChunkInfo → ℕ
total [] = 0
total (c ∷ cs) = pos_part c.length + total cs

pub record IsValid (m : Manifest) : Type 0 where
  pub count : length m.chunks ≤ max_chunks
  pub tiles : Tiles 0 0 m.chunks
  pub size : m.size ≡ pos (total m.chunks)

pub total_bound :
    (i off : ℕ) (cs : List ChunkInfo) → Tiles i off cs → total cs ≤ length cs * max_chunk_size
total_bound i off [] h = omega arith
total_bound i off (c ∷ cs) (f, t) =
    omega (arith, f.bounded, total_bound (suc i) (off + pos_part c.length) cs t)

check_chunk_ok : (i off : ℕ) (c : ChunkInfo) → Fits i off c → check_chunk i (pos off) c ≡ ok tt
unfolding check_chunk
check_chunk_ok i off c f = ground (arith, f.index, f.offset, f.length, f.positive, f.bounded)

check_chunk-Fits : (i off : ℕ) (c : ChunkInfo) → check_chunk i (pos off) c ≡ ok tt → Fits i off c
unfolding check_chunk
check_chunk-Fits i off c h = ground (arith, eqb_ℤ_iff c.index (pos i), eqb_ℤ_iff c.offset (pos off))

-- One more chunk moves the offset without wrap-around.
add64-Fits :
    (i off : ℕ) (c : ChunkInfo)
    → Fits i off c
    → off + pos_part c.length < 2 ^ 63
    → add64 (pos off) c.length ≡ pos (off + pos_part c.length)
add64-Fits i off c f h = ap (add64 (pos off)) f.length ∙ add64-pos off (pos_part c.length) h

check_chunks_ok :
    (i off : ℕ) (cs : List ChunkInfo)
    → off + length cs * max_chunk_size < 2 ^ 63
    → Tiles i off cs
    → check_chunks i (pos off) cs ≡ ok (pos (off + total cs))
unfolding check_chunks
check_chunks_ok i off [] h t = ap (λ (n : ℕ). ok (pos n)) (omega arith)
check_chunks_ok i off (c ∷ cs) h (f, t) =
    let n = pos_part c.length in
    rw (check_chunk_ok i off c f, add64-Fits i off c f (omega (arith, f.bounded)))
      (check_chunks_ok (suc i) (off + n) cs (omega (arith, f.bounded)) t
        ∙ ap (λ (k : ℕ). ok (pos k)) (omega arith))

check_chunks-Tiles :
    (i off : ℕ) (cs : List ChunkInfo) {end : ℤ}
    → off + length cs * max_chunk_size < 2 ^ 63
    → check_chunks i (pos off) cs ≡ ok end
    → Tiles i off cs × (end ≡ pos (off + total cs))
unfolding check_chunks
check_chunks-Tiles i off [] h e = ground arith
check_chunks-Tiles i off (c ∷ cs) h e = elim (Result-cases (check_chunk i (pos off) c)) [
  | inr (x, bad) ↦ cc
  | inl (_, good) ↦
      let f = check_chunk-Fits i off c (good ∙ ap ok refl) in
      let n = pos_part c.length in
      let moved = add64-Fits i off c f (omega (arith, f.bounded)) in
      let rest =
        check_chunks-Tiles (suc i) (off + n) cs (omega (arith, f.bounded))
          (rw (good, moved) at e) in
      ((f, rest.0), rest.1 ∙ ap pos (omega arith))
]

count_of : (m : Manifest) → validate m ≡ ok tt → length m.chunks ≤ max_chunks
unfolding validate
count_of m e = ground arith

accepted : (m : Manifest) → validate m ≡ ok tt → length m.chunks ≤ max_chunks → IsValid m
unfolding validate
accepted m e count = elim (Result-cases (check_chunks 0 (pos 0) m.chunks)) [
  | inr (x, bad) ↦ ground arith
  | inl (end, good) ↦
      let (tiles, sum) = check_chunks-Tiles 0 0 m.chunks (omega arith) good in
      record { count = count; tiles = tiles; size = ground (arith, eqb_ℤ_iff end m.size) }
]

valid : (m : Manifest) → IsValid m → validate m ≡ ok tt
unfolding validate
valid m v =
    rw (check_chunks_ok 0 0 m.chunks (omega (arith, v.count)) v.tiles)
      (ground (arith, v.count, v.size))

-- Validate accepts exactly the manifests whose chunks, numbered from 0 and 1 byte to 64 MiB long
-- each, tile the declared size without a gap or an overlap, and are 1048576 at most.
pub validate_iff : (m : Manifest) → (validate m ≡ ok tt) ↔ IsValid m
unfolding validate
validate_iff m = (λ e. accepted m e (count_of m e), λ v. valid m v)
