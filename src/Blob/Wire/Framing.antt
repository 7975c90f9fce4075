-- ===== src/Blob/Wire/Framing.antt =====
-- What a successful read of a frame, from any peer, took and what it can return.
use edge_grid.Prelude.{ℕ, ◌≤◌, ◌≡◌, ap, ◌∙◌, Text, ◌++◌, take, drop, length, arith, inl, inr}
use edge_grid.Prelude.Results.{ok, Result-cases}
use edge_grid.Net.{Conn, read_full, u32}
use edge_grid.Net.Laws.{read_full-eq-ok}
use edge_grid.Blob.{max_chunk_size}
use edge_grid.Blob.Wire.{read_chunk, read_chunk_header, read_chunk_body}

-- A successful ReadChunk is a read of a header, a length within the limit, and a read of a body.
chunk_parts :
    (c d : Conn) (index : ℕ) (s : Text)
    → read_chunk c ≡ (ok (index, s), d)
    → (header : Text) × (c' : Conn) × (read_full 8 read_chunk_header c ≡ (ok header, c'))
      × (u32 (drop 4 header) ≤ max_chunk_size)
      × (index ≡ u32 (take 4 header))
      × (read_full (u32 (drop 4 header)) (read_chunk_body (u32 (take 4 header))) c' ≡ (ok s, d))
unfolding read_chunk
chunk_parts c d index s h = elim (Result-cases (read_full 8 read_chunk_header c).0) [
  | inr (e, bad) ↦ absurd (ground (arith, bad))
  | inl (header, good) ↦
      let c' = (read_full 8 read_chunk_header c).1 in
      let e = read_chunk_body (u32 (take 4 header)) in
      elim (Result-cases (read_full (u32 (drop 4 header)) e c').0) [
        | inr (x, bad) ↦ absurd (ground (arith, good, bad))
        | inl (body, good') ↦ (
          header,
          c',
          ground (arith, good),
          ground (arith, good),
          ground (arith, good, good'),
          ground (arith, good, good'),
        )
      ]
]

-- A successful ReadChunk took one frame: eight bytes of header, and as many bytes as the header
-- says, 64 MiB at most. It sent nothing.
pub read_chunk_takes :
    (c d : Conn) (index : ℕ) (s : Text)
    → read_chunk c ≡ (ok (index, s), d)
    → (header : Text) × (c.incoming ≡ header ++ (s ++ d.incoming))
      × (length header ≡ 8)
      × (index ≡ u32 (take 4 header))
      × (length s ≡ u32 (drop 4 header))
      × (length s ≤ max_chunk_size)
      × (d.outgoing ≡ c.outgoing)
read_chunk_takes c d index s h =
    let (header, c', r, fits, i, r') = chunk_parts c d index s h in
    let (a, b, o) = read_full-eq-ok _ _ c c' header r in
    let (a', b', o') = read_full-eq-ok _ _ c' d s r' in
    (header, a ∙ ap (λ (t : Text). header ++ t) a', b, i, b', omega arith, o' ∙ o)
