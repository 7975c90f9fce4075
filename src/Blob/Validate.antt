-- ===== src/Blob/Validate.antt =====
-- Manifest.Validate of internal/blob/manifest.go.
pub mod Spec
use edge_grid.Prelude.{
  ℕ, suc, ◌+◌, ◌≡◌, refl, Bool, true, false, not, List, [], ◌∷◌, Text, codes, show, length, ltb,
  if◌then◌else◌, ◌++◌,
}
use edge_grid.Prelude.Int.{ℤ, pos, negsuc, ltb_ℤ, eqb_ℤ, add64}
use edge_grid.Prelude.Results.{Result, ok, err, refuse_if, ◌>>=◌, ◌>>◌}
use edge_grid.Blob.{ChunkInfo, Manifest, max_chunk_size, max_chunks}

-- One constructor for each `fmt.Errorf`, with the values that it prints.
pub data Invalid : Type 0 where
  negative_size : ℤ → Invalid
  too_many_chunks : ℕ → Invalid
  wrong_index : ℕ → ℤ → Invalid
  bad_length : ℕ → ℤ → Invalid
  too_long : ℕ → ℤ → Invalid
  wrong_offset : ℕ → ℤ → ℤ → Invalid
  wrong_total : ℤ → ℤ → Invalid

unfoldable pub show_ℤ : ℤ → Text
show_ℤ (pos n) = show n
show_ℤ (negsuc n) = codes "-" ++ show (suc n)

-- The text of the error, which Receive sends to the peer as the reason.
unfoldable pub message : Invalid → Text
message (negative_size n) = codes "blob: manifest size " ++ (show_ℤ n ++ codes " is negative")
message (too_many_chunks n) =
    codes "blob: manifest declares " ++ (show n ++ (codes " chunks, max " ++ show max_chunks))
message (wrong_index i x) =
    codes "blob: chunk at position " ++ (show i ++ (codes " has index " ++ show_ℤ x))
message (bad_length i n) = codes "blob: chunk " ++ (show i ++ (codes " has length " ++ show_ℤ n))
message (too_long i n) =
    codes "blob: chunk "
    ++ (show i
        ++ (codes " length " ++ (show_ℤ n ++ (codes " exceeds max " ++ show max_chunk_size))))
message (wrong_offset i x want) =
    codes "blob: chunk "
    ++ (show i ++ (codes " starts at " ++ (show_ℤ x ++ (codes ", want " ++ show_ℤ want))))
message (wrong_total n size) =
    codes "blob: chunks total " ++ (show_ℤ n ++ (codes " bytes, manifest size is " ++ show_ℤ size))

-- The `switch` in the loop, at position i.
unfoldable pub check_chunk : ℕ → ℤ → ChunkInfo → Result Invalid (Unit {0})
check_chunk i offset c =
    if not (eqb_ℤ c.index (pos i))
    then err (wrong_index i c.index)
    else if ltb_ℤ c.length (pos 1)
    then err (bad_length i c.length)
    else if ltb_ℤ (pos max_chunk_size) c.length
    then err (too_long i c.length)
    else if not (eqb_ℤ c.offset offset)
    then err (wrong_offset i c.offset offset)
    else ok tt

-- The loop over the chunks; it returns the final `offset`.
unfoldable pub check_chunks : ℕ → ℤ → List ChunkInfo → Result Invalid ℤ
check_chunks i offset [] = ok offset
check_chunks i offset (c ∷ cs) =
    check_chunk i offset c >>= λ _. check_chunks (suc i) (add64 offset c.length) cs

unfoldable pub validate : Manifest → Result Invalid (Unit {0})
validate m = do
  refuse_if (ltb_ℤ m.size (pos 0)) (negative_size m.size)
  refuse_if (ltb max_chunks (length m.chunks)) (too_many_chunks (length m.chunks))
  offset ← check_chunks 0 (pos 0) m.chunks
  refuse_if (not (eqb_ℤ offset m.size)) (wrong_total offset m.size)
