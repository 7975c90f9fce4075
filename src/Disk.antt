-- ===== src/Disk.antt =====
-- Files of the local disk, as Go's os and io packages hand them out.
pub mod Laws
use edge_grid.Prelude.{
  ℕ, ◌-◌, ◌+◌, ◌≡◌, refl, Bool, Text, [], ◌∷◌, ◌++◌, take, drop, length, leb, replicate, is_empty,
  if◌then◌else◌,
}

-- A file open for reading at its start. Reading past `contents` is the end of the file, or an I/O
-- error where the disk is `broken`.
pub record File : Type 0 where
  pub contents : Text
  pub broken : Bool

-- How io.ReadFull ends: nil, io.ErrUnexpectedEOF, io.EOF or another error.
pub data ReadEnd : Type 0 where
  full short eof failed : ReadEnd

-- The bytes read, how the read ended, and the file with the cursor moved on.
pub record ReadResult : Type 0 where
  pub bytes : Text
  pub ended : ReadEnd
  pub file : File

unfoldable pub read_full : ℕ → File → ReadResult
read_full n f =
    if leb n (length f.contents)
    then record {
      bytes = take n f.contents;
      ended = full;
      file = record f { contents = drop n f.contents };
    }
    else record {
      bytes = f.contents;
      ended = if f.broken then failed else if is_empty f.contents then eof else short;
      file = record f { contents = [] };
    }

-- f.Truncate(size) on a new file, and f.WriteAt(s, offset): a gap before `offset` is zeros.
unfoldable pub truncate : ℕ → Text
truncate size = replicate size 0

unfoldable pub write_at : Text → ℕ → Text → Text
write_at file offset s =
    take offset (file ++ replicate (offset - length file) 0) ++ (s ++ drop (offset + length s) file)

write_at_inside : write_at (1 ∷ 2 ∷ 3 ∷ 4 ∷ []) 1 (9 ∷ 8 ∷ []) ≡ 1 ∷ 9 ∷ 8 ∷ 4 ∷ []
unfolding write_at
write_at_inside = refl

write_at_beyond : write_at (1 ∷ []) 3 (9 ∷ []) ≡ 1 ∷ 0 ∷ 0 ∷ 9 ∷ []
unfolding write_at
write_at_beyond = refl
