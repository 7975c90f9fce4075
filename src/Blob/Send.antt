-- ===== src/Blob/Send.antt =====
-- Send of internal/blob/chunk.go.
pub mod Frames
use edge_grid.Prelude.{ℕ, suc, ◌+◌, false, Text, List, [], ◌∷◌, ◌++◌, Option, none, some, length}
use edge_grid.Prelude.Int.{ℤ, pos, negsuc, add64}
use edge_grid.Prelude.Results.{ok, err}
use edge_grid.Proc.{Proc, pure, ◌>>=◌, ◌>>◌}
use edge_grid.Net.{Conn}
use edge_grid.Disk.{File, ReadEnd, full, read_full}
use edge_grid.Json.{Codec}
use edge_grid.Blob.{ChunkInfo, Manifest, Progress}
use edge_grid.Blob.Wire.{
  Error, write_manifest, read_verdict, write_chunk, open_failed, slice_out_of_range,
  read_file_chunk,
}

-- The connection, the file once it is open, and the calls of onProgress so far.
pub record Sender : Type 0 where
  pub conn : Conn
  pub source : File
  pub reports : List Progress

abbrev pub on_conn : {A : Type 0} → Proc Conn Error A → Proc Sender Error A
on_conn m s = let (r, c) = m s.conn in (r, record s { conn = c })

report : Progress → Proc Sender Error (Unit {0})
report p s = (ok tt, record s { reports = s.reports ++ (p ∷ []) })

taken : ReadEnd → Text → ℤ → Proc Sender Error Text
taken full bytes index s = (ok bytes, s)
taken _ bytes index s = (err (read_file_chunk index), s)

-- `buf = buf[:c.Length]` and io.ReadFull(f, buf)
unfoldable pub read_source : ℤ → ℤ → Proc Sender Error Text
unfolding taken
read_source (pos n) index s =
    let r = read_full n s.source in taken r.ended r.bytes index (record s { source = r.file })
read_source (negsuc n) index s = (err slice_out_of_range, s)

-- The loop over the chunks, at position i and with `sent` bytes behind it.
unfoldable pub send_chunks : Manifest → ℕ → ℤ → List ChunkInfo → Proc Sender Error (Unit {0})
unfolding report
send_chunks m i sent [] = pure tt
send_chunks m i sent (c ∷ cs) = do
  buf ← read_source c.length c.index
  on_conn (write_chunk c.index buf)
  report (record {
    chunks_done = i + 1;
    chunks_total = length m.chunks;
    bytes_done = add64 sent c.length;
    bytes_total = m.size;
    verifying = false;
  })
  send_chunks m (suc i) (add64 sent c.length) cs

open_file : Option File → Proc Sender Error (Unit {0})
open_file none s = (err open_failed, s)
open_file (some f) s = (ok tt, record s { source = f })

-- `file` is what os.Open finds.
unfoldable pub send : Codec Manifest → Option File → Manifest → Proc Sender Error (Unit {0})
unfolding open_file
send json file m = do
  on_conn (write_manifest json m)
  on_conn read_verdict
  open_file file
  send_chunks m 0 (pos 0) m.chunks
