-- ===== src/Blob/Wire.antt =====
-- The frames of internal/blob: wire.go (manifest), verdict.go, and ReadChunk and WriteChunk of
-- chunk.go.
pub mod RoundTrip
pub mod Framing
use edge_grid.Prelude.{
  ℕ, ◌%◌, ◌^◌, ◌+◌, Bool, Text, List, [], ◌∷◌, ◌++◌, take, drop, length, Option, none, some, ltb,
  ◌==◌, if◌then◌else◌,
}
use edge_grid.Prelude.Int.{ℤ, bits64}
use edge_grid.Prelude.Results.{Result, ok, err, or_fail}
use edge_grid.Proc.{Proc, pure, fail, lift, refuse_when, ◌>>=◌, ◌>>◌}
use edge_grid.Net.{Conn, read_full, write, first, put_u32, put_u16, u32, u16}
use edge_grid.Json.{Codec}
use edge_grid.Blob.{Manifest, max_chunk_size}
use edge_grid.Blob.Validate.{Invalid}

-- 64 << 20
abbrev pub max_manifest_size : ℕ
max_manifest_size = 67_108_864

abbrev pub max_reason_len : ℕ
max_reason_len = 1024

-- The errors of a transfer, one constructor for each place that makes one.
pub data Error : Type 0 where
  encode_manifest write_manifest_length write_manifest_body : Error
  read_manifest_length read_manifest_body decode_manifest : Error
  manifest_too_long : ℕ → Error
  write_verdict_failed read_verdict_failed read_reason unknown_status : Error
  reason_too_long : ℕ → Error
  peer_refused : Text → Error  -- *RefusedError
  read_chunk_header : Error
  chunk_too_long : ℕ → ℕ → Error
  read_chunk_body : ℕ → Error
  write_chunk_header write_chunk_body read_file_chunk : ℤ → Error
  open_failed : Error
  slice_out_of_range : Error  -- no error value: a run-time panic
  invalid : Invalid → Error
  refused : Text → Error  -- what `accept` said, under "blob: refused"
  create_failed truncate_failed : Error
  unexpected_chunk sent_twice : ℕ → Error
  wrong_length : ℕ → ℕ → ℤ → Error
  chunk_hash_mismatch : ℕ → Text → Text → Error
  write_chunk_failed : ℕ → Error
  sync_failed seek_failed reread_failed : Error
  blob_hash_mismatch : Text → Text → Error

-- `uint32(len(s))`
abbrev pub len32 : Text → ℕ
len32 s = length s % 2 ^ 32

module _ (json : Codec Manifest) where
  unfoldable pub write_manifest : Manifest → Proc Conn Error (Unit {0})
  write_manifest m = do
    body ← lift (or_fail (json.marshal m) encode_manifest)
    write (put_u32 (len32 body)) write_manifest_length
    write body write_manifest_body

  unfoldable pub read_manifest : Proc Conn Error Manifest
  read_manifest = do
    prefix ← read_full 4 read_manifest_length
    refuse_when (ltb max_manifest_size (u32 prefix)) (manifest_too_long (u32 prefix))
    body ← read_full (u32 prefix) read_manifest_body
    lift (or_fail (json.unmarshal body) decode_manifest)

-- `verdictAccept` and `verdictRefuse`
abbrev pub verdict_accept : ℕ
verdict_accept = 0

abbrev pub verdict_refuse : ℕ
verdict_refuse = 1

-- [1 byte for the result] [2 bytes for the length] [the reason]
unfoldable pub verdict_frame : ℕ → Text → Text
verdict_frame status reason = status ∷ (put_u16 (length reason % 2 ^ 16) ++ reason)

-- `if len(reason) > n { reason = reason[:n] }`
unfoldable pub clip : ℕ → Text → Text
clip n reason = if ltb n (length reason) then take n reason else reason

-- A refusal is the text of its error.
unfoldable pub write_verdict : Option Text → Proc Conn Error (Unit {0})
write_verdict none = write (verdict_frame verdict_accept []) write_verdict_failed
write_verdict (some reason) =
    write (verdict_frame verdict_refuse (clip max_reason_len reason)) write_verdict_failed

unfoldable pub verdict_of : ℕ → Text → Result Error (Unit {0})
verdict_of status reason =
    if status == verdict_accept
    then ok tt
    else if status == verdict_refuse
    then err (peer_refused reason)
    else err unknown_status

unfoldable pub read_verdict : Proc Conn Error (Unit {0})
unfolding verdict_of
read_verdict = do
  hdr ← read_full 3 read_verdict_failed
  refuse_when (ltb max_reason_len (u16 (drop 1 hdr))) (reason_too_long (u16 (drop 1 hdr)))
  reason ← read_full (u16 (drop 1 hdr)) read_reason
  lift (verdict_of (first hdr) reason)

unfoldable pub read_chunk : Proc Conn Error (ℕ × Text)
read_chunk = do
  header ← read_full 8 read_chunk_header
  refuse_when (ltb max_chunk_size (u32 (drop 4 header)))
      (chunk_too_long (u32 (take 4 header)) (u32 (drop 4 header)))
  body ← read_full (u32 (drop 4 header)) (read_chunk_body (u32 (take 4 header)))
  pure (u32 (take 4 header), body)

-- `uint32(index)` keeps the low 32 bits of the int's 64.
unfoldable pub write_chunk : ℤ → Text → Proc Conn Error (Unit {0})
write_chunk index s = do
  write (put_u32 (bits64 index % 2 ^ 32) ++ put_u32 (len32 s)) (write_chunk_header index)
  write s (write_chunk_body index)
