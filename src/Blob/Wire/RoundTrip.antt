-- ===== src/Blob/Wire/RoundTrip.antt =====
-- The frames of internal/blob, written and read.
use edge_grid.Prelude.{
  ℕ, suc, ◌%◌, ◌^◌, ◌≤◌, ◌<◌, ◌≡◌, refl, ap, Text, List, [], ◌∷◌, ◌++◌, length, Option, none, some,
  le→ltb_false, arith, length-take, append_assoc, take-append, drop-append,
}
use edge_grid.Prelude.Int.{ℤ, pos, bits64}
use edge_grid.Prelude.Results.{Result, ok, err}
use edge_grid.Net.{Conn, WriteOutcome, put_u32, put_u16, u32}
use native.Mathlib.Nat.{mod-eq_of_lt}
use edge_grid.Net.Laws.{
  u32-put_u32, u16-put_u16, read_full-append, write_ok, length-put_u32, length-put_u16,
  u32-put_u32_small,
}
use edge_grid.Json.{Codec}
use edge_grid.Blob.{Manifest, max_chunk_size}
use edge_grid.Blob.Wire.{
  Error, write_manifest, read_manifest, max_manifest_size, write_verdict, read_verdict,
  verdict_frame, verdict_accept, verdict_refuse, peer_refused, max_reason_len, read_chunk,
  write_chunk, len32, verdict_of, clip,
}

abbrev pub conn : Text → Text → List WriteOutcome → Conn
conn inc out ws = record { incoming = inc; outgoing = out; writes = ws }

-- The bytes of a manifest frame and of a chunk frame.
abbrev pub manifest_frame : Text → Text
manifest_frame body = put_u32 (len32 body) ++ body

abbrev pub chunk_frame : ℤ → Text → Text
chunk_frame index s = (put_u32 (bits64 index % 2 ^ 32) ++ put_u32 (len32 s)) ++ s

module _ (json : Codec Manifest) (m : Manifest) (body : Text) where
  pub write_manifest_ok :
      json.marshal m ≡ some body
      → (inc out : Text)
      → write_manifest json m (conn inc out []) ≡ (ok tt, conn inc (out ++ manifest_frame body) [])
  unfolding write_manifest
  write_manifest_ok h inc out = rw (h, write_ok, write_ok, append_assoc)

  -- ReadManifest gives back the manifest of a frame, and leaves what follows it.
  pub read_manifest-frame :
      json.unmarshal body ≡ some m
      → length body ≤ max_manifest_size
      → (rest out : Text) (ws : List WriteOutcome)
      → read_manifest json (conn (manifest_frame body ++ rest) out ws) ≡ (ok m, conn rest out ws)
  unfolding read_manifest
  read_manifest-frame h fits rest out ws =
      rw
        (
          append_assoc (put_u32 (len32 body)) body rest,
          read_full-append 4 _ (put_u32 (len32 body)) (body ++ rest) out ws (length-put_u32 _),
          u32-put_u32_small (length body) (omega arith),
        )
        (rw (le→ltb_false _ _ fits, read_full-append (length body) _ body rest out ws refl, h))

length-header : (a b : ℕ) → 8 ≡ length (put_u32 a ++ put_u32 b)
unfolding put_u32
length-header a b = refl

low_index : (i : ℕ) → i < 2 ^ 32 → u32 (put_u32 (bits64 (pos i) % 2 ^ 32)) ≡ i
low_index i h = omega (arith, u32-put_u32 (i % 2 ^ 64))

-- ReadChunk gives back the index and the bytes of a frame, and leaves what follows it, for an
-- index below 2 ^ 32 and 64 MiB at most.
pub read_chunk-frame :
    (index : ℕ) (s rest out : Text) (ws : List WriteOutcome)
    → index < 2 ^ 32
    → length s ≤ max_chunk_size
    → read_chunk (conn (chunk_frame (pos index) s ++ rest) out ws)
      ≡ (ok (index, s), conn rest out ws)
unfolding read_chunk
read_chunk-frame index s rest out ws hi hs =
    rw
      (
        append_assoc (put_u32 (bits64 (pos index) % 2 ^ 32) ++ put_u32 (len32 s)) s rest,
        read_full-append 8 _ (put_u32 (bits64 (pos index) % 2 ^ 32) ++ put_u32 (len32 s))
            (s ++ rest) out ws (length-header _ _),
        take-append 4 (put_u32 (bits64 (pos index) % 2 ^ 32)) (put_u32 (len32 s))
            (length-put_u32 _),
        drop-append 4 (put_u32 (bits64 (pos index) % 2 ^ 32)) (put_u32 (len32 s))
            (length-put_u32 _),
      )
      (rw (
        u32-put_u32_small (length s) (omega arith),
        le→ltb_false _ _ hs,
        read_full-append (length s) _ s rest out ws refl,
        low_index index hi,
      ))

pub write_chunk_ok :
    (index : ℤ) (s inc out : Text)
    → write_chunk index s (conn inc out []) ≡ (ok tt, conn inc (out ++ chunk_frame index s) [])
unfolding write_chunk
write_chunk_ok index s inc out =
    rw (
      write_ok,
      write_ok,
      append_assoc out (put_u32 (bits64 index % 2 ^ 32) ++ put_u32 (len32 s)) s,
    )

pub length-clip : (n : ℕ) (s : Text) → length (clip n s) ≤ n
unfolding clip
length-clip n s = ground (arith, length-take n s)

-- The reason that a refusal sends: the first 1024 bytes of the error's text.
abbrev pub reason_of : Text → Text
reason_of s = clip max_reason_len s

abbrev pub frame_of : Option Text → Text
frame_of none = verdict_frame verdict_accept []
frame_of (some s) = verdict_frame verdict_refuse (reason_of s)

-- What ReadVerdict makes of an answer.
abbrev pub heard : Option Text → Result Error (Unit {0})
heard none = ok tt
heard (some s) = err (peer_refused (reason_of s))

pub write_verdict_ok :
    (answer : Option Text) (inc out : Text)
    → write_verdict answer (conn inc out []) ≡ (ok tt, conn inc (out ++ frame_of answer) [])
unfolding write_verdict
write_verdict_ok none inc out = write_ok _ _ inc out
write_verdict_ok (some s) inc out = write_ok _ _ inc out

verdict_frame-read :
    (status : ℕ) (reason rest out : Text) (ws : List WriteOutcome)
    → length reason ≤ max_reason_len
    → read_verdict (conn (verdict_frame status reason ++ rest) out ws)
      ≡ (verdict_of status reason, conn rest out ws)
unfolding read_verdict verdict_frame
verdict_frame-read status reason rest out ws h =
    rw
      (
        append_assoc (put_u16 (length reason % 2 ^ 16)) reason rest,
        read_full-append 3 _ (status ∷ put_u16 (length reason % 2 ^ 16)) (reason ++ rest) out ws
            (ap suc (length-put_u16 _)),
        u16-put_u16 (length reason),
      )
      (rw (
        mod-eq_of_lt {n = length reason} {m = 2 ^ 16} (omega arith),
        le→ltb_false _ _ h,
        read_full-append (length reason) _ reason rest out ws refl,
      ))

-- ReadVerdict hears what WriteVerdict said: acceptance, or a refusal with the reason cut to 1024
-- bytes. It leaves what follows the frame.
pub read_verdict-frame_of :
    (answer : Option Text) (rest out : Text) (ws : List WriteOutcome)
    → read_verdict (conn (frame_of answer ++ rest) out ws) ≡ (heard answer, conn rest out ws)
unfolding verdict_of
read_verdict-frame_of none rest out ws =
    verdict_frame-read verdict_accept [] rest out ws (omega arith)
read_verdict-frame_of (some s) rest out ws =
    verdict_frame-read verdict_refuse (reason_of s) rest out ws (length-clip max_reason_len s)
