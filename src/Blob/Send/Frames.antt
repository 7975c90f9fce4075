-- ===== src/Blob/Send/Frames.antt =====
-- What Send puts on the wire, once the peer has accepted.
use edge_grid.Prelude.{
  ℕ, suc, ◌+◌, ◌≡◌, refl, ◌∙◌, false, Text, List, [], ◌∷◌, ◌++◌, Option, some, none, take, drop,
  length, arith, append-nil, append_assoc, take-append, drop-append,
}
use edge_grid.Prelude.Int.{ℤ, pos, pos_part, add64}
use edge_grid.Prelude.Results.{Result, ok, err}
use edge_grid.Disk.{File}
use edge_grid.Disk.Laws.{readable, read_full-piece}
use edge_grid.Json.{Codec}
use edge_grid.Blob.{ChunkInfo, Manifest, Progress}
use edge_grid.Blob.Build.Cuts.{Cuts}
use edge_grid.Blob.Wire.{Error, peer_refused, read_verdict}
use edge_grid.Blob.Wire.RoundTrip.{
  conn, chunk_frame, manifest_frame, frame_of, reason_of, heard, write_chunk_ok, write_manifest_ok,
  read_verdict-frame_of,
}
use edge_grid.Blob.Send.{Sender, read_source, send_chunks, send}

-- One frame for each chunk, in order, with the bytes that stand at its place.
abbrev pub frames : List ChunkInfo → Text → Text
frames [] s = []
frames (c ∷ cs) s =
    chunk_frame c.index (take (pos_part c.length) s) ++ frames cs (drop (pos_part c.length) s)

-- One report for each chunk.
abbrev pub progress : Manifest → ℕ → ℤ → List ChunkInfo → List Progress
progress m i sent [] = []
progress m i sent (c ∷ cs) =
    record {
      chunks_done = i + 1;
      chunks_total = length m.chunks;
      bytes_done = add64 sent c.length;
      bytes_total = m.size;
      verifying = false;
    }
    ∷ progress m (suc i) (add64 sent c.length) cs

abbrev pub sender : Text → Text → File → List Progress → Sender
sender inc out f reports = record { conn = conn inc out []; source = f; reports = reports }

read_source-piece :
    (piece rest inc out : Text) (index : ℤ) (reports : List Progress)
    → read_source (pos (length piece)) index (sender inc out (readable (piece ++ rest)) reports)
      ≡ (ok piece, sender inc out (readable rest) reports)
unfolding read_source
read_source-piece piece rest inc out index reports = ground (arith, read_full-piece piece rest)

-- An answer with nothing behind it.
heard_all :
    (answer : Option Text) (out : Text)
    → read_verdict (conn (frame_of answer) out []) ≡ (heard answer, conn [] out [])
heard_all answer out = rw append-nil at (read_verdict-frame_of answer [] out [])

sender_regroup :
    (inc out front back : Text) (f : File) (reports more : List Progress) (p : Progress)
    → ◌≡◌ {A = Result Error (Unit {0}) × Sender}
        (ok tt, sender inc ((out ++ front) ++ back) f ((reports ++ (p ∷ [])) ++ more))
        (ok tt, sender inc (out ++ (front ++ back)) f (reports ++ (p ∷ more)))
sender_regroup inc out front back f reports more p =
    rw (append_assoc out front back, append_assoc reports (p ∷ []) more)

module _ (sha256_hex : Text → Text) where
  send_chunks_ok :
      (m : Manifest) (n i off k : ℕ) (sent : ℤ) (s : Text) (cs : List ChunkInfo) (inc out : Text)
      (reports : List Progress)
      → Cuts sha256_hex n i off s cs
      → send_chunks m k sent cs (sender inc out (readable s) reports)
        ≡ (ok tt, sender inc (out ++ frames cs s) (readable []) (reports ++ progress m k sent cs))
  unfolding send_chunks
  send_chunks_ok m n i off k sent s [] inc out reports e = rw (e, append-nil, append-nil)
  send_chunks_ok m n i off k sent s (c ∷ cs) inc out reports (piece, rest, e, d, lo, hi, more) =
      rw
        (
          e,
          d,
          read_source-piece,
          write_chunk_ok,
          take-append (length piece) piece rest refl,
          drop-append (length piece) piece rest refl,
        )
        (send_chunks_ok m n (suc i) (off + length piece) (suc k) (add64 sent (pos (length piece)))
            rest cs inc (out ++ chunk_frame (pos i) piece) _ more
          ∙ sender_regroup inc out (chunk_frame (pos i) piece) (frames cs rest) (readable [])
              reports (progress m (suc k) (add64 sent (pos (length piece))) cs) _)

  -- To a peer that accepts and says nothing more, Send of a readable file whose consecutive
  -- pieces the manifest's chunks are writes the manifest and then every chunk in order, reads the
  -- whole file, and reports the progress once for each chunk, if the manifest can be encoded and
  -- no write fails.
  pub send_ok :
      (json : Codec Manifest) (m : Manifest) (body : Text) (n : ℕ) (s out : Text) (f : File)
      → json.marshal m ≡ some body
      → Cuts sha256_hex n 0 0 s m.chunks
      → send json (some (readable s)) m (sender (frame_of none) out f []) ≡ (
        ok tt,
        sender []
            ((out ++ manifest_frame body) ++ frames m.chunks s)
            (readable [])
            (progress m 0 (pos 0) m.chunks),
      )
  unfolding send
  send_ok json m body n s out f h cuts =
      rw (write_manifest_ok json m body h (frame_of none) out, heard_all none _)
        (send_chunks_ok m n 0 0 0 (pos 0) s m.chunks [] (out ++ manifest_frame body) [] cuts)

  -- To a peer that refuses and says nothing more, Send writes the manifest and nothing more, does
  -- not open the file, and returns the peer's reason, cut to 1024 bytes, if the manifest can be
  -- encoded and no write fails.
  pub send_refused :
      (json : Codec Manifest) (m : Manifest) (body reason out : Text) (file : Option File)
      (f : File)
      → json.marshal m ≡ some body
      → send json file m (sender (frame_of (some reason)) out f [])
        ≡ (err (peer_refused (reason_of reason)), sender [] (out ++ manifest_frame body) f [])
  unfolding send
  send_refused json m body reason out file f h =
      rw (write_manifest_ok json m body h (frame_of (some reason)) out, heard_all (some reason) _)
