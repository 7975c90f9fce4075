-- ===== src/Blob/Receive/EndToEnd.antt =====
-- From a file on one node to the same file on the other.
use edge_grid.Prelude.{
  ℕ, ◌*◌, ◌≤◌, ◌≡◌, refl, sym, ap, true, false, Text, [], ◌∷◌, ◌++◌, some, none, length, arith,
  append-nil, text_eq, text_eq_iff,
}
use edge_grid.Prelude.Int.{ℤ, pos, pos_part}
use edge_grid.Prelude.Results.{Result, ok}
use edge_grid.Proc.{Proc}
use edge_grid.Disk.{File, truncate}
use edge_grid.Disk.Laws.{readable, zeros}
use edge_grid.Json.{Codec}
use edge_grid.Blob.{Manifest, Progress, max_chunk_size, max_chunks}
use edge_grid.Blob.Build.{build_manifest, effective_size}
use edge_grid.Blob.Build.Cuts.{Cuts}
use edge_grid.Blob.Build.Outcome.{built-Describes}
use edge_grid.Blob.Validate.{validate}
use edge_grid.Blob.Validate.Spec.{validate_iff}
use edge_grid.Blob.Wire.{Error, max_manifest_size}
use edge_grid.Blob.Wire.RoundTrip.{
  manifest_frame, frame_of, conn, read_manifest-frame, write_verdict_ok,
}
use edge_grid.Blob.Send.{send}
use edge_grid.Blob.Send.Frames.{frames, progress, sender, send_ok}
use edge_grid.Blob.Receive.{
  Receiver, all_well, receive_chunks, receive_file, receive, ask, verify_whole,
}
use edge_grid.Blob.Receive.Transfer.{receiver, receive_chunks_ok, got_after}

module _ {S : Type 0} (sha256_hex : Text → Text) (m : Manifest) (path s : Text) where
  abbrev pub Delivered : Result Error Manifest × Receiver S → Text → S → Type 0
  Delivered (r, t) out policy =
      (r ≡ ok m) × (t.file ≡ some (path, s)) × (t.policy ≡ policy) × (t.conn ≡ conn [] out [])

  receive_file_ok :
      (n : ℕ) (out : Text) (policy : S)
      → n ≤ max_chunk_size
      → length m.chunks ≤ max_chunks
      → m.size ≡ pos (length s)
      → m.sha256 ≡ sha256_hex s
      → Cuts sha256_hex n 0 0 s m.chunks
      → Delivered
          (receive_file sha256_hex all_well m path
            (receiver (frames m.chunks s) out policy none []))
          out
          policy
  unfolding receive_file truncate verify_whole
  receive_file_ok n out policy hn few size hash cuts = rw (ap pos_part size) (
      rw run (
        rw (whole, verify_whole),
        rw (whole, verify_whole),
        rw (whole, verify_whole),
        rw (whole, verify_whole),
      ))
    where
      whole : text_eq (sha256_hex s) m.sha256 ≡ true
      whole = (text_eq_iff _ _).1 (sym hash)

      start : Progress
      start = record {
        chunks_done = 0;
        chunks_total = length m.chunks;
        bytes_done = pos 0;
        bytes_total = m.size;
        verifying = false;
      }

      run :
          receive_chunks {S = S} sha256_hex all_well m path
            (length m.chunks)
            0
            []
            (pos 0)
            (receiver (frames m.chunks s) out policy (some (path, zeros (length s))) (start ∷ []))
          ≡ (
            ok (got_after sha256_hex m path out policy (pos 0) m.chunks),
            receiver [] out policy (some (path, s)) (start ∷ progress m 0 (pos 0) m.chunks),
          )
      run = rw append-nil at (
          receive_chunks_ok sha256_hex m path out policy n 0 0 0 [] (pos 0) [] m.chunks [] s []
            (start ∷ []) cuts refl tt refl hn (omega arith))

  -- A frame of a valid manifest and the frames of its chunks, from a peer that `accept` lets in.
  pub receive_ok :
      (json : Codec Manifest) (accept : Manifest → Proc S Text Text) (body out : Text) (n : ℕ)
      (policy policy' : S)
      → json.unmarshal body ≡ some m
      → length body ≤ max_manifest_size
      → validate m ≡ ok tt
      → accept m policy ≡ (ok path, policy')
      → n ≤ max_chunk_size
      → m.size ≡ pos (length s)
      → m.sha256 ≡ sha256_hex s
      → Cuts sha256_hex n 0 0 s m.chunks
      → Delivered
          (receive json sha256_hex all_well accept
            (receiver (manifest_frame body ++ frames m.chunks s) out policy none []))
          (out ++ frame_of none)
          policy'
  unfolding receive ask
  receive_ok json accept body out n policy policy' decoded fits valid asked hn size hash cuts =
      rw
        (
          read_manifest-frame json m body decoded fits (frames m.chunks s) out [],
          valid,
          ask,
          asked,
          write_verdict_ok none (frames m.chunks s) out,
        )
        (receive_file_ok n (out ++ frame_of none) policy' hn ((validate_iff m).0 valid).count size
          hash cuts)

-- A file of which BuildManifest made the manifest, in chunks of 64 MiB at most and 1048576 of
-- them at most, goes over whole: what Send writes to a peer that accepts, Receive with an
-- `accept` that answers with a path turns into the same bytes at that path, if no read or write
-- fails, the manifest's JSON fits its limit and decodes to the manifest. Receive returns the
-- manifest, and has sent an accepting verdict and nothing else.
pub transfer_whole :
    {S : Type 0} (sha256_hex : Text → Text) (json : Codec Manifest)
    (accept : Manifest → Proc S Text Text) (source media_type : Text) (chunk_size : ℤ) (s : Text)
    (m : Manifest) (body path : Text) (policy policy' : S) (f : File)
    → effective_size chunk_size ≤ max_chunk_size
    → length s ≤ effective_size chunk_size * max_chunks
    → build_manifest sha256_hex source media_type chunk_size (some (readable s)) ≡ ok m
    → json.marshal m ≡ some body
    → json.unmarshal body ≡ some m
    → length body ≤ max_manifest_size
    → accept m policy ≡ (ok path, policy')
    → let sent = send json (some (readable s)) m (sender (frame_of none) [] f []) in
      (sent.0 ≡ ok tt)
      × Delivered sha256_hex m path s
          (receive json sha256_hex all_well accept
            (receiver sent.1.conn.outgoing [] policy none []))
          (frame_of none)
          policy'
transfer_whole sha256_hex json accept source media_type chunk_size s m body path policy policy' f hn
      fits built encoded decoded small asked =
    let n = effective_size chunk_size in
    let (valid, hash, size, cuts) =
      built-Describes sha256_hex source media_type chunk_size s m hn fits built in
    rw (send_ok sha256_hex json m body n s [] f encoded cuts) (
      refl,
      receive_ok sha256_hex m path s json accept body [] n policy policy' decoded small valid asked
          hn size hash cuts,
    )
