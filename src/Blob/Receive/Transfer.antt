-- ===== src/Blob/Receive/Transfer.antt =====
-- A sender and a receiver together: the frames that Send writes, taken by Receive.
use edge_grid.Prelude.{
  ℕ, suc, ◌+◌, ◌^◌, ◌≤◌, ◌<◌, ◌≡◌, refl, sym, ap, ◌∙◌, false, Text, List, [], ◌∷◌, ◌++◌, Option,
  some, none, length, arith, length-append, append-nil, append_assoc, take-append, drop-append, All,
  text_eq_self, length-replicate,
}
use edge_grid.Prelude.Int.{ℤ, pos, add64, ltb_ℤ}
use edge_grid.Prelude.Results.{Result, ok}
use edge_grid.Disk.Laws.{zeros, write_at-inside, replicate-append}
use edge_grid.Blob.{ChunkInfo, Manifest, Progress, max_chunk_size}
use edge_grid.Blob.Build.Cuts.{Cuts, chunk_of}
use edge_grid.Blob.Wire.{Error}
use edge_grid.Blob.Wire.RoundTrip.{conn, chunk_frame, read_chunk-frame}
use edge_grid.Blob.Send.Frames.{frames, progress}
use edge_grid.Blob.Receive.{Receiver, all_well, want, has_seen, check_frame, receive_chunks}

want-append :
    (done cs : List ChunkInfo) (index : ℤ) (c : ChunkInfo)
    → want cs index ≡ some c
    → want (done ++ cs) index ≡ some c
unfolding want
want-append [] cs index c h = h
want-append (d ∷ done) cs index c h = rw (want-append done cs index c h, want)

not_seen : (seen : List ℕ) (i : ℕ) → All (λ j. j < i) seen → has_seen seen i ≡ false
unfolding has_seen
not_seen [] i h = refl
not_seen (j ∷ seen) i (h, hs) = ground (arith, not_seen seen i hs)

All-lt_suc : (seen : List ℕ) (i : ℕ) → All (λ j. j < i) seen → All (λ j. j < suc i) seen
All-lt_suc [] i h = tt
All-lt_suc (j ∷ seen) i (h, hs) = (omega arith, All-lt_suc seen i hs)

module _ (sha256_hex : Text → Text) where
  -- No chunk behind position j has an earlier index.
  want_later :
      (n i j off : ℕ) (s : Text) (cs : List ChunkInfo)
      → i < j
      → Cuts sha256_hex n j off s cs
      → want cs (pos i) ≡ none
  unfolding want
  want_later n i j off s [] h cuts = refl
  want_later n i j off s (c ∷ cs) h (piece, rest, e, d, lo, hi, more) = ground (
    arith,
    want_later n i (suc j) (off + length piece) rest cs (omega arith) more,
    ap (λ (x : ChunkInfo). x.index) d,
  )

  want_next :
      (n i off : ℕ) (s : Text) (c : ChunkInfo) (cs : List ChunkInfo)
      → Cuts sha256_hex n i off s (c ∷ cs)
      → want (c ∷ cs) (pos i) ≡ some c
  unfolding want
  want_next n i off s c cs (piece, rest, e, d, lo, hi, more) = ground (
    arith,
    want_later n i (suc i) (off + length piece) rest cs (omega arith) more,
    ap (λ (x : ChunkInfo). x.index) d,
  )

  -- A frame that stands next in the manifest passes the checks.
  check_frame_ok :
      (m : Manifest) (seen : List ℕ) (i off : ℕ) (piece : Text)
      → want m.chunks (pos i) ≡ some (chunk_of sha256_hex i off piece)
      → All (λ j. j < i) seen
      → check_frame sha256_hex m seen i piece ≡ ok (chunk_of sha256_hex i off piece)
  unfolding check_frame
  check_frame_ok m seen i off piece h old =
      rw (h, check_frame) (ground (arith, not_seen seen i old, text_eq_self (sha256_hex piece)))

module _ {S : Type 0} where
  abbrev pub receiver : Text → Text → S → Option (Text × Text) → List Progress → Receiver S
  receiver inc out policy file reports = record {
    conn = conn inc out [];
    policy = policy;
    file = file;
    reports = reports;
  }

module _ {S : Type 0} (sha256_hex : Text → Text) (m : Manifest) (path out : Text) (policy : S) where
  abbrev round_of : ℕ → ℤ → ℤ → Progress
  round_of k got n = record {
    chunks_done = k + 1;
    chunks_total = length m.chunks;
    bytes_done = add64 got n;
    bytes_total = m.size;
    verifying = false;
  }

  nonnegative : (a : ℕ) → ltb_ℤ (pos a) (pos 0) ≡ false
  nonnegative a = ground arith

  -- One round on the frame that stands next.
  receive_step :
      (left i k : ℕ) (seen : List ℕ) (got : ℤ) (front piece back rest : Text)
      (reports : List Progress)
      → want m.chunks (pos i) ≡ some (chunk_of sha256_hex i (length front) piece)
      → All (λ j. j < i) seen
      → i < 2 ^ 32
      → length piece ≤ max_chunk_size
      → receive_chunks {S = S} sha256_hex all_well m path (suc left) k seen got (
          receiver
            (chunk_frame (pos i) piece ++ rest)
            out
            policy
            (some (path, front ++ (zeros (length piece) ++ back)))
            reports)
        ≡ receive_chunks sha256_hex all_well m path left
            (suc k)
            (i ∷ seen)
            (add64 got (pos (length piece)))
            (receiver rest out policy
              (some (path, front ++ (piece ++ back)))
              (reports ++ (round_of k got (pos (length piece)) ∷ [])))
  unfolding receive_chunks
  receive_step left i k seen got front piece back rest reports h old hi hl = rw (
    read_chunk-frame i piece rest out [] hi hl,
    check_frame_ok sha256_hex m seen i (length front) piece h old,
    write_at-inside front (zeros (length piece)) back piece (length-replicate (length piece) 0),
    nonnegative (length front),
  )

  abbrev pub got_after : ℤ → List ChunkInfo → ℤ
  got_after got [] = got
  got_after got (c ∷ cs) = got_after (add64 got c.length) cs

  regroup :
      (rest front piece more : Text) (reports ps : List Progress) (p : Progress) (got : ℤ)
      → ◌≡◌ {A = Result Error ℤ × Receiver S}
          (
            ok got,
            receiver rest out policy
                (some (path, (front ++ piece) ++ more))
                ((reports ++ (p ∷ [])) ++ ps),
          )
          (
            ok got,
            receiver rest out policy (some (path, front ++ (piece ++ more))) (reports ++ (p ∷ ps)),
          )
  regroup rest front piece more reports ps p got =
      rw (append_assoc front piece more, append_assoc reports (p ∷ []) ps)

  pub receive_chunks_ok :
      (n i off k : ℕ) (seen : List ℕ) (got : ℤ) (done cs : List ChunkInfo) (front s rest : Text)
      (reports : List Progress)
      → Cuts sha256_hex n i off s cs
      → m.chunks ≡ done ++ cs
      → All (λ j. j < i) seen
      → off ≡ length front
      → n ≤ max_chunk_size
      → i + length cs ≤ 2 ^ 32
      → receive_chunks {S = S} sha256_hex all_well m path (length cs) k seen got (
          receiver
            (frames cs s ++ rest)
            out
            policy
            (some (path, front ++ zeros (length s)))
            reports)
        ≡ (
          ok (got_after got cs),
          receiver rest out policy (some (path, front ++ s)) (reports ++ progress m k got cs),
        )
  receive_chunks_ok n i off k seen got done [] front s rest reports e split old ho hn hi =
      rw (e, append-nil, append-nil reports) (unfold receive_chunks in refl)
  receive_chunks_ok n i off k seen got done (c ∷ cs) front s rest reports
        (piece, more, e, d, lo, hi', tail) split old ho hn hi =
      rw
        (
          e,
          d,
          take-append (length piece) piece more refl,
          drop-append (length piece) piece more refl,
          length-append piece more,
          replicate-append (length piece) (length more),
        )
        (ap
            (λ (t : Text).
              receive_chunks {S = S} sha256_hex all_well m path (suc (length cs)) k seen got (
                receiver t out policy (some (path, front ++ (zeros (length piece) ++ back)))
                  reports))
            (append_assoc (chunk_frame (pos i) piece) (frames cs more) rest)
          ∙ receive_step (length cs) i k seen got front piece back (frames cs more ++ rest) reports
              next old (omega arith) (omega arith)
          ∙ ap
              (λ (t : Text).
                receive_chunks {S = S} sha256_hex all_well m path (length cs) (suc k) (i ∷ seen)
                  got'
                  (receiver (frames cs more ++ rest) out policy (some (path, t))
                    (reports ++ (p ∷ []))))
              (sym (append_assoc front piece back))
          ∙ receive_chunks_ok n (suc i) (off + length piece) (suc k) (i ∷ seen) got'
              (done ++ (c ∷ [])) cs (front ++ piece) more rest (reports ++ (p ∷ [])) tail
              (split ∙ sym (append_assoc done (c ∷ []) cs)) (omega arith, All-lt_suc seen i old)
              (omega (arith, length-append front piece)) hn (omega arith)
          ∙ regroup rest front piece more reports (progress m (suc k) got' cs) p
              (got_after got' cs))
    where
      back : Text
      back = zeros (length more)

      got' : ℤ
      got' = add64 got (pos (length piece))

      p : Progress
      p = round_of k got (pos (length piece))

      next : want m.chunks (pos i) ≡ some (chunk_of sha256_hex i (length front) piece)
      next =
          ap (λ (l : List ChunkInfo). want l (pos i)) split
          ∙ want-append done (c ∷ cs) (pos i) c
              (want_next sha256_hex n i off s c cs (piece, more, e, d, lo, hi', tail))
          ∙ ap some (d ∙ ap (λ (a : ℕ). chunk_of sha256_hex i a piece) ho)
