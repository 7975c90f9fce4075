-- ===== src/Blob/Receive.antt =====
-- Receive and verifyWhole of internal/blob/chunk.go.
pub mod Transfer
pub mod EndToEnd
pub mod Safety
pub mod Asked
pub mod Judged
use edge_grid.Prelude.{
  ℕ, zero, suc, ◌+◌, Bool, true, false, not, ◌&&◌, ◌||◌, Text, List, [], ◌∷◌, ◌++◌, Option, none,
  some, length, ◌==◌, if◌then◌else◌, text_eq,
}
use edge_grid.Prelude.Int.{ℤ, pos, pos_part, eqb_ℤ, ltb_ℤ, add64}
use edge_grid.Prelude.Results.{Result, ok, err, or_fail}
use edge_grid.Proc.{Proc, pure, lift, refuse_when, ◌>>=◌, ◌>>◌}
use edge_grid.Net.{Conn}
use edge_grid.Disk.{truncate, write_at}
use edge_grid.Json.{Codec}
use edge_grid.Blob.{ChunkInfo, Manifest, Progress}
use edge_grid.Blob.Validate.{Invalid, validate, message}
use edge_grid.Blob.Wire.{
  Error, read_manifest, write_verdict, read_chunk, invalid, refused, create_failed, truncate_failed,
  unexpected_chunk, sent_twice, wrong_length, chunk_hash_mismatch, write_chunk_failed, sync_failed,
  seek_failed, reread_failed, blob_hash_mismatch,
}

-- How the calls on the destination file turn out; WriteAt by the index of its chunk.
pub record Outcomes : Type 0 where
  pub creates : Bool
  pub truncates : Bool
  pub writes : ℕ → Bool
  pub syncs : Bool
  pub seeks : Bool
  pub rereads : Bool

abbrev pub all_well : Outcomes
all_well = record {
  creates = true;
  truncates = true;
  writes = λ i. true;
  syncs = true;
  seeks = true;
  rereads = true;
}

-- The connection, the state that `accept` reads and changes, the destination and its contents once
-- it is open, and the calls of onProgress so far.
pub record Receiver (S : Type 0) : Type 0 where
  pub conn : Conn
  pub policy : S
  pub file : Option (Text × Text)
  pub reports : List Progress

-- The map `want`, in which a later chunk of the same index replaces an earlier one.
unfoldable pub want : List ChunkInfo → ℤ → Option ChunkInfo
want [] index = none
want (c ∷ cs) index =
    let rest = want cs index in
    elim rest [ some d ↦ some d | none ↦ if eqb_ℤ c.index index then some c else none ]

-- The map `seen`
unfoldable pub has_seen : List ℕ → ℕ → Bool
has_seen [] index = false
has_seen (i ∷ is) index = i == index || has_seen is index

contents_of : Option (Text × Text) → Text
contents_of none = []
contents_of (some (path, contents)) = contents

-- The checks of one frame against the manifest and the frames before it.
unfoldable pub check_frame : (Text → Text) → Manifest → List ℕ → ℕ → Text → Result Error ChunkInfo
check_frame sha256_hex m seen index bytes = elim (want m.chunks (pos index)) [
  | none ↦ err (unexpected_chunk index)
  | some c ↦
      if has_seen seen index
      then err (sent_twice index)
      else if not (eqb_ℤ (pos (length bytes)) c.length)
      then err (wrong_length index (length bytes) c.length)
      else if not (text_eq (sha256_hex bytes) c.sha256)
      then err (chunk_hash_mismatch index (sha256_hex bytes) c.sha256)
      else ok c
]

module _ {S : Type 0} where
  abbrev pub on_conn : {A : Type 0} → Proc Conn Error A → Proc (Receiver S) Error A
  on_conn m s = let (r, c) = m s.conn in (r, record s { conn = c })

  -- `_ = WriteVerdict(rw, err)` and the return of the error
  refuse : {A : Type 0} → Text → Error → Proc (Receiver S) Error A
  refuse reason e s =
      let (r, c) = write_verdict (some reason) s.conn in (err e, record s { conn = c })

  check_manifest : Manifest → Result Invalid (Unit {0}) → Proc (Receiver S) Error (Unit {0})
  unfolding refuse
  check_manifest m (ok _) = pure tt
  check_manifest m (err e) = refuse (message e) (invalid e)

  -- The answer of `accept`: a path, or the text of an error.
  answered : Result Text Text → Proc (Receiver S) Error Text
  unfolding refuse
  answered (ok path) = pure path
  answered (err reason) = refuse reason (refused reason)

  unfoldable pub ask : (Manifest → Proc S Text Text) → Manifest → Proc (Receiver S) Error Text
  unfolding answered
  ask accept m s = let (r, p) = accept m s.policy in answered r (record s { policy = p })

  set_file : Text → Text → Proc (Receiver S) Error (Unit {0})
  set_file path contents s = (ok tt, record s { file = some (path, contents) })

  report : Progress → Proc (Receiver S) Error (Unit {0})
  report p s = (ok tt, record s { reports = s.reports ++ (p ∷ []) })

  -- f.WriteAt(data, c.Offset), which refuses a negative offset
  write_file : Outcomes → Text → ℕ → ℤ → Text → Proc (Receiver S) Error (Unit {0})
  unfolding contents_of
  write_file disk path index offset bytes s =
      if disk.writes index && not (ltb_ℤ offset (pos 0))
      then (
        ok tt,
        record s { file = some (path, write_at (contents_of s.file) (pos_part offset) bytes) },
      )
      else (err (write_chunk_failed index), s)

  module _ (sha256_hex : Text → Text) (disk : Outcomes) (m : Manifest) (path : Text) where
    -- The loop, with the rounds left, the round i, and `seen` and `got`; it returns the final `got`.
    unfoldable pub receive_chunks : ℕ → ℕ → List ℕ → ℤ → Proc (Receiver S) Error ℤ
    unfolding write_file report
    receive_chunks zero i seen got = pure got
    receive_chunks (suc left) i seen got = do
      (index, bytes) ← on_conn read_chunk
      c ← lift (check_frame sha256_hex m seen index bytes)
      write_file disk path index c.offset bytes
      report (record {
        chunks_done = i + 1;
        chunks_total = length m.chunks;
        bytes_done = add64 got c.length;
        bytes_total = m.size;
        verifying = false;
      })
      receive_chunks left (suc i) (index ∷ seen) (add64 got c.length)

    unfoldable pub verify_whole : Proc (Receiver S) Error (Unit {0})
    unfolding contents_of
    verify_whole s =
        let whole = sha256_hex (contents_of s.file) in
        if not disk.seeks
        then (err seek_failed, s)
        else if not disk.rereads
        then (err reread_failed, s)
        else if not (text_eq whole m.sha256)
        then (err (blob_hash_mismatch whole m.sha256), s)
        else (ok tt, s)

    -- From the verdict on: create the file, take the frames, and check the whole.
    unfoldable pub receive_file : Proc (Receiver S) Error Manifest
    unfolding set_file report
    receive_file = do
      refuse_when (not disk.creates) create_failed
      set_file path []
      refuse_when (not disk.truncates) truncate_failed
      set_file path (truncate (pos_part m.size))
      report (record {
        chunks_done = 0;
        chunks_total = length m.chunks;
        bytes_done = pos 0;
        bytes_total = m.size;
        verifying = false;
      })
      got ← receive_chunks (length m.chunks) 0 [] (pos 0)
      report (record {
        chunks_done = length m.chunks;
        chunks_total = length m.chunks;
        bytes_done = got;
        bytes_total = m.size;
        verifying = true;
      })
      refuse_when (not disk.syncs) sync_failed
      verify_whole
      pure m

  unfoldable pub receive :
      Codec Manifest
      → (Text → Text)
      → Outcomes
      → (Manifest → Proc S Text Text)
      → Proc (Receiver S) Error Manifest
  unfolding check_manifest
  receive json sha256_hex disk accept = do
    m ← on_conn (read_manifest json)
    check_manifest m (validate m)
    path ← ask accept m
    on_conn (write_verdict none)
    receive_file sha256_hex disk m path
