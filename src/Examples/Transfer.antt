-- ===== src/Examples/Transfer.antt =====
-- One file of six bytes, in chunks of four, from one node to another (internal/blob).
use edge_grid.Prelude.{
  ℕ, ◌≤◌, ◌≡◌, ◌↔◌, refl, ap, ◌*◌, Text, [], ◌∷◌, ◌++◌, codes, show, length, text_eq, some, none,
  if◌then◌else◌, arith, suc, false, is_empty,
}
use edge_grid.Prelude.Int.{pos}
use edge_grid.Prelude.Results.{Result, ok, err}
use edge_grid.Proc.{Proc}
use edge_grid.Disk.{File}
use edge_grid.Disk.Laws.{readable}
use edge_grid.Net.{u32, receiving}
use edge_grid.Prelude.Int.{add64}
use edge_grid.Prelude.Path.{base_name}
use edge_grid.Json.{Codec}
use edge_grid.Blob.{Manifest, max_chunk_size, max_chunks}
use edge_grid.Blob.Validate.{validate}
use edge_grid.Blob.Validate.Spec.{IsValid, validate_iff}
use edge_grid.Blob.Build.{build_manifest, effective_size, build_loop, add_chunk}
use edge_grid.Blob.Build.Cuts.{Cuts}
use edge_grid.Blob.Wire.{Error, read_manifest, read_chunk, peer_refused}
use edge_grid.Blob.Wire.RoundTrip.{conn, manifest_frame, frame_of, reason_of, read_manifest-frame}
use edge_grid.Blob.Send.{send}
use edge_grid.Blob.Send.Frames.{sender, send_refused}
use edge_grid.Blob.Receive.{Receiver, receive, all_well}
use edge_grid.Blob.Receive.Transfer.{receiver}
use edge_grid.Blob.Receive.Safety.{receive-ok}
use edge_grid.Blob.Receive.EndToEnd.{Delivered, transfer_whole}

-- A stand-in for SHA-256, and a codec that knows one value and its text.
hash : Text → Text
hash s = show (length s)

abbrev known : {A : Type 0} → A → Text → Codec A
known a body = record {
  marshal = λ _. some body;
  unmarshal = λ s. if text_eq s body then some a else none;
}

abbrev contents : Text
contents = codes "hello!"

abbrev whole : Manifest
whole = record {
  name = codes "a.txt";
  media_type = codes "text/plain";
  size = pos 6;
  sha256 = show 6;
  chunks =
      record { index = pos 0; offset = pos 0; length = pos 4; sha256 = show 4 }
      ∷ record { index = pos 1; offset = pos 4; length = pos 2; sha256 = show 2 }
      ∷ [];
}

abbrev body : Text
body = codes "{}"

abbrev on_disk : File
on_disk = record { contents = []; broken = false }

-- The policy counts the offers.
accept_all : Manifest → Proc ℕ Text Text
accept_all m n = (ok (codes "inbox/a.txt"), suc n)

small : effective_size (pos 4) ≤ max_chunk_size
unfolding effective_size
small = omega arith

few : length contents ≤ effective_size (pos 4) * max_chunks
unfolding effective_size
few = omega arith

built :
    build_manifest hash
      (codes "/home/a.txt")
      (codes "text/plain")
      (pos 4)
      (some (readable contents))
    ≡ ok whole
unfolding build_manifest hash effective_size build_loop edge_grid.Disk.read_full is_empty base_name
    add_chunk add64
built = refl

decoded : (known whole body).unmarshal body ≡ some whole
unfolding text_eq
decoded = refl

asked : accept_all whole 0 ≡ (ok (codes "inbox/a.txt"), 1)
unfolding accept_all
asked = refl

cut_up : Cuts hash 4 0 0 contents whole.chunks
unfolding hash
cut_up = (
  codes "hell",
  codes "o!",
  refl,
  refl,
  omega arith,
  omega arith,
  (codes "o!", [], refl, refl, omega arith, omega arith, refl),
)

validate_iff_example : (validate whole ≡ ok tt) ↔ IsValid whole
validate_iff_example = validate_iff whole

read_manifest-frame_example :
    read_manifest (known whole body) (conn (manifest_frame body ++ codes "next") [] [])
    ≡ (ok whole, conn (codes "next") [] [])
read_manifest-frame_example =
    read_manifest-frame (known whole body) whole body decoded (omega arith) (codes "next") [] []

chunk_read :
    read_chunk (receiving (0 ∷ 0 ∷ 0 ∷ 1 ∷ 0 ∷ 0 ∷ 0 ∷ 2 ∷ codes "o!x"))
    ≡ (ok (1, codes "o!"), receiving (codes "x"))
unfolding read_chunk edge_grid.Net.read_full u32
chunk_read = refl

send_refused_example :
    send (known whole body) none whole (sender (frame_of (some (codes "no"))) [] on_disk []) ≡ (
      err (peer_refused (reason_of (codes "no"))),
      sender [] ([] ++ manifest_frame body) on_disk [],
    )
send_refused_example =
    send_refused hash (known whole body) whole body (codes "no") [] none on_disk refl

transfer_whole_example :
    let sent =
      send
        (known whole body)
        (some (readable contents))
        whole
        (sender (frame_of none) [] on_disk []) in
    (sent.0 ≡ ok tt)
    × Delivered hash whole
        (codes "inbox/a.txt")
        contents
        (receive
          (known whole body)
          hash
          all_well
          accept_all
          (receiver sent.1.conn.outgoing [] 0 none []))
        (frame_of none)
        1
transfer_whole_example =
    transfer_whole hash (known whole body) accept_all (codes "/home/a.txt") (codes "text/plain")
      (pos 4) contents whole body (codes "inbox/a.txt") 0 1 on_disk small few built refl decoded
      (omega arith) asked

-- The receiver of that transfer.
abbrev arriving : Receiver ℕ
arriving =
    receiver
      (send (known whole body) (some (readable contents)) whole
        (sender (frame_of none) [] on_disk [])).1.conn.outgoing
      [] 0 none []

arrived :
    receive (known whole body) hash all_well accept_all arriving
    ≡ (ok whole, (receive (known whole body) hash all_well accept_all arriving).1)
arrived =
    ap
      (λ (r : Result Error Manifest).
        (r, (receive (known whole body) hash all_well accept_all arriving).1))
      transfer_whole_example.1.0

receive-ok_example :
    (validate whole ≡ ok tt)
    × ((path : Text) × ((accept_all whole 0).0 ≡ ok path)
        × ((x : Text) × ((receive (known whole body) hash all_well accept_all arriving).1.file
              ≡ some (path, x))
            × (hash x ≡ whole.sha256)))
receive-ok_example = receive-ok (known whole body) hash all_well accept_all arriving _ whole arrived
