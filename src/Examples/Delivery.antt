-- ===== src/Examples/Delivery.antt =====
-- One file of six bytes from SendBlob of a node to the inbox of another (internal/node).
use edge_grid.Prelude.{
  ◌≤◌, ◌*◌, ◌≡◌, ◌⊎◌, refl, true, false, [], ◌∷◌, ◌++◌, some, none, codes, show, length, text_eq,
  is_empty, if◌then◌else◌, arith,
}
use edge_grid.Prelude.Int.{pos, add64}
use edge_grid.Prelude.Results.{ok, err}
use edge_grid.Prelude.Path.{base_name}
use edge_grid.Disk.Laws.{readable}
use edge_grid.Net.{Conn}
use edge_grid.Blob.{Manifest, default_chunk_size, max_chunks}
use edge_grid.Blob.Build.{build_manifest, build_loop, add_chunk, effective_size}
use edge_grid.Blob.SafeName.{safe_name}
use edge_grid.Blob.Send.Frames.{frames}
use edge_grid.Blob.Wire.{Error, read_manifest}
use edge_grid.Blob.Wire.RoundTrip.{conn, manifest_frame, frame_of}
use edge_grid.Discovery.Hello.{intent_blob, intent_task}
use edge_grid.Discovery.Hello.Exchange.{hello_frame}
use edge_grid.Node.Accept.{Acl, check_accept, max_blob_bytes, scan_int}
use edge_grid.Node.Inbox.{has_name, candidate, reserve_inbox_file}
use edge_grid.Node.Inbound.{receive_blob}
use edge_grid.Node.Inbound.Kept.{Stores, receive_blob-kept}
use edge_grid.Node.Inbound.Recorded
use edge_grid.Node.Inbound.Recorded.{receive_blob-recorded}
use edge_grid.Node.Outbound.{manifest_for, send_blob, send_blob_media_type}
use edge_grid.Node.Outbound.Recorded as Settled
use edge_grid.Node.Outbound.Recorded.{send_blob-Recorded}
use edge_grid.Node.Peers.{handle, self_hello}
use edge_grid.Node.Peers.Routed.{Greeted, handle-Touches}
use edge_grid.Node.Peers.Delivery.{Greeting, Offered, connected, welcoming, written, file_delivered}
use edge_grid.Examples.Nodes.{
  acl, alpha, answers, arriving, beta, body, codecs, contents, departing, free_node, hash, hellos,
  inbox_node, send_node, sent_file, source, space, world,
}

fits : length contents ≤ default_chunk_size * max_chunks
fits = omega arith

built :
    build_manifest hash source send_blob_media_type (pos 0) (some (readable contents))
    ≡ ok sent_file
unfolding build_manifest hash effective_size build_loop edge_grid.Disk.read_full is_empty base_name
    add_chunk add64
built = refl

abbrev offered : Offered codecs source contents body sent_file
offered = record {
  fits = fits;
  built = built;
  encoded = refl;
  decoded = unfold text_eq in refl;
  small = omega arith;
}

abbrev greeting : Greeting hellos (codes "n1") answers (codes "n1") (codes "n2")
greeting = record {
  mine_encoded = unfold self_hello in refl;
  mine_decoded = unfold self_hello text_eq in refl;
  mine_fits = omega arith;
  yours_encoded = refl;
  yours_decoded = unfold text_eq in refl;
  yours_fits = omega arith;
}

allowed : check_accept codecs.parse_time acl [] space (codes "nAlpha") (pos 6) ≡ ok tt
unfolding check_accept edge_grid.Node.Accept.allowed edge_grid.Node.Acl.lookup
    edge_grid.Node.Acl.valid_stable_id edge_grid.Node.Acl.default_allows
    edge_grid.Node.Accept.check_space max_blob_bytes scan_int is_empty text_eq
    edge_grid.Prelude.Lines.trim_space edge_grid.Prelude.Lines.trim_space_left
    edge_grid.Prelude.Lines.trim_space_right edge_grid.Node.Acl.get
allowed = refl

free :
    reserve_inbox_file (λ n. true) (safe_name (codes "a.txt")) inbox_node.names
    ≡ (ok (codes "a (1).txt"), codes "a (1).txt" ∷ inbox_node.names)
unfolding reserve_inbox_file edge_grid.Node.Inbox.reserve_loop has_name text_eq candidate is_empty
    edge_grid.Node.Inbox.stem edge_grid.Node.Inbox.ext show safe_name
    edge_grid.Prelude.Lines.trim_space edge_grid.Prelude.Lines.trim_space_left
    edge_grid.Prelude.Lines.trim_space_right edge_grid.Prelude.Path.trim_left
    edge_grid.Prelude.Path.trim_right edge_grid.Prelude.Lines.cut
    edge_grid.Blob.SafeName.windows_reserved edge_grid.Blob.SafeName.keep_runes
    edge_grid.Prelude.Utf8.rune_len
free = refl

file_delivered_example :
    let reply = hello_frame (codes "n2") ++ frame_of none in
    let sent =
      send_blob codecs.manifest codecs.hello codecs.sha256_hex codecs.error_text
        (connected contents (conn reply [] []) departing)
        (codes "n1")
        beta
        source
        none
        send_node in
    let got =
      handle codecs
        (welcoming alpha world)
        answers
        (conn (written sent.conn) [] [])
        inbox_node
        free_node in
    (sent.result ≡ ok tt)
    × (got.file ≡ some (codes "a (1).txt", contents))
    × (has_name (codes "a (1).txt") inbox_node.names ≡ false)
    × (got.blob.names ≡ codes "a (1).txt" ∷ inbox_node.names)
    × (got.conn.outgoing ≡ reply)
    × (got.tasks ≡ free_node)
file_delivered_example =
    file_delivered codecs contents source (codes "n1") (codes "n2") body (codes "n1") sent_file
      answers offered greeting world alpha (codes "a (1).txt")
      (codes "a (1).txt" ∷ inbox_node.names) inbox_node free_node allowed free departing beta
      send_node

-- What arrives behind the greeting.
abbrev transfer : Conn
transfer = conn (manifest_frame body ++ frames sent_file.chunks contents) [] []

receive_blob-kept_example :
    let f =
      receive_blob codecs.manifest hash codecs.parse_time codecs.error_text arriving
        (some alpha)
        (codes "n1")
        transfer
        inbox_node in
    (((e : Error) × (f.result ≡ some (err e)) × (f.node.names ≡ inbox_node.names))
      ⊎ Stores codecs.manifest hash codecs.parse_time codecs.error_text arriving
          (some alpha)
          inbox_node
          f)
receive_blob-kept_example =
    receive_blob-kept codecs.manifest hash codecs.parse_time codecs.error_text arriving (some alpha)
      (codes "n1") transfer inbox_node refl refl

receive_blob-recorded_example :
    Recorded.Leaves codecs.manifest hash codecs.parse_time codecs.error_text arriving
      (some alpha)
      (codes "n1")
      []
      (read_manifest codecs.manifest transfer).0
      (receive_blob codecs.manifest hash codecs.parse_time codecs.error_text arriving
        (some alpha)
        (codes "n1")
        transfer
        inbox_node)
receive_blob-recorded_example =
    receive_blob-recorded codecs.manifest hash codecs.parse_time codecs.error_text arriving
      (some alpha) (codes "n1") inbox_node [] refl refl refl transfer refl

handle-Touches_example :
    let s =
      handle codecs world answers (conn (hello_frame (codes "n1")) [] []) inbox_node free_node in
    let greeted = Greeted codecs world answers (conn (hello_frame (codes "n1")) [] []) in
    ((s.blob ≡ inbox_node) ⊎ greeted intent_blob)
    × ((s.tasks ≡ free_node) ⊎ greeted intent_task)
    × ((s.task ≡ none) ⊎ greeted intent_task)
    × ((s.file ≡ none) ⊎ greeted intent_blob)
handle-Touches_example =
    handle-Touches codecs world answers (conn (hello_frame (codes "n1")) [] []) inbox_node free_node

send_blob-Recorded_example :
    Settled.Recorded codecs.manifest codecs.hello hash codecs.error_text departing
      (codes "n1")
      beta
      []
      (manifest_for hash source departing.stat departing.file (some sent_file))
      (send_blob codecs.manifest codecs.hello hash codecs.error_text departing
        (codes "n1")
        beta
        source
        (some sent_file)
        send_node)
send_blob-Recorded_example =
    send_blob-Recorded codecs.manifest codecs.hello hash codecs.error_text departing (codes "n1")
      beta send_node [] refl refl refl source (some sent_file)
