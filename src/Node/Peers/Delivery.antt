-- ===== src/Node/Peers/Delivery.antt =====
-- A file from SendBlob of one node to the inbox of another.
use edge_grid.Prelude.{
  ◌*◌, ◌≤◌, ◌≡◌, refl, ap, ◌∙◌, true, false, Text, [], ◌∷◌, ◌++◌, Option, none, some, length,
  append_assoc, arith,
}
use edge_grid.Prelude.Int.{pos}
use edge_grid.Prelude.Results.{ok}
use edge_grid.Net.{Conn}
use edge_grid.Disk.Laws.{readable}
use edge_grid.Json.{Codec}
use edge_grid.Blob.{Manifest, max_chunks, default_chunk_size}
use edge_grid.Blob.Build.{build_manifest, effective_size}
use edge_grid.Blob.Build.Outcome.{built-Describes}
use edge_grid.Blob.SafeName.{safe_name}
use edge_grid.Blob.Wire.{max_manifest_size}
use edge_grid.Blob.Wire.RoundTrip.{conn, frame_of, manifest_frame}
use edge_grid.Blob.Send.Frames.{send_ok, frames}
use edge_grid.Blob.Receive.{all_well}
use edge_grid.Blob.Receive.EndToEnd.{receive_ok}
use edge_grid.Discovery.Hello.{Hello, max_hello_size, intent_blob}
use edge_grid.Discovery.Hello.Exchange.{hello_frame, dialer_greets, listener_greets}
use edge_grid.Discovery.Members.{Peer}
use edge_grid.Node.Accept.{check_accept}
use edge_grid.Node.Inbox.{Names, has_name, reserve_inbox_file}
use edge_grid.Node.Inbox.Reserved.{reserve_inbox_file-fresh}
use edge_grid.Node.Inbound.{WhoIs, BlobNode, accept, unasked, label_of, stable_id_of}
use edge_grid.Node.Outbound
use edge_grid.Node.Outbound.Sent.{SentOn, send_blob-SentOn}
use edge_grid.Node.Inbound.Stored.{accept_ok, receive_blob-Leaves}
use edge_grid.Node.Outbound.{no_file, SendNode, send_blob, send_blob_media_type, manifest_for}
use edge_grid.Node.Tasks.{TaskNode}
use edge_grid.Node.Peers.{
  Codecs, World, Served, handle, handle_as, greeted, handle_peer, self_hello, serve_blob, from_blob,
}

-- A sender that can read the file and whose dial and deadlines go through.
abbrev pub connected : Text → Conn → Outbound.Outside → Outbound.Outside
connected s c o = record o {
  file = some (readable s);
  dial = some c;
  greeting_deadline = true;
  sets_deadline = true;
}

-- A receiver that knows the peer, and whose deadlines, inbox and disk are well.
abbrev pub welcoming : WhoIs → World → World
welcoming who w = record w {
  who = some who;
  greeting_deadline = true;
  blob = record w.blob { sets_deadline = true; makes_inbox = true; disk = all_well };
}

abbrev pub written : Option Conn → Text
written none = []
written (some c) = c.outgoing

-- The greeting that opens a transfer, with the two hellos in their frames.
pub record Greeting (codec : Codec Hello) (node_id : Text) (yours : Hello) (a b : Text)
    : Type 0 where
  pub mine_encoded : codec.marshal (self_hello node_id intent_blob) ≡ some a
  pub mine_decoded : codec.unmarshal a ≡ some (self_hello node_id intent_blob)
  pub mine_fits : length a ≤ max_hello_size
  pub yours_encoded : codec.marshal yours ≡ some b
  pub yours_decoded : codec.unmarshal b ≡ some yours
  pub yours_fits : length b ≤ max_hello_size

-- The manifest of the file, and its JSON.
pub record Offered (codecs : Codecs) (source s body : Text) (m : Manifest) : Type 0 where
  pub fits : length s ≤ default_chunk_size * max_chunks
  pub built :
      build_manifest codecs.sha256_hex source send_blob_media_type (pos 0) (some (readable s))
      ≡ ok m
  pub encoded : codecs.manifest.marshal m ≡ some body
  pub decoded : codecs.manifest.unmarshal body ≡ some m
  pub small : length body ≤ max_manifest_size

module _ (codecs : Codecs) (s source a b body node_id : Text) (m : Manifest) (yours : Hello)
    (f : Offered codecs source s body m) (g : Greeting codecs.hello node_id yours a b) where
  sending :
      (o : Outbound.Outside) (peer : Peer) (n : SendNode)
      → SentOn (conn [] ((hello_frame a ++ manifest_frame body) ++ frames m.chunks s) []) (
          send_blob codecs.manifest codecs.hello codecs.sha256_hex codecs.error_text
            (connected s (conn (hello_frame b ++ frame_of none) [] []) o)
            node_id
            peer
            source
            none
            n)
  unfolding manifest_for self_hello effective_size
  sending o peer n =
      let (valid, hash, size, cuts) =
        built-Describes codecs.sha256_hex source send_blob_media_type (pos 0) s m (omega arith)
          f.fits f.built in
      send_blob-SentOn codecs.manifest codecs.hello codecs.sha256_hex codecs.error_text
        (connected s (conn (hello_frame b ++ frame_of none) [] []) o) node_id peer m n yours
        (conn (hello_frame b ++ frame_of none) [] []) (conn (frame_of none) (hello_frame a) []) _
        (dialer_greets codecs.hello (self_hello node_id intent_blob) yours a b (frame_of none)
          g.mine_encoded g.yours_decoded g.yours_fits)
        refl
        (send_ok codecs.sha256_hex codecs.manifest m body _ s (hello_frame a) no_file f.encoded
          cuts)
        source none f.built refl

  module _ (w : World) (who : WhoIs) (path : Text) (names : Names) (blob : BlobNode)
      (tasks : TaskNode)
      (allowed : check_accept codecs.parse_time w.blob.acl w.blob.override w.blob.space
          who.stable_id m.size
        ≡ ok tt)
      (free : reserve_inbox_file w.blob.opens (safe_name m.name) blob.names
        ≡ (ok path, names)) where
    -- What the receiver has in the end.
    Arrived : Text → Served → Type 0
    Arrived out v =
        (v.file ≡ some (path, s))
        × (v.blob.names ≡ names)
        × (v.conn ≡ conn [] out [])
        × (v.tasks ≡ tasks)

    receiving_blob :
        (out : Text)
        → Arrived (out ++ frame_of none) (
            serve_blob codecs
              (welcoming who w)
              node_id
              (conn (manifest_frame body ++ frames m.chunks s) out [])
              blob
              tasks)
    unfolding serve_blob from_blob Arrived effective_size stable_id_of
    receiving_blob out =
        let o = (welcoming who w).blob in
        let (valid, hash, size, cuts) =
          built-Describes codecs.sha256_hex source send_blob_media_type (pos 0) s m (omega arith)
            f.fits f.built in
        let (p, asked, grown) =
          accept_ok codecs.parse_time o m path names blob refl free who.stable_id
            (label_of (some who) node_id) allowed in
        let (done, file, same, sent) =
          receive_blob-Leaves codecs.manifest codecs.sha256_hex codecs.parse_time codecs.error_text
            o (some who) node_id (conn (manifest_frame body ++ frames m.chunks s) out []) blob m
            path s (out ++ frame_of none) p refl
            (receive_ok codecs.sha256_hex m path s codecs.manifest
              (accept codecs.parse_time o who.stable_id (label_of (some who) node_id)) body out _
              (unasked blob) p f.decoded f.small valid asked (omega arith) size hash cuts) in
        (file, same ∙ grown, sent, refl)

    receiving : Arrived (hello_frame b ++ frame_of none) (
        handle codecs
          (welcoming who w)
          yours
          (conn ((hello_frame a ++ manifest_frame body) ++ frames m.chunks s) [] [])
          blob
          tasks)
    unfolding handle handle_as greeted handle_peer self_hello
    receiving =
        rw
          (
            append_assoc (hello_frame a) (manifest_frame body) (frames m.chunks s),
            listener_greets codecs.hello (self_hello node_id intent_blob) yours a b
                (manifest_frame body ++ frames m.chunks s) g.mine_decoded g.mine_fits
                g.yours_encoded,
          )
          (receiving_blob (hello_frame b))

    -- Two nodes, end to end. What SendBlob writes, from the greeting to the last chunk, is what the
    -- other node's listener serves, and what that writes back is what SendBlob reads. If the file can
    -- be read, is at most 1048576 chunks of 4 MiB, and no call of the network, the disk or a deadline
    -- fails; if the hellos and the manifest fit their limits and decode to what was encoded; if the
    -- receiver's policy accepts the peer and the size, and a name in its inbox is free: then SendBlob
    -- returns no error, the receiver holds the same bytes under a name that was free and no other
    -- name more, it has answered its hello and an accepting verdict, and its tasks are untouched.
    pub file_delivered :
        (o : Outbound.Outside) (peer : Peer) (n : SendNode)
        → let reply = hello_frame b ++ frame_of none in
          let sent =
            send_blob codecs.manifest codecs.hello codecs.sha256_hex codecs.error_text
              (connected s (conn reply [] []) o)
              node_id
              peer
              source
              none
              n in
          let got =
            handle codecs (welcoming who w) yours (conn (written sent.conn) [] []) blob tasks in
          (sent.result ≡ ok tt)
          × (got.file ≡ some (path, s))
          × (has_name path blob.names ≡ false)
          × (got.blob.names ≡ path ∷ blob.names)
          × (got.conn.outgoing ≡ reply)
          × (got.tasks ≡ tasks)
    unfolding Arrived
    file_delivered o peer n =
        let (done, on) = sending o peer n in
        let (k, bound, named, fresh, grown) =
          reserve_inbox_file-fresh w.blob.opens (safe_name m.name) blob.names names path free in
        let (file, same, reply, kept) = receiving in
        rw (ap written on)
          (done, file, fresh, same ∙ grown, ap (λ (c : Conn). c.outgoing) reply, kept)
