-- ===== src/Node/Outbound/Recorded.antt =====
-- What SendBlob writes into the history.
use edge_grid.Prelude.{
  ℕ, suc, ◌≡◌, ◌≢◌, refl, ap, ◌∙◌, false, not, Text, [], ◌∷◌, ◌++◌, ◌⊎◌, inl, inr, if_intro, Option,
  none, some, is_empty, Bool-cases, if◌then◌else◌,
}
use edge_grid.Prelude.Results.{Result, ok, err, map_err}
use edge_grid.Net.{Conn}
use edge_grid.Json.{Codec}
use edge_grid.Blob.{Manifest}
use edge_grid.Blob.Build
use edge_grid.Blob.Wire.{Error}
use edge_grid.Blob.Send.{Sender, send}
use edge_grid.Discovery.Hello.{Hello, HelloError, intent_blob, exchange_as_dialer}
use edge_grid.Discovery.Members.{Peer}
use edge_grid.Db.Transfers
use edge_grid.Db.Transfers.{
  TransferRow, Rows, Status, done, refused, failed, in_progress, last_id, finish_row,
}
use edge_grid.Node.Transfers.Settled.{start-row, finish-row, new_row}
use edge_grid.Node.Transfers.{Registry, start, outbound, finish_status, error_text as text_of}
use edge_grid.Node.Outbound.{
  Outside, SendNode, Finished, SendError, is_refused, end_of, refused_of, after_send, transfer,
  connect, send_blob, manifest_for, transfer_failed, greeting_failed, manifest_failed, dial_failed,
  deadline_failed, no_file,
}

-- What the status of a transfer is to be, by how Send ended.
abbrev pub status_of : Result Error (Unit {0}) → Status
status_of (ok _) = done
status_of (err e) = if is_refused e then refused else failed

abbrev pub hash_of : Manifest → Result Error (Unit {0}) → Text
hash_of m (ok _) = m.sha256
hash_of m (err e) = []

module _ (json : Codec Manifest) (hello_json : Codec Hello) (sha256_hex : Text → Text)
    (error_text : Error → Text) (o : Outside) (node_id : Text) (peer : Peer) where
  abbrev pub error_of : Result Error (Unit {0}) → Option Text
  error_of (ok _) = none
  error_of (err e) = if is_empty (error_text e) then none else some (error_text e)

  -- The row that a transfer of the manifest m to the peer is to have.
  abbrev pub final_row : Rows → Manifest → Result Error (Unit {0}) → TransferRow
  final_row t m r = record {
    id = suc (last_id t);
    direction = Transfers.outbound;
    peer_id = peer.id;
    peer_hostname = peer.hostname;
    file_name = m.name;
    file_size = m.size;
    sha256 = hash_of m r;
    status = status_of r;
    error = error_of r;
    started_at = o.started_at;
    finished_at = some o.finished_at;
  }

  -- A run that ended before the transfer left the history alone; any other has the row of the manifest that
  -- manifestFor returned.
  abbrev pub Recorded : Rows → Result Build.BuildError Manifest → Finished → Type 0
  Recorded t b f =
      ((e : SendError) × (f.result ≡ err e)
        × ((d : Error) → e ≢ transfer_failed d)
        × (f.node.history ≡ some t))
      ⊎ ((m : Manifest) × (b ≡ ok m)
          × (v : Result Error (Unit {0})) × (f.result ≡ map_err transfer_failed v)
          × (f.node.history ≡ some (t ++ (final_row t m v ∷ []))))

  module _ (n : SendNode) (t : Rows) (old : n.history ≡ some t) (starts : o.start_fails ≡ false)
      (finishes : o.finish_fails ≡ false) where
    abbrev first_row : Manifest → TransferRow
    first_row m = new_row o.started_at Transfers.outbound peer.id peer.hostname m.name m.size t

    settled_row :
        (m : Manifest) (r : Result Error (Unit {0}))
        → finish_row o.finished_at
            (finish_status (end_of error_text r) (refused_of r))
            (text_of (end_of error_text r))
            m.sha256
            (first_row m)
          ≡ final_row t m r
    unfolding finish_row finish_status text_of end_of refused_of
    settled_row m (ok _) = refl
    settled_row m (err e) = elim (Bool-cases (is_refused e)) [
      | inl b ↦ rw b refl
      | inr b ↦ rw b refl
    ]

    after_send-Recorded :
        (p : ℕ) (m : Manifest) (r : Registry) (row : Option ℕ × Option Rows)
        (q : Result Error (Unit {0}) × Sender)
        → row ≡ (some (suc (last_id t)), some (t ++ (first_row m ∷ [])))
        → Recorded t
            (ok m)
            (after_send json hello_json sha256_hex error_text o node_id peer p m r row q)
    unfolding after_send
    after_send-Recorded p m r row (v, s) h = inr (
      m,
      refl,
      v,
      refl,
      rw h (
            finish-row o.finish_fails o.finished_at (end_of error_text v) (refused_of v) m.sha256 t
              (first_row m) finishes refl)
          ∙ ap (λ (x : TransferRow). some (t ++ (x ∷ []))) (settled_row m v),
    )

    transfer-Recorded :
        (m : Manifest) (q : Result HelloError Hello × Conn)
        → Recorded t (ok m) (transfer json hello_json sha256_hex error_text o node_id peer m n q)
    unfolding transfer
    transfer-Recorded m (err e, c) = inl (greeting_failed e, refl, λ d h. cc, old)
    transfer-Recorded m (ok theirs, c) =
        if_intro (Recorded t (ok m)) (not o.sets_deadline) _ _
          (inl (deadline_failed, refl, λ d h. cc, old))
          (after_send-Recorded (suc n.registry.created) m (start outbound peer.hostname n.registry)
            _ (send json o.file m (record { conn = c; source = no_file; reports = [] }))
            (start-row o.start_fails o.started_at Transfers.outbound peer.id peer.hostname m.name
              m.size n.history t starts old))

    connect-Recorded :
        (r : Result Build.BuildError Manifest) (dial : Option Conn)
        → Recorded t r (connect json hello_json sha256_hex error_text o node_id peer n r dial)
    unfolding connect
    connect-Recorded (err e) dial = inl (manifest_failed e, refl, λ d h. cc, old)
    connect-Recorded (ok m) none = inl (dial_failed, refl, λ d h. cc, old)
    connect-Recorded (ok m) (some c) = transfer-Recorded m (
        exchange_as_dialer hello_json o.greeting_deadline
          (record { node_id = node_id; intent = intent_blob }) c)

    -- With a history and statements that go through, a file that never got to the transfer leaves no row,
    -- and any other exactly one row behind those before it, which is settled: of the peer, with the name
    -- and the size of the manifest that manifestFor returned, done with the hash of that manifest if
    -- SendBlob returns no error, refused if the peer refused, and failed with the error's text otherwise.
    pub send_blob-Recorded :
        (path : Text) (m : Option Manifest)
        → Recorded t
            (manifest_for sha256_hex path o.stat o.file m)
            (send_blob json hello_json sha256_hex error_text o node_id peer path m n)
    unfolding send_blob
    send_blob-Recorded path m =
        connect-Recorded (manifest_for sha256_hex path o.stat o.file m) o.dial
