-- ===== src/Node/Outbound/Sent.antt =====
-- SendBlob where every step goes through.
use edge_grid.Prelude.{
  ℕ, suc, ◌≡◌, refl, ap, true, not, Text, [], Option, none, some, if_false_intro,
}
use edge_grid.Prelude.Results.{Result, ok, err}
use edge_grid.Net.{Conn}
use edge_grid.Json.{Codec}
use edge_grid.Blob.{Manifest}
use edge_grid.Blob.Build
use edge_grid.Blob.Wire.{Error}
use edge_grid.Blob.Send.{Sender, send}
use edge_grid.Discovery.Hello.{Hello, HelloError, intent_blob, exchange_as_dialer}
use edge_grid.Discovery.Members.{Peer}
use edge_grid.Db.Transfers.{Rows}
use edge_grid.Db.Transfers
use edge_grid.Node.Transfers.{Registry, start, outbound, record_transfer_start}
use edge_grid.Node.Outbound.{
  Outside, SendNode, Finished, after_send, transfer, connect, send_blob, manifest_for, no_file,
}

-- No error, and the connection as Send left it.
abbrev pub SentOn : Conn → Finished → Type 0
SentOn c f = (f.result ≡ ok tt) × (f.conn ≡ some c)

module _ (json : Codec Manifest) (hello_json : Codec Hello) (sha256_hex : Text → Text)
    (error_text : Error → Text) (o : Outside) (node_id : Text) (peer : Peer) where
  after_send-SentOn :
      (p : ℕ) (m : Manifest) (r : Registry) (row : Option ℕ × Option Rows)
      (q : Result Error (Unit {0}) × Sender) (t : Sender)
      → q ≡ (ok tt, t)
      → SentOn t.conn (after_send json hello_json sha256_hex error_text o node_id peer p m r row q)
  unfolding after_send
  after_send-SentOn p m r row (ok _, s) t h =
      (refl, ap (λ (x : Result Error (Unit {0}) × Sender). some x.1.conn) h)
  after_send-SentOn p m r row (err e, s) t h = absurd cc

  module _ (m : Manifest) (n : SendNode) (theirs : Hello) (c c' : Conn) (t : Sender)
      (greeted : exchange_as_dialer hello_json o.greeting_deadline
          (record { node_id = node_id; intent = intent_blob })
          c
        ≡ (ok theirs, c'))
      (deadline : o.sets_deadline ≡ true)
      (run : send json o.file m (record { conn = c'; source = no_file; reports = [] })
        ≡ (ok tt, t)) where
    transfer-SentOn :
        (q : Result HelloError Hello × Conn)
        → q ≡ (ok theirs, c')
        → SentOn t.conn (transfer json hello_json sha256_hex error_text o node_id peer m n q)
    unfolding transfer
    transfer-SentOn (err e, d) h = absurd cc
    transfer-SentOn (ok hello, d) h =
        let same : d ≡ c' = ap (λ (x : Result HelloError Hello × Conn). x.1) h in
        if_false_intro (SentOn t.conn) (not o.sets_deadline) _ _ (ap not deadline) (
          after_send-SentOn (suc n.registry.created) m (start outbound peer.hostname n.registry)
            (record_transfer_start o.start_fails o.started_at Transfers.outbound peer.id
              peer.hostname m.name m.size n.history)
            (send json o.file m (record { conn = d; source = no_file; reports = [] })) t
            (rw same run))

    connect-SentOn :
        (r : Result Build.BuildError Manifest) (dial : Option Conn)
        → r ≡ ok m
        → dial ≡ some c
        → SentOn t.conn (connect json hello_json sha256_hex error_text o node_id peer n r dial)
    unfolding connect
    connect-SentOn (err e) dial h k = absurd cc
    connect-SentOn (ok x) none h k = absurd cc
    connect-SentOn (ok x) (some d) h k =
        let same_m : x ≡ m = cc h in
        let same_c : d ≡ c = cc k in rw same_m (rw same_c (transfer-SentOn _ greeted))

    pub send_blob-SentOn :
        (path : Text) (given : Option Manifest)
        → manifest_for sha256_hex path o.stat o.file given ≡ ok m
        → o.dial ≡ some c
        → SentOn t.conn
            (send_blob json hello_json sha256_hex error_text o node_id peer path given n)
    unfolding send_blob
    send_blob-SentOn path given h k =
        connect-SentOn (manifest_for sha256_hex path o.stat o.file given) o.dial h k
