-- ===== src/Node/Outbound.antt =====
-- manifestFor and SendBlob of internal/node/blob_send.go: an outbound file, from the dial to the
-- history.
pub mod Recorded
pub mod Sent
use edge_grid.Prelude.{
  ℕ, suc, ◌≡◌, refl, Bool, true, false, not, Text, List, [], ◌∷◌, Option, none, some, codes, length,
  is_empty, if◌then◌else◌,
}
use edge_grid.Prelude.Int.{ℤ, pos, eqb_ℤ}
use edge_grid.Prelude.Results.{Result, ok, err, map_err}
use edge_grid.Net.{Conn}
use edge_grid.Disk.{File}
use edge_grid.Json.{Codec}
use edge_grid.Blob.{Manifest, Progress}
use edge_grid.Blob.Build
use edge_grid.Blob.Build.{build_manifest}
use edge_grid.Blob.Wire
use edge_grid.Blob.Wire.{Error}
use edge_grid.Blob.Send.{Sender, send}
use edge_grid.Discovery.Hello.{Hello, HelloError, intent_blob, exchange_as_dialer}
use edge_grid.Discovery.Members.{Peer, route}
use edge_grid.Db.Transfers
use edge_grid.Db.Transfers.{Rows}
use edge_grid.Node.Inbound.{report_all}
use edge_grid.Node.Transfers.{
  Registry, outbound, start, finish, record_transfer_start, record_transfer_finish,
}

abbrev pub send_blob_media_type : Text
send_blob_media_type = codes "application/octet-stream"

-- `stat` is the size that os.Stat finds, none for its error; `file` is what os.Open finds.
unfoldable pub manifest_for :
    (Text → Text)
    → Text
    → Option ℤ
    → Option File
    → Option Manifest
    → Result Build.BuildError Manifest
manifest_for sha256_hex path stat file none =
    build_manifest sha256_hex path send_blob_media_type (pos 0) file
manifest_for sha256_hex path none file (some m) =
    build_manifest sha256_hex path send_blob_media_type (pos 0) file
manifest_for sha256_hex path (some size) file (some m) =
    if eqb_ℤ size m.size
    then ok m
    else build_manifest sha256_hex path send_blob_media_type (pos 0) file

pub data SendError : Type 0 where
  manifest_failed : Build.BuildError → SendError
  dial_failed deadline_failed : SendError
  greeting_failed : HelloError → SendError
  transfer_failed : Error → SendError

-- How the rest of the world turns out during one transfer; the times are seconds.
pub record Outside : Type 0 where
  pub stat : Option ℤ
  pub file : Option File
  pub dial : Option Conn
  pub greeting_deadline : Bool
  pub sets_deadline : Bool
  pub start_fails : Bool
  pub finish_fails : Bool
  pub started_at : ℤ
  pub finished_at : ℤ

-- The parts of the node that a transfer changes.
pub record SendNode : Type 0 where
  pub history : Option Rows
  pub registry : Registry

pub record Finished : Type 0 where
  pub node : SendNode
  pub result : Result SendError (Unit {0})
  pub conn : Option Conn

-- errors.As(err, &refused)
unfoldable pub is_refused : Error → Bool
is_refused (Wire.peer_refused reason) = true
is_refused _ = false

end_of : (Error → Text) → Result Error (Unit {0}) → Option Text
end_of error_text (ok _) = none
end_of error_text (err e) = some (error_text e)

refused_of : Result Error (Unit {0}) → Bool
refused_of (ok _) = false
refused_of (err e) = is_refused e

abbrev pub no_file : File
no_file = record { contents = []; broken = false }

-- routeLabel
unfoldable pub route_label : Peer → Text
unfolding is_empty
route_label p = if is_empty (route p) then codes "unknown" else route p

module _ (json : Codec Manifest) (hello_json : Codec Hello) (sha256_hex : Text → Text)
    (error_text : Error → Text) (o : Outside) (node_id : Text) (peer : Peer) where
  -- What follows the call of blob.Send, of the transfer p.
  after_send :
      ℕ → Manifest → Registry → Option ℕ × Option Rows → Result Error (Unit {0}) × Sender → Finished
  unfolding end_of refused_of
  after_send p m r (row, history) (result, s) = record {
    node = record {
      history =
          record_transfer_finish o.finish_fails o.finished_at row (end_of error_text result)
            (refused_of result) m.sha256 history;
      registry = finish p (end_of error_text result) (report_all p s.reports r);
    };
    result = map_err transfer_failed result;
    conn = some s.conn;
  }

  -- From the greeting on.
  transfer : Manifest → SendNode → Result HelloError Hello × Conn → Finished
  unfolding after_send
  transfer m n (err e, c) = record { node = n; result = err (greeting_failed e); conn = some c }
  transfer m n (ok theirs, c) =
      if not o.sets_deadline
      then record { node = n; result = err deadline_failed; conn = some c }
      else after_send (suc n.registry.created) m (start outbound peer.hostname n.registry)
          (record_transfer_start o.start_fails o.started_at Transfers.outbound peer.id peer.hostname
            m.name m.size n.history)
          (send json o.file m (record { conn = c; source = no_file; reports = [] }))

  connect : SendNode → Result Build.BuildError Manifest → Option Conn → Finished
  unfolding transfer
  connect n (err e) dial = record { node = n; result = err (manifest_failed e); conn = none }
  connect n (ok m) none = record { node = n; result = err dial_failed; conn = none }
  connect n (ok m) (some c) = transfer m n (
      exchange_as_dialer hello_json o.greeting_deadline
        (record { node_id = node_id; intent = intent_blob }) c)

  unfoldable pub send_blob : Text → Option Manifest → SendNode → Finished
  unfolding connect
  send_blob path m n = connect n (manifest_for sha256_hex path o.stat o.file m) o.dial
