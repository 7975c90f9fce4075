-- ===== src/Node/Peers.antt =====
-- An inbound connection: Server.handle of internal/discovery/listener.go, handlePeer and selfHello of
-- internal/node/peer.go, and receiveResult of task_result.go.
pub mod Routed
pub mod Delivery
use edge_grid.Prelude.{
  ℕ, ◌≡◌, refl, Bool, true, false, not, Text, List, [], ◌∷◌, Option, none, some, if◌then◌else◌,
}
use edge_grid.Prelude.Int.{ℤ}
use edge_grid.Prelude.Results.{Result, ok, err}
use edge_grid.Net.{Conn}
use edge_grid.Json.{Codec}
use edge_grid.Blob.{Manifest}
use edge_grid.Blob.Wire.{Error}
use edge_grid.Discovery.Hello.{
  Hello, HelloError, IntentType, intent_hello, intent_blob, intent_task, intent_result,
  intent_other, exchange_as_listener,
}
use edge_grid.Task.{Task, Uuids, ResultRequest, ResultResponse}
use edge_grid.Task.Outcome.{serve_result}
use edge_grid.Task.Offer
use edge_grid.Node.Accept.{check_task_accept, Acl}
use edge_grid.Node.Inbound
use edge_grid.Node.Inbound.{WhoIs, BlobNode, Finished, receive_blob, stable_id_of}
use edge_grid.Node.Tasks
use edge_grid.Node.Tasks.{TaskNode, Offerer, receive_task, offerer, lookup_result}

-- Node.selfHello
unfoldable pub self_hello : Text → IntentType → Hello
self_hello node_id intent = record { node_id = node_id; intent = intent }

-- What the connection leaves of the node, and what was sent on it.
pub record Served : Type 0 where
  pub blob : BlobNode
  pub tasks : TaskNode
  pub conn : Conn
  pub file : Option (Text × Text)  -- the destination of a transfer
  pub task : Option Task  -- the task whose run is to start

-- The libraries and the code tables that serving a connection needs.
pub record Codecs : Type 0 where
  pub manifest : Codec Manifest
  pub hello : Codec Hello
  pub task : Codec Task
  pub request : Codec ResultRequest
  pub response : Codec ResultResponse
  pub uuids : Uuids
  pub quote : Text → Text
  pub sha256_hex : Text → Text
  pub parse_time : Text → Option ℤ
  pub error_text : Error → Text

-- How the rest of the world turns out during one connection. `who` is WhoIs, none for its error.
pub record World : Type 0 where
  pub who : Option WhoIs
  pub greeting_deadline : Bool
  pub blob : Inbound.Outside
  pub task_acl : Acl
  pub supports : Text → Bool
  pub start_fails : Bool
  pub later_fails : Bool
  pub now : ℤ
  pub cutoff : ℤ
  pub result_deadline : Bool
  pub lookup_fails : Bool

named : Option WhoIs → Option (Text × Text)
named none = none
named (some w) = some (w.stable_id, w.computed_name)

is_ok : {E A : Type 0} → Result E A → Bool
is_ok (ok a) = true
is_ok (err e) = false

module _ (codecs : Codecs) (w : World) where
  from_blob : TaskNode → Finished → Served
  from_blob tasks f = record {
    blob = f.node;
    tasks = tasks;
    conn = f.conn;
    file = f.file;
    task = none;
  }

  serve_blob : Text → Conn → BlobNode → TaskNode → Served
  unfolding from_blob
  serve_blob claimed c blob tasks = from_blob tasks (
      receive_blob codecs.manifest codecs.sha256_hex codecs.parse_time codecs.error_text w.blob
        w.who claimed c blob)

  from_task : BlobNode → Result Offer.Error Task × Conn × TaskNode → Served
  from_task blob (ok t, c, tasks) = record {
    blob = blob;
    tasks = tasks;
    conn = c;
    file = none;
    task = some t;
  }
  from_task blob (err e, c, tasks) = record {
    blob = blob;
    tasks = tasks;
    conn = c;
    file = none;
    task = none;
  }

  serve_task : Text → Conn → BlobNode → TaskNode → Served
  unfolding from_task named is_ok
  serve_task claimed c blob tasks = from_task blob (
      receive_task codecs.task codecs.uuids codecs.quote
        (is_ok (check_task_accept codecs.parse_time w.task_acl (stable_id_of w.who))) w.supports
        w.start_fails w.later_fails w.now w.cutoff (offerer (named w.who) claimed) c tasks)

  -- receiveResult, which changes nothing of the node.
  unfoldable pub receive_result : Conn → TaskNode → Conn
  receive_result c tasks =
      if not w.result_deadline
      then c
      else (serve_result codecs.request codecs.response codecs.uuids
          (λ id. lookup_result w.lookup_fails id (stable_id_of w.who) tasks) c).1

  -- handlePeer
  unfoldable pub handle_peer : IntentType → Text → Conn → BlobNode → TaskNode → Served
  unfolding serve_blob serve_task
  handle_peer intent_blob claimed c blob tasks = serve_blob claimed c blob tasks
  handle_peer intent_task claimed c blob tasks = serve_task claimed c blob tasks
  handle_peer intent_result claimed c blob tasks = record {
    blob = blob;
    tasks = tasks;
    conn = receive_result c tasks;
    file = none;
    task = none;
  }
  handle_peer intent_hello claimed c blob tasks = record {
    blob = blob;
    tasks = tasks;
    conn = c;
    file = none;
    task = none;
  }
  handle_peer (intent_other s) claimed c blob tasks = record {
    blob = blob;
    tasks = tasks;
    conn = c;
    file = none;
    task = none;
  }

  greeted : Result HelloError Hello × Conn → BlobNode → TaskNode → Served
  greeted (err e, c) blob tasks = record {
    blob = blob;
    tasks = tasks;
    conn = c;
    file = none;
    task = none;
  }
  greeted (ok hello, c) blob tasks = handle_peer hello.intent hello.node_id c blob tasks

  handle_as : Option WhoIs → Hello → Conn → BlobNode → TaskNode → Served
  unfolding greeted
  handle_as none self c blob tasks = record {
    blob = blob;
    tasks = tasks;
    conn = c;
    file = none;
    task = none;
  }
  handle_as (some who) self c blob tasks =
      greeted (exchange_as_listener codecs.hello w.greeting_deadline self c) blob tasks

  -- Server.handle with handlePeer as OnPeer, on a new connection.
  unfoldable pub handle : Hello → Conn → BlobNode → TaskNode → Served
  unfolding handle_as
  handle self c blob tasks = handle_as w.who self c blob tasks
