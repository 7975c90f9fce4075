-- ===== src/Examples/Runs.antt =====
-- A node that runs a task, and nodes that greet each other (internal/node, internal/discovery).
use edge_grid.Prelude.{
  ◌^◌, ◌%◌, ◌≡◌, ◌↔◌, ◌||◌, refl, true, false, Bool, Text, List, [], ◌∷◌, ◌++◌, codes, some, none,
  arith, text_eq, is_empty, if◌then◌else◌,
}
use edge_grid.Prelude.Int.{pos}
use edge_grid.Prelude.Results.{Result, ok, err}
use edge_grid.Json.{Codec}
use edge_grid.Net.{Conn, receiving, put_u32}
use edge_grid.Blob.Wire.RoundTrip.{conn}
use edge_grid.Db.Tasks.{Table}
use edge_grid.Task.{Task, Uuids, ResultResponse, done}
use edge_grid.Task.Offer.{Error}
use edge_grid.Task.Offer.Agreement.{task_frame}
use edge_grid.Task.Outcome.{unknown_response}
use edge_grid.Node.Tasks.{TaskNode, Offerer, receive_task, end_run, output, lookup_result}
use edge_grid.Node.Tasks.Slot.{is_ok, busy-receive_task}
use edge_grid.Node.Tasks.Answer.{result_answered, result_hidden}
use edge_grid.Discovery.Hello.{Hello, intent_hello, intent_task, read_hello, too_long}
use edge_grid.Discovery.Hello.Exchange.{read_hello_too_long}
use edge_grid.Discovery.Members.{PeerStatus, Peer, snapshot, peer_of, tag}
use edge_grid.Discovery.Members.Order.{here, snapshot-Quot}
use mathlib.Core.Quot
use edge_grid.Discovery.Members.Listed.{In, Lists, Sorted, snapshot-Lists}

abbrev known : {A : Type 0} → A → Text → Codec A
known a body = record {
  marshal = λ _. some body;
  unmarshal = λ s. if text_eq s body then some a else none;
}

-- A stand-in for uuid.Parse, which takes every text that is not empty.
abbrev uuids : Uuids
uuids = record {
  parse_error = λ s. if is_empty s then some (codes "invalid UUID length: 0") else none;
}

abbrev job : Task
job = record {
  id = codes "7f3c";
  kind = codes "bash";
  requirements = record { cpu_cores = pos 1; memory_mb = pos 64; gpu = false };
  input = codes "echo hi";
}

abbrev body : Text
body = codes "{}"

abbrev free_node : TaskNode
free_node = record { busy = false; history = some [] }

abbrev alpha : Offerer
alpha = record { stable_id = codes "nAlpha"; label = codes "alpha" }

abbrev every_kind : Text → Bool
every_kind kind = true

abbrev received_job : Result Error Task × Conn × TaskNode
received_job =
    receive_task (known job body) uuids (λ s. s) true every_kind false false (pos 100) (pos 0) alpha
      (receiving (task_frame body)) free_node

accepted : received_job ≡ (ok job, received_job.1, received_job.2)
unfolding receive_task edge_grid.Task.Offer.process_task edge_grid.Task.Offer.read_task
    edge_grid.Net.read_full put_u32 edge_grid.Net.u32 text_eq edge_grid.Task.Offer.validate
    edge_grid.Node.Tasks.accept_task edge_grid.Db.Tasks.record_task_start edge_grid.Db.Tasks.has_row
    edge_grid.Blob.Wire.write_verdict edge_grid.Net.write
accepted = refl

busy-receive_task_example : received_job.2.busy ≡ (false || is_ok received_job.0)
busy-receive_task_example =
    busy-receive_task (known job body) uuids (λ s. s) true every_kind false false (pos 100) (pos 0)
      alpha (receiving (task_frame body)) free_node

result_answered_example :
    let k = end_run false (pos 101) job.id (output (codes "hi")) received_job.2 in
    (k.busy ≡ false)
    × (lookup_result false job.id alpha.stable_id k
        ≡ record { status = done; output = codes "hi"; error = [] })
unfolding is_empty
result_answered_example =
    result_answered (known job body) uuids (λ s. s) true every_kind false false (pos 100) (pos 0)
      alpha (receiving (task_frame body)) _ free_node _ [] job (pos 101) (codes "hi") refl (tt, tt)
      accepted refl (omega arith)

result_hidden_example :
    lookup_result false job.id
      (codes "nBeta")
      (end_run false (pos 101) job.id (output (codes "hi")) received_job.2)
    ≡ unknown_response
result_hidden_example =
    result_hidden (known job body) uuids (λ s. s) true every_kind false false (pos 100) (pos 0)
      alpha (receiving (task_frame body)) _ free_node _ [] job (pos 101) (codes "hi")
      (codes "nBeta") refl (tt, tt) accepted (omega arith) (λ e. cc e)

abbrev mine : Hello
mine = record { node_id = codes "n1"; intent = intent_task }

abbrev yours : Hello
yours = record { node_id = codes "n2"; intent = intent_hello }

-- A codec of the two hellos.
abbrev hellos : Codec Hello
hellos = record {
  marshal = λ h. some h.node_id;
  unmarshal = λ s. if text_eq s (codes "n1") then some mine else some yours;
}

read_hello_too_long_example :
    read_hello hellos (conn (put_u32 (70_000 % 2 ^ 32) ++ codes "x") [] [])
    ≡ (err (too_long 70_000), conn (codes "x") [] [])
read_hello_too_long_example =
    read_hello_too_long hellos 70_000 (codes "x") [] [] (omega arith) (omega arith)

abbrev device : Text → List Text → PeerStatus
device id tags = record {
  id = id;
  hostname = codes "h";
  dns_name = codes "h.ts.net.";
  online = true;
  last_seen = pos 0;
  cur_addr = [];
  relay = codes "fra";
  peer_relay = [];
  tags = tags;
  ips = codes "100.64.0.1" ∷ [];
}

abbrev status : List PeerStatus
status =
    device (codes "n2") (tag ∷ []) ∷ device (codes "n9") [] ∷ device (codes "n1") (tag ∷ []) ∷ []

abbrev listed : List Peer
listed = peer_of (device (codes "n1") (tag ∷ [])) ∷ peer_of (device (codes "n2") (tag ∷ [])) ∷ []

taken : snapshot (some status) ≡ some listed
unfolding snapshot edge_grid.Discovery.Members.sort edge_grid.Discovery.Members.tagged_peers
    edge_grid.Discovery.Members.is_tagged text_eq edge_grid.Discovery.Members.insert
    edge_grid.Discovery.Members.text_lt peer_of
taken = refl

snapshot-Lists_example : ((p : Peer) → In p listed ↔ Lists status p) × Sorted listed
snapshot-Lists_example = snapshot-Lists status listed taken

-- The same map, with its first two devices in the other order.
abbrev reordered : List PeerStatus
reordered =
    device (codes "n9") [] ∷ device (codes "n2") (tag ∷ []) ∷ device (codes "n1") (tag ∷ []) ∷ []

snapshot-Quot_example : snapshot (some status) ≡ snapshot (some reordered)
snapshot-Quot_example = snapshot-Quot status reordered (
    Quot.sound (
      here (device (codes "n2") (tag ∷ [])) (device (codes "n9") [])
        (device (codes "n1") (tag ∷ []) ∷ []) (λ e. ground (arith, e))))
