-- ===== src/Examples/Nodes.antt =====
-- Two nodes and a file of six bytes, for the runs of internal/node.
use edge_grid.Prelude.{
  true, false, Text, [], ◌∷◌, ◌++◌, some, none, codes, show, length, text_eq, if◌then◌else◌,
}
use edge_grid.Prelude.Int.{pos}
use edge_grid.Disk.Laws.{readable}
use edge_grid.Json.{Codec}
use edge_grid.Blob.{Manifest}
use edge_grid.Blob.Receive.{all_well}
use edge_grid.Blob.Wire.RoundTrip.{conn, frame_of}
use edge_grid.Discovery.Hello.{Hello, intent_hello, intent_blob}
use edge_grid.Discovery.Hello.Exchange.{hello_frame}
use edge_grid.Discovery.Members.{Peer}
use edge_grid.Task.{Task}
use edge_grid.Node.Accept.{Acl, Space}
use edge_grid.Node.Inbound
use edge_grid.Node.Inbound.{WhoIs, BlobNode}
use edge_grid.Node.Outbound
use edge_grid.Node.Outbound.{SendNode, send_blob_media_type}
use edge_grid.Node.Peers.{Codecs, World}
use edge_grid.Node.Tasks.{TaskNode}

-- A stand-in for SHA-256, and a codec that knows one value and its text.
unfoldable pub hash : Text → Text
hash s = show (length s)

abbrev known : {A : Type 0} → A → Text → Codec A
known a body = record {
  marshal = λ _. some body;
  unmarshal = λ s. if text_eq s body then some a else none;
}

abbrev pub contents : Text
contents = codes "hello!"

abbrev pub source : Text
source = codes "/home/u/a.txt"

abbrev pub sent_file : Manifest
sent_file = record {
  name = codes "a.txt";
  media_type = send_blob_media_type;
  size = pos 6;
  sha256 = show 6;
  chunks = record { index = pos 0; offset = pos 0; length = pos 6; sha256 = show 6 } ∷ [];
}

abbrev pub body : Text
body = codes "{}"

abbrev greets : Hello
greets = record { node_id = codes "n1"; intent = intent_blob }

abbrev pub answers : Hello
answers = record { node_id = codes "n2"; intent = intent_hello }

-- A codec of the two hellos.
abbrev pub hellos : Codec Hello
hellos = record {
  marshal = λ h. some h.node_id;
  unmarshal = λ s. if text_eq s (codes "n1") then some greets else some answers;
}

abbrev job : Task
job = record {
  id = codes "7f3c";
  kind = codes "bash";
  requirements = record { cpu_cores = pos 1; memory_mb = pos 64; gpu = false };
  input = [];
}

abbrev pub codecs : Codecs
codecs = record {
  manifest = known sent_file body;
  hello = hellos;
  task = known job body;
  request = record { marshal = λ _. none; unmarshal = λ _. none };
  response = record { marshal = λ _. none; unmarshal = λ _. none };
  uuids = record { parse_error = λ s. none };
  quote = λ s. s;
  sha256_hex = hash;
  parse_time = λ s. some (pos 0);
  error_text = λ e. codes "failed";
}

abbrev pub acl : Acl
acl = record { files = []; default = codes "allow\n"; opens = true; reads = true }

abbrev pub space : Space
space = record { inbox = true; free = some 900_000_000 }

abbrev pub arriving : Inbound.Outside
arriving = record {
  acl = acl;
  override = [];
  space = space;
  sets_deadline = true;
  start_fails = false;
  finish_fails = false;
  makes_inbox = true;
  opens = λ n. true;
  disk = all_well;
  removes = true;
  started_at = pos 100;
  finished_at = pos 101;
}

abbrev pub alpha : WhoIs
alpha = record { stable_id = codes "nAlpha"; computed_name = codes "alpha" }

abbrev pub world : World
world = record {
  who = some alpha;
  greeting_deadline = true;
  blob = arriving;
  task_acl = acl;
  supports = λ kind. true;
  start_fails = false;
  later_fails = false;
  now = pos 100;
  cutoff = pos 0;
  result_deadline = true;
  lookup_fails = false;
}

abbrev pub departing : Outbound.Outside
departing = record {
  stat = some (pos 6);
  file = some (readable contents);
  dial = some (conn (hello_frame (codes "n2") ++ frame_of none) [] []);
  greeting_deadline = true;
  sets_deadline = true;
  start_fails = false;
  finish_fails = false;
  started_at = pos 100;
  finished_at = pos 101;
}

abbrev pub beta : Peer
beta = record {
  id = codes "nBeta";
  hostname = codes "beta";
  dns_name = codes "beta.ts.net.";
  ip = codes "100.64.0.2";
  online = true;
  last_seen = pos 0;
  cur_addr = [];
  relay = [];
  peer_relay = [];
}

-- The inbox has a file of the same name, and the history is empty.
abbrev pub inbox_node : BlobNode
inbox_node = record {
  names = codes "a.txt" ∷ [];
  history = some [];
  registry = record { created = 0; items = [] };
}

abbrev pub send_node : SendNode
send_node = record { history = some []; registry = record { created = 0; items = [] } }

abbrev pub free_node : TaskNode
free_node = record { busy = false; history = some [] }
