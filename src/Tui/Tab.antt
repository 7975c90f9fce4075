-- ===== src/Tui/Tab.antt =====
-- The state of the Peers tab in internal/tui/dashboard/peers.go, its messages and commands, and the small
-- operations that the steps of its flows share.
use edge_grid.Prelude.{
  ℕ, suc, ◌-◌, Bool, true, false, Text, List, [], ◌∷◌, Option, none, some, length, text_eq,
  is_empty, leb, if◌then◌else◌,
}
use edge_grid.Node.Transfers.{Transfer}
use edge_grid.Prelude.Int.{ℤ}
use edge_grid.Prelude.Results.{Result, ok, err}
use edge_grid.Blob.{Manifest}
use edge_grid.Discovery.Members.{Peer}
use edge_grid.Task.{ResultResponse}

pub data PeersMode : Type 0 where
  browsing pick_file building ready sending pick_kind dispatching : PeersMode

-- A key press, by what the tab tells apart: the named keys, a single character, and all else that the
-- text field may take.
pub data Key : Type 0 where
  esc enter ctrl_u up down : Key
  char : ℕ → Key
  other_key : ℕ → Key

-- bubbles' text field: its value, whether it takes keys, and its CharLimit.
pub record Input : Type 0 where
  pub value : Text
  pub focused : Bool
  pub limit : ℕ

-- The errors and the notes under the list, with what their texts print.
pub data FlowError : Type 0 where
  reported : Text → FlowError
  no_trust no_task_trust no_dispatch no_transport more_than_one_file : FlowError
  offline : Text → FlowError
  wait_failed task_failed : Text → Text → FlowError

pub data Note : Type 0 where
  may_send may_not_send may_run may_not_run : Text → Note
  sent_to : ℤ → Text → Note
  accepted_by : Text → Text → Note
  finished_by : Text → Text → Text → Note

-- A map from StableIDs to decisions.
abbrev pub Decisions : Type 0
Decisions = List (Text × Bool)

unfoldable pub decision : Text → Decisions → Option Bool
decision id [] = none
decision id ((k, b) ∷ ds) = if text_eq k id then some b else decision id ds

unfoldable pub decisions_allow : Option Bool → Bool
decisions_allow none = false
decisions_allow (some b) = b

-- Which of the functions the tab was given are not nil, and whether it has a Tailscale client.
pub record Wiring : Type 0 where
  pub client : Bool
  pub trust_list : Bool
  pub trust_set : Bool
  pub task_list : Bool
  pub task_set : Bool
  pub dispatch : Bool
  pub await : Bool
  pub send : Bool
  pub transfers : Bool

-- What the calls during one Update return.
pub record World : Type 0 where
  pub trusted : Decisions
  pub task_trusted : Decisions
  pub snapshot : Result Text (List Peer)
  pub set_error : Option Text
  pub home : Option Text
  pub active : List Transfer

-- A context is a number; `contexts` counts those made, and `cancelled` lists those that were ended.
pub record Tab : Type 0 where
  pub peers : List Peer
  pub snapshot_error : Option Text
  pub mode : PeersMode
  pub cursor : ℕ
  pub target : Peer
  pub input : Input
  pub path : Text
  pub manifest : Option Manifest
  pub flow_error : Option FlowError
  pub trusted : Decisions
  pub task_trust : Decisions
  pub kind : Text
  pub task_id : Text
  pub stop_task : Option ℕ
  pub note : Option Note
  pub contexts : ℕ
  pub cancelled : List ℕ
  pub active : List Transfer

-- The commands that Update hands to the event loop; the blinking is left out.
pub data Cmd : Type 0 where
  nothing tick_peers tick_transfers : Cmd
  build_manifest : Text → Cmd
  send_blob : Peer → Text → Manifest → Cmd
  dispatch_task : ℕ → Peer → Text → Cmd
  await_result : ℕ → Peer → Text → Cmd
  set_trust set_task_trust : Text → Text → Bool → Cmd

pub data Msg : Type 0 where
  refresh transfer_tick : Msg
  blob_sent : Peer → ℤ → Option Text → Msg
  task_dispatched : Peer → Text → Text → Option Text → Msg
  task_result : Text → Result Text ResultResponse → Msg
  manifest_built : Text → Result Text Manifest → Msg
  key : Key → Msg

-- peerLabel
unfoldable pub peer_label : Peer → Text
unfolding is_empty
peer_label p = if is_empty p.hostname then p.id else p.hostname

-- newPathInput and newKindInput
abbrev pub new_path_input : Input
new_path_input = record { value = []; focused = true; limit = 512 }

abbrev pub new_kind_input : Input
new_kind_input = record { value = []; focused = true; limit = 64 }

abbrev pub blur : Input → Input
blur i = record i { focused = false }

-- m.refresh
unfoldable pub clamp_cursor : ℕ → ℕ → ℕ
clamp_cursor cursor n = if leb n cursor then n - 1 else cursor

unfoldable pub refresh_peers : Result Text (List Peer) → Tab → Tab
refresh_peers (ok ps) m = record m {
  peers = ps;
  snapshot_error = none;
  cursor = clamp_cursor m.cursor (length ps);
}
refresh_peers (err e) m = record m {
  peers = [];
  snapshot_error = some e;
  cursor = clamp_cursor m.cursor 0;
}

unfoldable pub do_refresh : Wiring → World → Tab → Tab
unfolding refresh_peers
do_refresh g w m =
    let m' = record m {
      trusted = if g.trust_list then w.trusted else m.trusted;
      task_trust = if g.task_list then w.task_trusted else m.task_trust;
    } in
    if g.client then refresh_peers w.snapshot m' else m'

-- m.stopTask(), where it is set.
unfoldable pub ended : Option ℕ → List ℕ → List ℕ
ended none cs = cs
ended (some c) cs = c ∷ cs

unfoldable pub cancel_flow : Tab → Tab
unfolding ended
cancel_flow m = record m {
  stop_task = none;
  cancelled = ended m.stop_task m.cancelled;
  mode = browsing;
  input = blur m.input;
  manifest = none;
  flow_error = none;
  path = [];
  kind = [];
  task_id = [];
}

-- startWait; the new context is `m.contexts`.
unfoldable pub start_wait : Tab → Tab
unfolding ended
start_wait m = record m {
  stop_task = some m.contexts;
  cancelled = ended m.stop_task m.cancelled;
  contexts = suc m.contexts;
}

unfoldable pub is_building : PeersMode → Bool
is_building building = true
is_building _ = false

unfoldable pub is_dispatching : PeersMode → Bool
is_dispatching dispatching = true
is_dispatching _ = false

-- capturesTextInput
unfoldable pub captures_text_input : PeersMode → Bool
captures_text_input pick_file = true
captures_text_input pick_kind = true
captures_text_input _ = false
