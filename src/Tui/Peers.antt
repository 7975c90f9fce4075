-- ===== src/Tui/Peers.antt =====
-- peersModel.Update of internal/tui/dashboard/peers.go: the messages of the Peers tab, and the keys of its
-- flows, "send a file" and "send a task".
pub mod Flow
pub mod Keys
pub mod Session
pub mod Reached
pub mod Quiet
use edge_grid.Prelude.{
  ℕ, ◌+◌, ◌-◌, ◌≡◌, Bool, true, not, ◌&&◌, ◌||◌, Text, [], ◌∷◌, ◌++◌, Option, none, some, text_eq,
  is_empty, ◌==◌, if◌then◌else◌,
}
use edge_grid.Prelude.Int.{ℤ}
use edge_grid.Prelude.Lines.{trim_space}
use edge_grid.Prelude.Results.{Result, ok, err}
use edge_grid.Blob.{Manifest}
use edge_grid.Discovery.Members.{Peer}
use edge_grid.Task.{ResultResponse}
use edge_grid.Task.Outcome.{response_err}
use edge_grid.Tui.Paths.{expand_path, is_multiple}
use edge_grid.Tui.Tab.{
  Cmd, Key, Msg, PeersMode, Tab, Wiring, World, accepted_by, await_result, blob_sent, blur,
  browsing, build_manifest, building, cancel_flow, ctrl_u, dispatch_task, dispatching, do_refresh,
  enter, esc, finished_by, is_building, is_dispatching, key, manifest_built, more_than_one_file,
  no_transport, nothing, peer_label, pick_file, pick_kind, ready, refresh, transfer_tick,
  tick_peers, tick_transfers, reported, send_blob, sending, sent_to, start_wait, task_dispatched,
  task_failed, task_result, wait_failed,
}
use edge_grid.Tui.Browsing.{update_browsing}

-- The text field's own Update, which drops a key without the focus. `edit` is the library's: what a key
-- makes of a value under a limit.
edited : (ℕ → Key → Text → Text) → Key → Tab → Tab × Cmd
edited edit k m = (
  record m {
    input =
        if m.input.focused
        then record m.input { value = edit m.input.limit k m.input.value }
        else m.input;
  },
  nothing,
)

module _ (edit : ℕ → Key → Text → Text) where
  unfoldable pub update_pick_file : World → Key → Tab → Tab × Cmd
  unfolding edited
  update_pick_file w esc m = (cancel_flow m, nothing)
  update_pick_file w ctrl_u m =
      (record m { input = record m.input { value = [] }; flow_error = none }, nothing)
  update_pick_file w enter m =
      let path = expand_path w.home (trim_space m.input.value) in
      if is_empty path
      then (m, nothing)
      else if is_multiple w.home path
      then (record m { flow_error = some more_than_one_file }, nothing)
      else (
        record m { path = path; flow_error = none; mode = building; input = blur m.input },
        build_manifest path,
      )
  update_pick_file w k m = edited edit k m

  unfoldable pub update_pick_kind : Key → Tab → Tab × Cmd
  unfolding edited
  update_pick_kind esc m = (cancel_flow m, nothing)
  update_pick_kind enter m =
      let kind = trim_space m.input.value in
      if is_empty kind then (m, nothing) else (
        start_wait
            (record m { kind = kind; flow_error = none; mode = dispatching; input = blur m.input }),
        dispatch_task m.contexts m.target kind,
      )
  update_pick_kind k m = edited edit k m

  send_manifest : Option Manifest → Bool → Tab → Tab × Cmd
  send_manifest (some mf) true m =
      (record m { flow_error = none; mode = sending }, send_blob m.target m.path mf)
  send_manifest _ _ m = (record m { flow_error = some no_transport }, nothing)

  unfoldable pub update_ready : Wiring → Key → Tab → Tab × Cmd
  unfolding send_manifest
  update_ready g esc m = (cancel_flow m, nothing)
  update_ready g enter m = send_manifest m.manifest g.send m
  update_ready g k m = (m, nothing)

  -- The waits that only esc ends.
  update_waiting : Key → Tab → Tab × Cmd
  update_waiting esc m = (cancel_flow m, nothing)
  update_waiting k m = (m, nothing)

  unfoldable pub update_key : Wiring → World → PeersMode → Key → Tab → Tab × Cmd
  unfolding update_waiting
  update_key g w browsing k m = update_browsing g w k m
  update_key g w pick_file k m = update_pick_file w k m
  update_key g w building k m = update_waiting k m
  update_key g w ready k m = update_ready g k m
  update_key g w sending k m = (m, nothing)
  update_key g w pick_kind k m = update_pick_kind k m
  update_key g w dispatching k m = update_waiting k m

unfoldable pub on_sent : Peer → ℤ → Option Text → Tab → Tab
on_sent p size (some e) m = record m {
  mode = browsing;
  manifest = none;
  path = [];
  flow_error = some (reported e);
  note = none;
}
on_sent p size none m = record m {
  mode = browsing;
  manifest = none;
  path = [];
  flow_error = none;
  note = some (sent_to size (peer_label p));
}

pub on_verdict : Wiring → Peer → Text → Text → Option Text → Tab → Tab × Cmd
on_verdict g p kind id (some e) m =
    (record (cancel_flow m) { flow_error = some (reported e); note = none }, nothing)
on_verdict g p kind id none m =
    if not g.await
    then (record (cancel_flow m) { note = some (accepted_by (peer_label p) kind) }, nothing)
    else (start_wait (record m { task_id = id }), await_result m.contexts p id)

-- The note has the whole output; outputPreview, which shortens it, is left out.
on_answer : Text → Text → Text → Option Text → Tab → Tab
on_answer label kind output (some e) m = record m { flow_error = some (task_failed label e) }
on_answer label kind output none m = record m { note = some (finished_by label kind output) }

pub on_result : Result Text ResultResponse → Tab → Tab
unfolding on_answer
on_result (err e) m = record (cancel_flow m) {
  flow_error = some (wait_failed (peer_label m.target) e);
}
on_result (ok r) m =
    on_answer (peer_label m.target) m.kind r.output (response_err r) (cancel_flow m)

pub on_built : Result Text Manifest → Tab → Tab
on_built (err e) m = record m {
  flow_error = some (reported e);
  mode = pick_file;
  input = record m.input { focused = true };
}
on_built (ok mf) m = record m { manifest = some mf; mode = ready }

-- peersModel.Update
unfoldable pub update : (ℕ → Key → Text → Text) → Wiring → World → Msg → Tab → Tab × Cmd
unfolding on_sent on_verdict on_result on_built
update edit g w refresh m = (do_refresh g w m, tick_peers)
update edit g w transfer_tick m =
    (record m { active = if g.transfers then w.active else m.active }, tick_transfers)
update edit g w (blob_sent p size e) m = (on_sent p size e m, nothing)
update edit g w (task_dispatched p kind id e) m =
    if not (is_dispatching m.mode) || not (text_eq p.id m.target.id)
    then (m, nothing)
    else on_verdict g p kind id e m
update edit g w (task_result id r) m =
    if not (is_dispatching m.mode) || not (text_eq id m.task_id)
    then (m, nothing)
    else (on_result r m, nothing)
update edit g w (manifest_built path r) m =
    if not (is_building m.mode) || not (text_eq path m.path)
    then (m, nothing)
    else (on_built r m, nothing)
update edit g w (key k) m = update_key edit g w m.mode k m
