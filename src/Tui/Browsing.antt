-- ===== src/Tui/Browsing.antt =====
-- updateBrowsing of internal/tui/dashboard/peers.go: the keys on the list of peers.
use edge_grid.Prelude.{
  ◌+◌, ◌-◌, Bool, not, Text, [], Option, none, some, length, get_elem?, ltb, ◌==◌, if◌then◌else◌,
}
use edge_grid.Discovery.Members.{Peer}
use edge_grid.Tui.Tab.{
  Cmd, FlowError, Key, Tab, Wiring, World, char, decision, decisions_allow, down, enter,
  may_not_run, may_not_send, may_run, may_send, new_kind_input, new_path_input, no_dispatch,
  no_task_trust, no_trust, nothing, offline, peer_label, pick_file, pick_kind, reported,
  set_task_trust, set_trust, up,
}

unfoldable pub fail : FlowError → Tab → Tab × Cmd
fail e m = (record m { flow_error = some e }, nothing)

-- The keys "a" and "t" on a peer, after the call of Set.
unfoldable pub after_trust : Wiring → World → Peer → Bool → Option Text → Tab → Tab × Cmd
unfolding fail
after_trust g w p allow (some e) m = fail (reported e) m
after_trust g w p allow none m = (
  record m {
    flow_error = none;
    trusted = if g.trust_list then w.trusted else m.trusted;
    note = some (if allow then may_send (peer_label p) else may_not_send (peer_label p));
  },
  set_trust p.id (peer_label p) allow,
)

unfoldable pub after_task_trust : Wiring → World → Peer → Bool → Option Text → Tab → Tab × Cmd
unfolding fail
after_task_trust g w p allow (some e) m = fail (reported e) m
after_task_trust g w p allow none m = (
  record m {
    flow_error = none;
    task_trust = if g.task_list then w.task_trusted else m.task_trust;
    note = some (if allow then may_run (peer_label p) else may_not_run (peer_label p));
  },
  set_task_trust p.id (peer_label p) allow,
)

unfoldable pub toggle_trust : Wiring → World → Option Peer → Tab → Tab × Cmd
unfolding after_trust fail
toggle_trust g w none m = (m, nothing)
toggle_trust g w (some p) m =
    if not g.trust_set
    then fail no_trust m
    else after_trust g w p (not (decisions_allow (decision p.id m.trusted))) w.set_error m

unfoldable pub toggle_task_trust : Wiring → World → Option Peer → Tab → Tab × Cmd
unfolding after_task_trust fail
toggle_task_trust g w none m = (m, nothing)
toggle_task_trust g w (some p) m =
    if not g.task_set
    then fail no_task_trust m
    else after_task_trust g w p (not (decisions_allow (decision p.id m.task_trust))) w.set_error m

-- The key "x"
unfoldable pub begin_task : Wiring → Option Peer → Tab → Tab × Cmd
unfolding fail
begin_task g none m = (m, nothing)
begin_task g (some p) m =
    if not p.online
    then fail (offline (peer_label p)) m
    else if not g.dispatch
    then fail no_dispatch m
    else (
      record m {
        target = p;
        flow_error = none;
        note = none;
        kind = [];
        mode = pick_kind;
        input = new_kind_input;
      },
      nothing,
    )

-- The keys "s" and enter
unfoldable pub begin_send : Option Peer → Tab → Tab × Cmd
unfolding fail
begin_send none m = (m, nothing)
begin_send (some p) m = if not p.online then fail (offline (peer_label p)) m else (
  record m {
    target = p;
    flow_error = none;
    note = none;
    manifest = none;
    path = [];
    mode = pick_file;
    input = new_path_input;
  },
  nothing,
)

unfoldable pub move_up : Tab → Tab
move_up m = if ltb 0 m.cursor then record m { cursor = m.cursor - 1 } else m

unfoldable pub move_down : Tab → Tab
move_down m = if ltb (m.cursor + 1) (length m.peers) then record m { cursor = m.cursor + 1 } else m

-- updateBrowsing. `m.peers[m.cursor]` is none out of range, which is what its guard tests.
unfoldable pub update_browsing : Wiring → World → Key → Tab → Tab × Cmd
unfolding toggle_trust toggle_task_trust begin_task begin_send move_up move_down
update_browsing g w up m = (move_up m, nothing)
update_browsing g w down m = (move_down m, nothing)
update_browsing g w enter m = begin_send (get_elem? m.peers m.cursor) m
update_browsing g w (char c) m =
    if c == b'k'
    then (move_up m, nothing)
    else if c == b'j'
    then (move_down m, nothing)
    else if c == b'a'
    then toggle_trust g w (get_elem? m.peers m.cursor) m
    else if c == b't'
    then toggle_task_trust g w (get_elem? m.peers m.cursor) m
    else if c == b'x'
    then begin_task g (get_elem? m.peers m.cursor) m
    else if c == b's'
    then begin_send (get_elem? m.peers m.cursor) m
    else (m, nothing)
update_browsing g w _ m = (m, nothing)
