-- ===== src/Tui/Peers/Quiet.antt =====
-- The messages of the Peers tab, and the timers that they start.
use edge_grid.Prelude.{
  ℕ, Bool, true, false, not, ◌||◌, Text, Option, none, some, get_elem?, is_empty, text_eq, ◌==◌,
  if_intro,
}
use edge_grid.Prelude.Lines.{trim_space}
use edge_grid.Blob.{Manifest}
use edge_grid.Discovery.Members.{Peer}
use edge_grid.Tui.Paths.{expand_path, is_multiple}
use edge_grid.Tui.Tab.{
  PeersMode, Key, Tab, Cmd, Msg, Wiring, World, decision, decisions_allow, is_building,
  is_dispatching,
}
use edge_grid.Tui.Browsing.{
  after_trust, after_task_trust, toggle_trust, toggle_task_trust, fail, begin_task, begin_send,
  update_browsing,
}
use edge_grid.Tui.Peers.{
  update, update_key, update_pick_file, update_pick_kind, update_ready, update_waiting, edited,
  send_manifest, on_verdict,
}

-- The commands that are no timer.
abbrev pub Quiet : Cmd → Type 0
Quiet Cmd.tick_peers = ⊥
Quiet Cmd.tick_transfers = ⊥
Quiet _ = Unit

-- The messages that are no timer's.
abbrev pub Answer : Msg → Type 0
Answer Msg.refresh = ⊥
Answer Msg.transfer_tick = ⊥
Answer _ = Unit

abbrev IsQuiet : Tab × Cmd → Type 0
IsQuiet (m, c) = Quiet c

module _ (g : Wiring) (w : World) (m : Tab) where
  trust-IsQuiet : (p : Peer) (b : Bool) (e : Option Text) → IsQuiet (after_trust g w p b e m)
  unfolding after_trust fail
  trust-IsQuiet p b none = tt
  trust-IsQuiet p b (some e) = tt

  task_trust-IsQuiet :
      (p : Peer) (b : Bool) (e : Option Text) → IsQuiet (after_task_trust g w p b e m)
  unfolding after_task_trust fail
  task_trust-IsQuiet p b none = tt
  task_trust-IsQuiet p b (some e) = tt

  toggle_trust-IsQuiet : (p : Option Peer) → IsQuiet (toggle_trust g w p m)
  unfolding toggle_trust fail
  toggle_trust-IsQuiet none = tt
  toggle_trust-IsQuiet (some p) =
      if_intro IsQuiet (not g.trust_set) _ _ tt
        (trust-IsQuiet p (not (decisions_allow (decision p.id m.trusted))) w.set_error)

  toggle_task_trust-IsQuiet : (p : Option Peer) → IsQuiet (toggle_task_trust g w p m)
  unfolding toggle_task_trust fail
  toggle_task_trust-IsQuiet none = tt
  toggle_task_trust-IsQuiet (some p) =
      if_intro IsQuiet (not g.task_set) _ _ tt
        (task_trust-IsQuiet p (not (decisions_allow (decision p.id m.task_trust))) w.set_error)

  begin_task-IsQuiet : (p : Option Peer) → IsQuiet (begin_task g p m)
  unfolding begin_task fail
  begin_task-IsQuiet none = tt
  begin_task-IsQuiet (some p) =
      if_intro IsQuiet (not p.online) _ _ tt (if_intro IsQuiet (not g.dispatch) _ _ tt tt)

  begin_send-IsQuiet : (p : Option Peer) → IsQuiet (begin_send p m)
  unfolding begin_send fail
  begin_send-IsQuiet none = tt
  begin_send-IsQuiet (some p) = if_intro IsQuiet (not p.online) _ _ tt tt

  browsing-IsQuiet : (k : Key) → IsQuiet (update_browsing g w k m)
  unfolding update_browsing
  browsing-IsQuiet Key.up = tt
  browsing-IsQuiet Key.down = tt
  browsing-IsQuiet Key.enter = begin_send-IsQuiet (get_elem? m.peers m.cursor)
  browsing-IsQuiet Key.esc = tt
  browsing-IsQuiet Key.ctrl_u = tt
  browsing-IsQuiet (Key.other_key k) = tt
  browsing-IsQuiet (Key.char k) = if_intro IsQuiet (k == b'k') _ _ tt (
      if_intro IsQuiet (k == b'j') _ _ tt (
        if_intro IsQuiet (k == b'a') _ _ (toggle_trust-IsQuiet (get_elem? m.peers m.cursor)) (
          if_intro IsQuiet (k == b't') _ _ (toggle_task_trust-IsQuiet (get_elem? m.peers m.cursor))
            (if_intro IsQuiet (k == b'x') _ _ (begin_task-IsQuiet (get_elem? m.peers m.cursor)) (
              if_intro IsQuiet (k == b's') _ _ (begin_send-IsQuiet (get_elem? m.peers m.cursor))
                tt)))))

module _ (edit : ℕ → Key → Text → Text) (g : Wiring) (w : World) (m : Tab) where
  pick_file-IsQuiet : (k : Key) → IsQuiet (update_pick_file edit w k m)
  unfolding update_pick_file edited
  pick_file-IsQuiet Key.esc = tt
  pick_file-IsQuiet Key.ctrl_u = tt
  pick_file-IsQuiet Key.enter =
      let path = expand_path w.home (trim_space m.input.value) in
      if_intro IsQuiet (is_empty path) _ _ tt (if_intro IsQuiet (is_multiple w.home path) _ _ tt tt)
  pick_file-IsQuiet Key.up = tt
  pick_file-IsQuiet Key.down = tt
  pick_file-IsQuiet (Key.char k) = tt
  pick_file-IsQuiet (Key.other_key k) = tt

  pick_kind-IsQuiet : (k : Key) → IsQuiet (update_pick_kind edit k m)
  unfolding update_pick_kind edited
  pick_kind-IsQuiet Key.esc = tt
  pick_kind-IsQuiet Key.enter = if_intro IsQuiet (is_empty (trim_space m.input.value)) _ _ tt tt
  pick_kind-IsQuiet Key.ctrl_u = tt
  pick_kind-IsQuiet Key.up = tt
  pick_kind-IsQuiet Key.down = tt
  pick_kind-IsQuiet (Key.char k) = tt
  pick_kind-IsQuiet (Key.other_key k) = tt

  send-IsQuiet : (mf : Option Manifest) (b : Bool) → IsQuiet (send_manifest edit mf b m)
  unfolding send_manifest
  send-IsQuiet none b = tt
  send-IsQuiet (some mf) false = tt
  send-IsQuiet (some mf) true = tt

  ready-IsQuiet : (k : Key) → IsQuiet (update_ready edit g k m)
  unfolding update_ready
  ready-IsQuiet Key.esc = tt
  ready-IsQuiet Key.enter = send-IsQuiet m.manifest g.send
  ready-IsQuiet Key.ctrl_u = tt
  ready-IsQuiet Key.up = tt
  ready-IsQuiet Key.down = tt
  ready-IsQuiet (Key.char k) = tt
  ready-IsQuiet (Key.other_key k) = tt

  waiting-IsQuiet : (k : Key) → IsQuiet (update_waiting edit k m)
  unfolding update_waiting
  waiting-IsQuiet Key.esc = tt
  waiting-IsQuiet Key.enter = tt
  waiting-IsQuiet Key.ctrl_u = tt
  waiting-IsQuiet Key.up = tt
  waiting-IsQuiet Key.down = tt
  waiting-IsQuiet (Key.char k) = tt
  waiting-IsQuiet (Key.other_key k) = tt

  key-IsQuiet : (x : PeersMode) (k : Key) → IsQuiet (update_key edit g w x k m)
  unfolding update_key
  key-IsQuiet PeersMode.browsing k = browsing-IsQuiet g w m k
  key-IsQuiet PeersMode.pick_file k = pick_file-IsQuiet k
  key-IsQuiet PeersMode.building k = waiting-IsQuiet k
  key-IsQuiet PeersMode.ready k = ready-IsQuiet k
  key-IsQuiet PeersMode.sending k = tt
  key-IsQuiet PeersMode.pick_kind k = pick_kind-IsQuiet k
  key-IsQuiet PeersMode.dispatching k = waiting-IsQuiet k

  verdict-IsQuiet :
      (p : Peer) (kind id : Text) (e : Option Text) → IsQuiet (on_verdict g p kind id e m)
  unfolding on_verdict
  verdict-IsQuiet p kind id (some e) = tt
  verdict-IsQuiet p kind id none = if_intro IsQuiet (not g.await) _ _ tt tt

  pub update-IsQuiet : (x : Msg) → Answer x → Quiet (update edit g w x m).1
  unfolding update
  update-IsQuiet Msg.refresh h = absurd h
  update-IsQuiet Msg.transfer_tick h = absurd h
  update-IsQuiet (Msg.blob_sent p n e) h = tt
  update-IsQuiet (Msg.task_dispatched p kind id e) h =
      if_intro IsQuiet (not (is_dispatching m.mode) || not (text_eq p.id m.target.id)) _ _ tt
        (verdict-IsQuiet p kind id e)
  update-IsQuiet (Msg.task_result id r) h =
      if_intro IsQuiet (not (is_dispatching m.mode) || not (text_eq id m.task_id)) _ _ tt tt
  update-IsQuiet (Msg.manifest_built path r) h =
      if_intro IsQuiet (not (is_building m.mode) || not (text_eq path m.path)) _ _ tt tt
  update-IsQuiet (Msg.key k) h = key-IsQuiet m.mode k
