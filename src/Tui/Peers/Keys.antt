-- ===== src/Tui/Peers/Keys.antt =====
-- A key or a refresh, and the flows of the Peers tab.
use edge_grid.Prelude.{
  ℕ, ◌≡◌, refl, sym, subst, Bool, true, false, Text, List, [], Option, none, some, is_empty,
  if◌then◌else◌, if_intro,
}
use edge_grid.Prelude.Lines.{trim_space}
use edge_grid.Prelude.Results.{Result, ok, err}
use edge_grid.Blob.{Manifest}
use edge_grid.Discovery.Members.{Peer}
use edge_grid.Tui.Paths.{expand_path, is_multiple}
use edge_grid.Tui.Tab.{
  PeersMode, Input, Key, Tab, Cmd, Wiring, World, start_wait, do_refresh, refresh_peers,
}
use edge_grid.Tui.Peers.{
  update_key, update_pick_file, update_pick_kind, update_ready, update_waiting, edited,
  send_manifest,
}
use edge_grid.Tui.Peers.Flow.{
  Built, WasBuilt, Transfers, Waits-started, ModeFacts, IsConsistent, Good,
  cancel_flow-IsConsistent, Good-browsing,
}

-- The facts of the step that the tab is known to be in.
pub facts :
    (m : Tab) (n : Transfers) (b : Built) (x : PeersMode)
    → IsConsistent m n b
    → m.mode ≡ x
    → ModeFacts x m.target m.manifest m.path m.stop_task m.input.focused n b
facts m n b x c e =
    subst
      (λ (y : PeersMode). ModeFacts y m.target m.manifest m.path m.stop_task m.input.focused n b) e
      c.0

snapshot_kept :
    (r : Result Text (List Peer)) (m : Tab) (n : Transfers) (b : Built)
    → IsConsistent m n b
    → IsConsistent (refresh_peers r m) n b
unfolding refresh_peers
snapshot_kept (ok ps) m n b c = c
snapshot_kept (err e) m n b c = c

focus_kept :
    (b : Bool) (x i : Input) → x.focused ≡ i.focused → (if b then x else i).focused ≡ i.focused
focus_kept true x i h = h
focus_kept false x i h = refl

module _ (edit : ℕ → Key → Text → Text) (g : Wiring) (w : World) (n : Transfers) (b : Built) where
  Good-edited : (k : Key) (m : Tab) → IsConsistent m n b → Good n b (edited edit k m)
  unfolding edited
  Good-edited k m c = (
    subst (λ (f : Bool). ModeFacts m.mode m.target m.manifest m.path m.stop_task f n b)
        (sym (focus_kept m.input.focused _ m.input refl)) c.0,
    c.1,
  )

  Good-pick_file :
      (k : Key) (m : Tab)
      → IsConsistent m n b
      → m.mode ≡ PeersMode.pick_file
      → Good n b (update_pick_file edit w k m)
  unfolding update_pick_file
  Good-pick_file Key.esc m c e =
      cancel_flow-IsConsistent m n b c (facts m n b PeersMode.pick_file c e).1
  Good-pick_file Key.ctrl_u m c e = c
  Good-pick_file Key.enter m c e =
      let (s, h, f) = facts m n b PeersMode.pick_file c e in
      let path = expand_path w.home (trim_space m.input.value) in
      if_intro (Good n b) (is_empty path) _ _ c
        (if_intro (Good n b) (is_multiple w.home path) _ _ c ((s, h), c.1))
  Good-pick_file Key.up m c e = Good-edited Key.up m c
  Good-pick_file Key.down m c e = Good-edited Key.down m c
  Good-pick_file (Key.char k) m c e = Good-edited (Key.char k) m c
  Good-pick_file (Key.other_key k) m c e = Good-edited (Key.other_key k) m c

  Good-pick_kind :
      (k : Key) (m : Tab)
      → IsConsistent m n b
      → m.mode ≡ PeersMode.pick_kind
      → Good n b (update_pick_kind edit k m)
  unfolding update_pick_kind start_wait
  Good-pick_kind Key.esc m c e =
      cancel_flow-IsConsistent m n b c (facts m n b PeersMode.pick_kind c e).1
  Good-pick_kind Key.enter m c e =
      let (s, h, f) = facts m n b PeersMode.pick_kind c e in
      if_intro (Good n b) (is_empty (trim_space m.input.value)) _ _ c
        ((h, (m.contexts, refl)), Waits-started m.stop_task m.contexts m.cancelled c.1)
  Good-pick_kind Key.up m c e = Good-edited Key.up m c
  Good-pick_kind Key.down m c e = Good-edited Key.down m c
  Good-pick_kind Key.ctrl_u m c e = Good-edited Key.ctrl_u m c
  Good-pick_kind (Key.char k) m c e = Good-edited (Key.char k) m c
  Good-pick_kind (Key.other_key k) m c e = Good-edited (Key.other_key k) m c

  -- What was shown is what is sent.
  Good-send_manifest :
      (mf : Option Manifest) (wired : Bool) (m : Tab)
      → m.manifest ≡ mf
      → IsConsistent m n b
      → m.mode ≡ PeersMode.ready
      → Good n b (send_manifest edit mf wired m)
  unfolding send_manifest
  Good-send_manifest none wired m e c r = c
  Good-send_manifest (some x) false m e c r = c
  Good-send_manifest (some x) true m e c r =
      let (s, h, (y, shown, built)) = facts m n b PeersMode.ready c r in
      let same : y ≡ x = cc (shown, e) in
      ((s, (x, rw h refl, subst (λ (z : Manifest). WasBuilt m.path z b) same built)), c.1)

  Good-ready :
      (k : Key) (m : Tab)
      → IsConsistent m n b
      → m.mode ≡ PeersMode.ready
      → Good n b (update_ready edit g k m)
  unfolding update_ready
  Good-ready Key.esc m c e = cancel_flow-IsConsistent m n b c (facts m n b PeersMode.ready c e).1
  Good-ready Key.enter m c e = Good-send_manifest m.manifest g.send m refl c e
  Good-ready Key.up m c e = c
  Good-ready Key.down m c e = c
  Good-ready Key.ctrl_u m c e = c
  Good-ready (Key.char k) m c e = c
  Good-ready (Key.other_key k) m c e = c

  Good-waiting :
      (k : Key) (m : Tab) → IsConsistent m n b → n ≡ [] → Good n b (update_waiting edit k m)
  unfolding update_waiting
  Good-waiting Key.esc m c h = cancel_flow-IsConsistent m n b c h
  Good-waiting Key.enter m c h = c
  Good-waiting Key.up m c h = c
  Good-waiting Key.down m c h = c
  Good-waiting Key.ctrl_u m c h = c
  Good-waiting (Key.char k) m c h = c
  Good-waiting (Key.other_key k) m c h = c

  pub Good-key :
      (x : PeersMode) (k : Key) (m : Tab)
      → IsConsistent m n b
      → m.mode ≡ x
      → Good n b (update_key edit g w x k m)
  unfolding update_key
  Good-key PeersMode.browsing k m c e =
      let (s, h) = facts m n b PeersMode.browsing c e in Good-browsing g w n b k m c s h
  Good-key PeersMode.pick_file k m c e = Good-pick_file k m c e
  Good-key PeersMode.building k m c e = Good-waiting k m c (facts m n b PeersMode.building c e).1
  Good-key PeersMode.ready k m c e = Good-ready k m c e
  Good-key PeersMode.sending k m c e = c
  Good-key PeersMode.pick_kind k m c e = Good-pick_kind k m c e
  Good-key PeersMode.dispatching k m c e =
      Good-waiting k m c (facts m n b PeersMode.dispatching c e).0

  pub Good-refresh : (m : Tab) → IsConsistent m n b → Good n b (do_refresh g w m, Cmd.tick_peers)
  unfolding do_refresh
  Good-refresh m c =
      if_intro (λ (t : Tab). IsConsistent t n b) g.client _ _
        (snapshot_kept w.snapshot
          (record m {
            trusted = if g.trust_list then w.trusted else m.trusted;
            task_trust = if g.task_list then w.task_trusted else m.task_trust;
          })
          n b c)
        c
