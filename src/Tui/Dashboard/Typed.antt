-- ===== src/Tui/Dashboard/Typed.antt =====
-- Which messages reach the Peers tab.
use edge_grid.Prelude.{
  ℕ, ◌≡◌, refl, sym, ◌∙◌, subst, Bool, true, false, not, ◌&&◌, ◌||◌, Text, List, if◌then◌else◌,
  if_intro, text_eq,
}
use edge_grid.Prelude.Results.{Result, ok, err}
use edge_grid.Discovery.Members.{Peer}
use edge_grid.Tui.Press.{Press, is_tab, peers_key}
use edge_grid.Tui.Tab.{
  PeersMode, Key, Tab, Wiring, World, is_building, is_dispatching, do_refresh, refresh_peers,
}
use edge_grid.Tui.Peers.{update_key}
use edge_grid.Tui.Dashboard.{
  TabName, Dashboard, Calls, Msg, Cmd, captures_text_input, is_peers, next_tab, update, to_shown,
  peers_shown, to_peers, to_tokens,
}

-- The mode of the Peers tab is that of a transfer that runs.
abbrev pub Sends : Tab → Type 0
Sends m = m.mode ≡ PeersMode.sending

snapshot_kept : (r : Result Text (List Peer)) (m : Tab) → Sends m → Sends (refresh_peers r m)
unfolding refresh_peers
snapshot_kept (ok ps) m h = h
snapshot_kept (err e) m h = h

-- The messages of the tab but for the end of a transfer.
abbrev Others : edge_grid.Tui.Tab.Msg → Type 0
Others (edge_grid.Tui.Tab.Msg.blob_sent p n e) = ⊥
Others _ = Unit

-- The messages but for the end of a transfer.
abbrev pub NotSent : Msg → Type 0
NotSent (Msg.blob_sent p n e) = ⊥
NotSent _ = Unit

module _ (edit : ℕ → Key → Text → Text) where
  skipped :
      (b : Bool) (x : Tab × edge_grid.Tui.Tab.Cmd) (m : Tab)
      → Sends m
      → b ≡ true
      → Sends (if b then (m, edge_grid.Tui.Tab.Cmd.nothing) else x).0
  skipped b x m h e = rw e h

  tab_kept :
      (g : Wiring) (w : World) (x : edge_grid.Tui.Tab.Msg) (m : Tab)
      → Others x
      → Sends m
      → Sends (edge_grid.Tui.Peers.update edit g w x m).0
  unfolding edge_grid.Tui.Peers.update do_refresh update_key is_building is_dispatching
  tab_kept g w edge_grid.Tui.Tab.Msg.refresh m o h =
      if_intro Sends g.client _ _ (snapshot_kept w.snapshot _ h) h
  tab_kept g w edge_grid.Tui.Tab.Msg.transfer_tick m o h = h
  tab_kept g w (edge_grid.Tui.Tab.Msg.blob_sent p n e) m o h = absurd o
  tab_kept g w (edge_grid.Tui.Tab.Msg.task_dispatched p kind id e) m o h =
      skipped (not (is_dispatching m.mode) || not (text_eq p.id m.target.id)) _ m h (rw h refl)
  tab_kept g w (edge_grid.Tui.Tab.Msg.task_result id r) m o h =
      skipped (not (is_dispatching m.mode) || not (text_eq id m.task_id)) _ m h (rw h refl)
  tab_kept g w (edge_grid.Tui.Tab.Msg.manifest_built path r) m o h =
      skipped (not (is_building m.mode) || not (text_eq path m.path)) _ m h (rw h refl)
  tab_kept g w (edge_grid.Tui.Tab.Msg.key k) m o h =
      subst (λ (x : PeersMode). Sends (update_key edit g w x k m).0) (sym h) h

module _ (edit : ℕ → Key → Text → Text) (w : Calls) where
  abbrev DashSends : Dashboard × Cmd → Type 0
  DashSends (d, c) = Sends d.peers

  peers_kept :
      (m : edge_grid.Tui.Tab.Msg) (d : Dashboard)
      → Others m
      → Sends d.peers
      → DashSends (to_peers edit w m d)
  unfolding to_peers
  peers_kept m d o h = tab_kept edit d.wiring w.peers m d.peers o h

  peers_shown_kept : (m : Msg) (d : Dashboard) → Sends d.peers → DashSends (peers_shown edit w m d)
  unfolding peers_shown
  peers_shown_kept Msg.stats_refresh d h = h
  peers_shown_kept Msg.peers_refresh d h = h
  peers_shown_kept Msg.transfer_tick d h = h
  peers_shown_kept Msg.history_refresh d h = h
  peers_shown_kept Msg.token_copied d h = h
  peers_shown_kept Msg.other_msg d h = h
  peers_shown_kept (Msg.window x y) d h = h
  peers_shown_kept (Msg.manifest_built x y) d h = h
  peers_shown_kept (Msg.blob_sent x y z) d h = h
  peers_shown_kept (Msg.task_dispatched x y z u) d h =
      peers_kept (edge_grid.Tui.Tab.Msg.task_dispatched x y z u) d tt h
  peers_shown_kept (Msg.task_result x y) d h =
      peers_kept (edge_grid.Tui.Tab.Msg.task_result x y) d tt h
  peers_shown_kept (Msg.press k) d h = peers_kept (edge_grid.Tui.Tab.Msg.key (peers_key k)) d tt h

  shown_kept :
      (t : TabName) (m : Msg) (d : Dashboard) → Sends d.peers → DashSends (to_shown edit w t m d)
  unfolding to_shown to_tokens
  shown_kept TabName.tokens_tab m d h = h
  shown_kept TabName.overview_tab m d h = h
  shown_kept TabName.history_tab m d h = h
  shown_kept TabName.peers_tab m d h = peers_shown_kept m d h

  next_tab_kept : (t : TabName) (d : Dashboard) → Sends d.peers → Sends (next_tab w t d).peers
  unfolding next_tab edge_grid.Tui.Dashboard.refresh_local
  next_tab_kept TabName.overview_tab d h = h
  next_tab_kept TabName.peers_tab d h = h
  next_tab_kept TabName.history_tab d h =
      if_intro (λ (d : Dashboard). Sends d.peers) d.has_tokens _ _ h h
  next_tab_kept TabName.tokens_tab d h = h

  -- While a transfer runs, only its end takes the Peers tab out of the step of sending.
  pub update-Sends :
      (m : Msg) (d : Dashboard) → NotSent m → Sends d.peers → DashSends (update edit w m d)
  unfolding update edge_grid.Tui.Dashboard.refresh_local edge_grid.Tui.Dashboard.resize
  update-Sends Msg.stats_refresh d o h = h
  update-Sends Msg.peers_refresh d o h = peers_kept edge_grid.Tui.Tab.Msg.refresh d tt h
  update-Sends Msg.transfer_tick d o h = peers_kept edge_grid.Tui.Tab.Msg.transfer_tick d tt h
  update-Sends Msg.history_refresh d o h = h
  update-Sends Msg.token_copied d o h = shown_kept d.tab Msg.token_copied d h
  update-Sends Msg.other_msg d o h = shown_kept d.tab Msg.other_msg d h
  update-Sends (Msg.window x y) d o h = h
  update-Sends (Msg.manifest_built x y) d o h =
      peers_kept (edge_grid.Tui.Tab.Msg.manifest_built x y) d tt h
  update-Sends (Msg.blob_sent x y z) d o h = absurd o
  update-Sends (Msg.task_dispatched x y z u) d o h =
      shown_kept d.tab (Msg.task_dispatched x y z u) d h
  update-Sends (Msg.task_result x y) d o h = shown_kept d.tab (Msg.task_result x y) d h
  update-Sends (Msg.press k) d o h =
      if_intro DashSends (is_tab k && not (captures_text_input d)) _ _ (next_tab_kept d.tab d h)
        (shown_kept d.tab (Msg.press k) d h)

  no_switch : (b t : Bool) (x y : Dashboard × Cmd) → t ≡ true → (if b && not t then x else y) ≡ y
  no_switch true true x y h = refl
  no_switch true false x y h = absurd cc
  no_switch false t x y h = refl

  at_peers :
      (k : Press) (t : TabName) (d : Dashboard)
      → is_peers t && edge_grid.Tui.Tab.captures_text_input d.peers.mode ≡ true
      → to_shown edit w t (Msg.press k) d
        ≡ to_peers edit w (edge_grid.Tui.Tab.Msg.key (peers_key k)) d
  unfolding to_shown peers_shown is_peers
  at_peers k TabName.peers_tab d h = refl
  at_peers k TabName.overview_tab d h = absurd cc
  at_peers k TabName.history_tab d h = absurd cc
  at_peers k TabName.tokens_tab d h = absurd cc

  -- Of keys, only those of a text field reach the tab, all of them, the key "tab" too.
  pub update-typed :
      (k : Press) (d : Dashboard)
      → captures_text_input d ≡ true
      → update edit w (Msg.press k) d ≡ to_peers edit w (edge_grid.Tui.Tab.Msg.key (peers_key k)) d
  unfolding update captures_text_input
  update-typed k d h = no_switch (is_tab k) (captures_text_input d) _ _ h ∙ at_peers k d.tab d h
