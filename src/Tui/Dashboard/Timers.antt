-- ===== src/Tui/Dashboard/Timers.antt =====
-- The timers that keep the tabs up to date, and the one that Update starts.
use edge_grid.Prelude.{
  ℕ, ◌≡◌, refl, Bool, true, false, not, ◌&&◌, Text, Option, none, some, if_intro,
}
use edge_grid.Tui.Press.{is_tab, peers_key}
use edge_grid.Tui.Peers.Quiet.{Quiet, Answer, update-IsQuiet}
use edge_grid.Tui.Dashboard.{
  TabName, Dashboard, Calls, Msg, Cmd, captures_text_input, update, to_shown, peers_shown, to_peers,
  to_tokens,
}

pub data Timer : Type 0 where
  stats refresh peers transfers history : Timer

abbrev pub same : Timer → Timer → Bool
same stats stats = true
same refresh refresh = true
same peers peers = true
same transfers transfers = true
same history history = true
same _ _ = false

abbrev pub is : Option Timer → Timer → Bool
is none t = false
is (some x) t = same x t

-- The timers of the tabs.
abbrev pub is_poll : Timer → Bool
is_poll stats = false
is_poll refresh = false
is_poll _ = true

-- The timer that a command starts.
abbrev pub of_tab : edge_grid.Tui.Tab.Cmd → Option Timer
of_tab edge_grid.Tui.Tab.Cmd.tick_peers = some peers
of_tab edge_grid.Tui.Tab.Cmd.tick_transfers = some transfers
of_tab _ = none

abbrev pub of_dash : Cmd → Option Timer
of_dash Cmd.tick_refresh = some refresh
of_dash Cmd.tick_history = some history
of_dash (Cmd.of_peers c) = of_tab c
of_dash _ = none

-- The timer that a message comes from.
abbrev pub fired_dash : Msg → Option Timer
fired_dash Msg.stats_refresh = some refresh
fired_dash Msg.peers_refresh = some peers
fired_dash Msg.transfer_tick = some transfers
fired_dash Msg.history_refresh = some history
fired_dash _ = none

Quiet-of_tab : (c : edge_grid.Tui.Tab.Cmd) → Quiet c → of_tab c ≡ none
Quiet-of_tab edge_grid.Tui.Tab.Cmd.nothing h = refl
Quiet-of_tab edge_grid.Tui.Tab.Cmd.tick_peers h = absurd h
Quiet-of_tab edge_grid.Tui.Tab.Cmd.tick_transfers h = absurd h
Quiet-of_tab (edge_grid.Tui.Tab.Cmd.build_manifest p) h = refl
Quiet-of_tab (edge_grid.Tui.Tab.Cmd.send_blob p q m) h = refl
Quiet-of_tab (edge_grid.Tui.Tab.Cmd.dispatch_task n p k) h = refl
Quiet-of_tab (edge_grid.Tui.Tab.Cmd.await_result n p k) h = refl
Quiet-of_tab (edge_grid.Tui.Tab.Cmd.set_trust a b c) h = refl
Quiet-of_tab (edge_grid.Tui.Tab.Cmd.set_task_trust a b c) h = refl

module _ (edit : ℕ → edge_grid.Tui.Tab.Key → Text → Text) (w : Calls) where
  abbrev Starts : Option Timer → Dashboard × Cmd → Type 0
  Starts t (d, c) = of_dash c ≡ t

  answers :
      (m : edge_grid.Tui.Tab.Msg) (d : Dashboard) → Answer m → Starts none (to_peers edit w m d)
  unfolding to_peers
  answers m d h = Quiet-of_tab _ (update-IsQuiet edit d.wiring w.peers d.peers m h)

  peers_shown-Starts : (m : Msg) (d : Dashboard) → Starts none (peers_shown edit w m d)
  unfolding peers_shown
  peers_shown-Starts (Msg.press k) d = answers (edge_grid.Tui.Tab.Msg.key (peers_key k)) d tt
  peers_shown-Starts (Msg.task_dispatched p kind id e) d =
      answers (edge_grid.Tui.Tab.Msg.task_dispatched p kind id e) d tt
  peers_shown-Starts (Msg.task_result id r) d =
      answers (edge_grid.Tui.Tab.Msg.task_result id r) d tt
  peers_shown-Starts Msg.stats_refresh d = refl
  peers_shown-Starts Msg.peers_refresh d = refl
  peers_shown-Starts Msg.transfer_tick d = refl
  peers_shown-Starts Msg.history_refresh d = refl
  peers_shown-Starts Msg.token_copied d = refl
  peers_shown-Starts Msg.other_msg d = refl
  peers_shown-Starts (Msg.window x y) d = refl
  peers_shown-Starts (Msg.manifest_built x y) d = refl
  peers_shown-Starts (Msg.blob_sent x y z) d = refl

  shown-Starts : (t : TabName) (m : Msg) (d : Dashboard) → Starts none (to_shown edit w t m d)
  unfolding to_shown to_tokens
  shown-Starts TabName.tokens_tab m d = refl
  shown-Starts TabName.overview_tab m d = refl
  shown-Starts TabName.history_tab m d = refl
  shown-Starts TabName.peers_tab m d = peers_shown-Starts m d

  -- Whatever the tab that is shown, Update starts exactly the timer that the message comes from.
  pub update-Starts : (m : Msg) (d : Dashboard) → Starts (fired_dash m) (update edit w m d)
  unfolding update to_peers edge_grid.Tui.Peers.update
  update-Starts (Msg.press k) d =
      if_intro (Starts none) (is_tab k && not (captures_text_input d)) _ _ refl
        (shown-Starts d.tab (Msg.press k) d)
  update-Starts Msg.stats_refresh d = refl
  update-Starts Msg.peers_refresh d = refl
  update-Starts Msg.transfer_tick d = refl
  update-Starts Msg.history_refresh d = refl
  update-Starts Msg.token_copied d = shown-Starts d.tab Msg.token_copied d
  update-Starts Msg.other_msg d = shown-Starts d.tab Msg.other_msg d
  update-Starts (Msg.window x y) d = refl
  update-Starts (Msg.manifest_built p r) d = answers (edge_grid.Tui.Tab.Msg.manifest_built p r) d tt
  update-Starts (Msg.blob_sent p n e) d = answers (edge_grid.Tui.Tab.Msg.blob_sent p n e) d tt
  update-Starts (Msg.task_dispatched p kind id e) d =
      shown-Starts d.tab (Msg.task_dispatched p kind id e) d
  update-Starts (Msg.task_result id r) d = shown-Starts d.tab (Msg.task_result id r) d
