-- ===== src/Tui/App/Sending.antt =====
-- A transfer that was started from the Peers tab, while anything else goes on.
use edge_grid.Prelude.{
  ◌≡◌, refl, sym, subst, Bool, true, false, not, ◌&&◌, ◌||◌, Text, Option, none, some, [], ◌∷◌,
  is_empty, if◌then◌else◌, if_intro, if_cases, text_eq, codes,
}
use edge_grid.Prelude.Int.{ℤ}
use edge_grid.Prelude.Lines.{trim_space}
use edge_grid.Tui.Press.{Press, is_char, is_ctrl_c}
use edge_grid.Tui.Paths.{trim_prefix}
use edge_grid.Discovery.Members.{Peer}
use edge_grid.Tui.Tab.{PeersMode}
use edge_grid.Tui.Dashboard.{
  press, window, stats_refresh, peers_refresh, transfer_tick, history_refresh, token_copied,
  other_msg, manifest_built, blob_sent, task_dispatched, task_result, captures_text_input,
}
use edge_grid.Tui.Dashboard.Typed.{Sends, NotSent, update-Sends}
use edge_grid.Tui.App.{
  App, Msg, Cmd, Env, Fields, key_of, direct, routed, update, to_dashboard, to_bar, to_key, to_open,
  to_logs, under_logs, sized, closed_bar, resized, activate_bar, under_bar, run_command, run_cut,
  use_named, cut_prefix, show,
}
use edge_grid.Tui.App.Timers.{covered}
use edge_grid.Tui.App.Typing.{uncovered}
use edge_grid.Tui.App.Timers.Polls.{Arrivals, Loop, deliver, run}

-- A message that is not the end of a transfer, or comes while the logs or the command line are open.
abbrev pub Missed : Msg → App → Type 0
Missed (Msg.of_dashboard (blob_sent p n e)) a = covered a ≡ true
Missed _ a = Unit

abbrev AppSends : App × Cmd → Type 0
AppSends (a, c) = Sends a.dashboard.peers

pub neither : (b c : Bool) → b ≡ false → c ≡ false → b || c ≡ false
neither b c h k = rw (h, k) refl

module _ (f : Fields) (e : Env) where
  dash_kept :
      (m : edge_grid.Tui.Dashboard.Msg) (a : App)
      → NotSent m
      → Sends a.dashboard.peers
      → AppSends (to_dashboard f e m a)
  unfolding to_dashboard
  dash_kept m a o h = update-Sends f.edit e.calls m a.dashboard o h

  sized_kept : (n : ℤ) (a : App) → Sends a.dashboard.peers → Sends (sized f e n a).dashboard.peers
  unfolding sized
  sized_kept n a h = update-Sends f.edit e.calls (window a.width n) a.dashboard tt h

  closed_kept : (a : App) → Sends a.dashboard.peers → Sends (closed_bar f e a).dashboard.peers
  unfolding closed_bar
  closed_kept a h =
      if_intro (λ (a : App). Sends a.dashboard.peers) (not a.cmdbar.active) _ _
        (sized_kept a.height a h) h

  named_kept :
      (uses : Text → Bool) (name : Text) (a : App)
      → Sends a.dashboard.peers
      → AppSends (use_named uses name a)
  unfolding use_named
  named_kept uses name a h = if_intro AppSends (not (is_empty name) && uses name) _ _ h h

  cut_kept :
      (uses : Text → Bool) (c : Option Text) (s : Text) (a : App)
      → Sends a.dashboard.peers
      → AppSends (run_cut uses c s a)
  unfolding run_cut show
  cut_kept uses none s a h =
      if_intro (λ (a : App). Sends a.dashboard.peers) (text_eq s (codes "logs")) _ _ h h
  cut_kept uses (some name) s a h = named_kept uses (trim_space name) a h

  logs_kept : (m : Msg) (a : App) → Sends a.dashboard.peers → AppSends (to_logs f m a)
  unfolding to_logs
  logs_kept Msg.stats_tick a h = h
  logs_kept Msg.close_logs a h = h
  logs_kept (Msg.submit c) a h = h
  logs_kept (Msg.of_dashboard m) a h = h

  bar_kept : (k : Option Press) (a : App) → Sends a.dashboard.peers → AppSends (to_bar f e k a)
  unfolding to_bar
  bar_kept none a h = closed_kept _ h
  bar_kept (some k) a h = closed_kept _ h

  direct_kept :
      (m : Msg) (a : App)
      → Missed m a
      → covered a ≡ false
      → Sends a.dashboard.peers
      → AppSends (direct f e m a)
  unfolding direct
  direct_kept Msg.stats_tick a o u h = h
  direct_kept Msg.close_logs a o u h = h
  direct_kept (Msg.submit c) a o u h = h
  direct_kept (Msg.of_dashboard peers_refresh) a o u h = dash_kept peers_refresh a tt h
  direct_kept (Msg.of_dashboard transfer_tick) a o u h = dash_kept transfer_tick a tt h
  direct_kept (Msg.of_dashboard history_refresh) a o u h = dash_kept history_refresh a tt h
  direct_kept (Msg.of_dashboard token_copied) a o u h = dash_kept token_copied a tt h
  direct_kept (Msg.of_dashboard other_msg) a o u h = dash_kept other_msg a tt h
  direct_kept (Msg.of_dashboard (manifest_built x y)) a o u h =
      dash_kept (manifest_built x y) a tt h
  direct_kept (Msg.of_dashboard (blob_sent x y z)) a o u h = absurd cc
  direct_kept (Msg.of_dashboard (task_dispatched x y z v)) a o u h =
      dash_kept (task_dispatched x y z v) a tt h
  direct_kept (Msg.of_dashboard (task_result x y)) a o u h = dash_kept (task_result x y) a tt h
  direct_kept (Msg.of_dashboard stats_refresh) a o u h = dash_kept stats_refresh a tt h
  direct_kept (Msg.of_dashboard (window x y)) a o u h = dash_kept (window x y) a tt h
  direct_kept (Msg.of_dashboard (press k)) a o u h = dash_kept (press k) a tt h

  open_kept :
      (x : Option Press) (m : Msg) (a : App)
      → Missed m a
      → covered a ≡ false
      → Sends a.dashboard.peers
      → AppSends (to_open f e x m a)
  unfolding to_open to_key activate_bar
  open_kept none m a o u h = direct_kept m a o u h
  open_kept (some k) m a o u h =
      let typing = captures_text_input a.dashboard in
      if_intro AppSends (is_char b'q' k && not typing) _ _ h (
        if_intro AppSends (is_char b'/' k && not typing) _ _
          (sized_kept (under_bar f a.height)
            (record a { cmdbar = edge_grid.Tui.Cmdbar.activate f.lower f.edit_bar a.cmdbar }) h)
          (direct_kept m a o u h))

  bar_or_open_kept :
      (m : Msg) (a : App)
      → a.show_logs ≡ false
      → Missed m a
      → Sends a.dashboard.peers
      → AppSends (if a.cmdbar.active then to_bar f e (key_of m) a else to_open f e (key_of m) m a)
  bar_or_open_kept m a s o h =
      if_cases AppSends a.cmdbar.active _ _ (λ c. bar_kept (key_of m) a h)
        (λ c. open_kept (key_of m) m a o (neither a.show_logs a.cmdbar.active s c) h)

  below_kept :
      (m : Msg) (a : App)
      → a.show_logs ≡ false
      → Missed m a
      → Sends a.dashboard.peers
      → AppSends (under_logs f e m a)
  unfolding under_logs run_command
  below_kept (Msg.submit c) a s o h =
      let x = trim_prefix c (codes "/") in
      cut_kept e.use_profile (cut_prefix x (codes "profile ")) x _ (sized_kept a.height a h)
  below_kept Msg.stats_tick a s o h = bar_or_open_kept Msg.stats_tick a s o h
  below_kept Msg.close_logs a s o h = bar_or_open_kept Msg.close_logs a s o h
  below_kept (Msg.of_dashboard m) a s o h = bar_or_open_kept (Msg.of_dashboard m) a s o h

  routed_kept :
      (m : Msg) (a : App) → Missed m a → Sends a.dashboard.peers → AppSends (routed f e m a)
  unfolding routed
  routed_kept m a o h =
      if_cases AppSends a.show_logs _ _ (λ s. logs_kept m a h) (λ s. below_kept m a s o h)

  resized_kept :
      (x y : ℤ) (a : App) → Sends a.dashboard.peers → Sends (resized f e x y a).dashboard.peers
  unfolding resized
  resized_kept x y a h =
      sized_kept (if a.cmdbar.active then under_bar f y else y) (record a { width = x; height = y })
        h

  step_kept : (m : Msg) (a : App) → Missed m a → Sends a.dashboard.peers → AppSends (update f e m a)
  unfolding update
  step_kept Msg.stats_tick a o h = h
  step_kept Msg.close_logs a o h = routed_kept Msg.close_logs a o h
  step_kept (Msg.submit c) a o h = routed_kept (Msg.submit c) a o h
  step_kept (Msg.of_dashboard stats_refresh) a o h = dash_kept stats_refresh a tt h
  step_kept (Msg.of_dashboard (window x y)) a o h = resized_kept x y a h
  step_kept (Msg.of_dashboard (press k)) a o h =
      if_intro AppSends (is_ctrl_c k) _ _ h (routed_kept (Msg.of_dashboard (press k)) a o h)
  step_kept (Msg.of_dashboard peers_refresh) a o h =
      routed_kept (Msg.of_dashboard peers_refresh) a o h
  step_kept (Msg.of_dashboard transfer_tick) a o h =
      routed_kept (Msg.of_dashboard transfer_tick) a o h
  step_kept (Msg.of_dashboard history_refresh) a o h =
      routed_kept (Msg.of_dashboard history_refresh) a o h
  step_kept (Msg.of_dashboard token_copied) a o h =
      routed_kept (Msg.of_dashboard token_copied) a o h
  step_kept (Msg.of_dashboard other_msg) a o h = routed_kept (Msg.of_dashboard other_msg) a o h
  step_kept (Msg.of_dashboard (manifest_built x y)) a o h =
      routed_kept (Msg.of_dashboard (manifest_built x y)) a o h
  step_kept (Msg.of_dashboard (blob_sent x y z)) a o h =
      routed_kept (Msg.of_dashboard (blob_sent x y z)) a o h
  step_kept (Msg.of_dashboard (task_dispatched x y z v)) a o h =
      routed_kept (Msg.of_dashboard (task_dispatched x y z v)) a o h
  step_kept (Msg.of_dashboard (task_result x y)) a o h =
      routed_kept (Msg.of_dashboard (task_result x y)) a o h

module _ (f : Fields) where
  -- No end of a transfer arrives where the dashboard is uncovered.
  unfoldable pub AllMissed : Arrivals → Loop → Type 0
  AllMissed [] s = Unit
  AllMissed ((e, m) ∷ ms) s = Missed m s.app × AllMissed ms (deliver f e m s)

  run_kept :
      (ms : Arrivals) (s : Loop)
      → AllMissed ms s
      → Sends s.app.dashboard.peers
      → Sends (run f ms s).app.dashboard.peers
  unfolding run deliver AllMissed
  run_kept [] s o h = h
  run_kept ((e, m) ∷ ms) s (o, os) h = run_kept ms _ os (step_kept f e m s.app o h)

  arrived :
      (e : Env) (p : Peer) (n : ℤ) (x : Option Text) (a : App)
      → covered a ≡ false
      → (update f e (Msg.of_dashboard (blob_sent p n x)) a).0.dashboard.peers.mode
        ≡ PeersMode.browsing
  unfolding update routed under_logs key_of to_open direct to_dashboard
      edge_grid.Tui.Dashboard.update edge_grid.Tui.Dashboard.to_peers edge_grid.Tui.Peers.update
      edge_grid.Tui.Peers.on_sent
  arrived e p n none a u =
      subst (λ (y : App × Cmd). y.0.dashboard.peers.mode ≡ PeersMode.browsing)
        (sym (uncovered a.show_logs a.cmdbar.active _ _ _ u)) refl
  arrived e p n (some x) a u =
      subst (λ (y : App × Cmd). y.0.dashboard.peers.mode ≡ PeersMode.browsing)
        (sym (uncovered a.show_logs a.cmdbar.active _ _ _ u)) refl

  -- A Peers tab that sends stays in that step whatever keys, answers, ticks, sizes and commands come, and
  -- through each end of a transfer that comes while the logs or the command line are open, which is lost;
  -- and an end that comes while neither is open takes it back to the list.
  pub run-sending :
      (s : Loop) (ms : Arrivals)
      → Sends s.app.dashboard.peers
      → AllMissed ms s
      → Sends (run f ms s).app.dashboard.peers
        × ((e : Env) (p : Peer) (n : ℤ) (x : Option Text)
            → covered (run f ms s).app ≡ false
            → (deliver f e
                (Msg.of_dashboard (blob_sent p n x))
                (run f ms s)).app.dashboard.peers.mode
              ≡ PeersMode.browsing)
  unfolding deliver
  run-sending s ms h o = (run_kept ms s o h, λ e p n x u. arrived e p n x (run f ms s).app u)
