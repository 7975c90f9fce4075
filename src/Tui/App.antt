-- ===== src/Tui/App.antt =====
-- internal/tui/app/app.go: the root of the interface, with the command line, the logs over the dashboard
-- (internal/tui/logsview/logsview.go), and the global keys.
pub mod Timers
pub mod Typing
pub mod Sending
pub mod Quit
pub mod Keys
use edge_grid.Prelude.{
  ℕ, ◌+◌, Bool, true, false, not, ◌&&◌, ◌||◌, Text, List, [], ◌∷◌, Option, none, some, codes, drop,
  length, is_empty, text_eq, if◌then◌else◌, ◌==◌,
}
use edge_grid.Prelude.Int.{ℤ, pos, negsuc, add64}
use edge_grid.Prelude.Lines.{trim_space}
use edge_grid.Tui.Press.{
  Press, backspace, bar_key, char, code, ctrl_c, ctrl_u, down, enter, esc, is_char, is_ctrl_c,
  is_esc, other, shift_tab, tab, up,
}
use edge_grid.Tui.Paths.{has_prefix, trim_prefix}
use edge_grid.Tui.Cmdbar.{Bar}
use edge_grid.Tui.Dashboard.{Dashboard, Calls, captures_text_input, window, press, stats_refresh}

-- The messages: systemStatsTickMsg, logsview.CloseMsg, cmdbar.SubmitMsg, and those of the dashboard, the
-- window's size, the keys and unknown ones among them.
pub data Msg : Type 0 where
  stats_tick close_logs : Msg
  submit : Text → Msg
  of_dashboard : edge_grid.Tui.Dashboard.Msg → Msg

-- The commands; `close` and `submitted` hand their message back to the event loop.
pub data Cmd : Type 0 where
  nothing quit tick_stats close : Cmd
  submitted : Text → Cmd
  of_dashboard : edge_grid.Tui.Dashboard.Cmd → Cmd

-- App, without the texts of the footer and the width of the command line.
pub record App : Type 0 where
  pub dashboard : Dashboard
  pub cmdbar : Bar
  pub show_logs : Bool
  pub restart_profile : Text
  pub width : ℤ
  pub height : ℤ

-- commands
abbrev pub commands : List Text
commands = codes "logs" ∷ codes "profile" ∷ []

-- New, around the dashboard that its own New builds.
unfoldable pub new : Dashboard → App
new d = record {
  dashboard = d;
  cmdbar = edge_grid.Tui.Cmdbar.new commands;
  show_logs = false;
  restart_profile = [];
  width = pos 0;
  height = pos 0;
}

-- WithTrust, WithTasks and WithHistory
unfoldable pub with_trust : Calls → Bool → Bool → App → App
with_trust w list set a = record a {
  dashboard = edge_grid.Tui.Dashboard.with_trust w list set a.dashboard;
}

unfoldable pub with_tasks : Calls → Bool → Bool → Bool → Bool → App → App
with_tasks w list set dispatch await a = record a {
  dashboard = edge_grid.Tui.Dashboard.with_tasks w list set dispatch await a.dashboard;
}

unfoldable pub with_history : Calls → Bool → Bool → App → App
with_history w totals recent a = record a {
  dashboard = edge_grid.Tui.Dashboard.with_history w totals recent a.dashboard;
}

-- WantsRestart
unfoldable pub wants_restart : App → Option Text
wants_restart a = if is_empty a.restart_profile then none else some a.restart_profile

-- strings.CutPrefix
unfoldable pub cut_prefix : Text → Text → Option Text
cut_prefix s p = if has_prefix s p then some (drop (length p) s) else none

show : App → App
show a = record a { show_logs = true }

use_named : (Text → Bool) → Text → App → App × Cmd
use_named uses name a =
    if not (is_empty name) && uses name
    then (record a { restart_profile = name }, quit)
    else (a, nothing)

run_cut : (Text → Bool) → Option Text → Text → App → App × Cmd
unfolding use_named show
run_cut uses (some name) command a = use_named uses (trim_space name) a
run_cut uses none command a = (if text_eq command (codes "logs") then show a else a, nothing)

-- runCommand. `uses name` tells whether node.UseProfile goes through. The logs are read and shown by
-- logsview.New, which has no part in what follows.
unfoldable pub run_command : (Text → Bool) → Text → App → App × Cmd
unfolding run_cut
run_command uses c a =
    let command = trim_prefix c (codes "/") in
    run_cut uses (cut_prefix command (codes "profile ")) command a

-- msg.(tea.KeyMsg)
pub key_of : Msg → Option Press
key_of (of_dashboard (press k)) = some k
key_of m = none

-- logsview.Update: it scrolls, but for the key that closes it.
logs_update : Option Press → Cmd
unfolding is_esc
logs_update none = nothing
logs_update (some k) = if is_esc k then close else nothing

-- What one Update of the App is given: the calls of the dashboard, and those of node.UseProfile.
pub record Env : Type 0 where
  pub calls : Calls
  pub use_profile : Text → Bool

-- The libraries' strings.ToLower, and the Update of their text field, in the Peers tab and in the command
-- line.
pub record Fields : Type 0 where
  pub edit : ℕ → edge_grid.Tui.Tab.Key → Text → Text
  pub lower : Text → Text
  pub edit_bar : edge_grid.Tui.Cmdbar.Key → Text → Text

module _ (f : Fields) where
  -- a.dashboard.Update, with its command.
  unfoldable pub to_dashboard : Env → edge_grid.Tui.Dashboard.Msg → App → App × Cmd
  to_dashboard e m a =
      let (d, c) = edge_grid.Tui.Dashboard.update f.edit e.calls m a.dashboard in
      (record a { dashboard = d }, of_dashboard c)

  -- The dashboard's Update on a size, of which the command is dropped.
  unfoldable pub sized : Env → ℤ → App → App
  sized e height a = record a {
    dashboard =
        (edge_grid.Tui.Dashboard.update f.edit e.calls (window a.width height) a.dashboard).0;
  }

  -- height - 5
  under_bar : ℤ → ℤ
  under_bar height = add64 height (negsuc 4)

  closed_bar : Env → App → App
  unfolding sized
  closed_bar e a = if not a.cmdbar.active then sized e a.height a else a

  submit_cmd : Option Text → Cmd
  submit_cmd none = nothing
  submit_cmd (some c) = submitted c

  -- The message while the command line is open. On what is not a key it leaves its text as it is.
  to_bar : Env → Option Press → App → App × Cmd
  unfolding closed_bar submit_cmd bar_key
  to_bar e none a = (
    closed_bar e
        (record a { cmdbar = edge_grid.Tui.Cmdbar.update_suggestions f.lower f.edit_bar a.cmdbar }),
    nothing,
  )
  to_bar e (some k) a =
      let (b, s) = edge_grid.Tui.Cmdbar.update f.lower f.edit_bar (bar_key k) a.cmdbar in
      (closed_bar e (record a { cmdbar = b }), submit_cmd s)

  activate_bar : Env → App → App
  unfolding sized under_bar
  activate_bar e a =
      sized e (under_bar a.height)
        (record a { cmdbar = edge_grid.Tui.Cmdbar.activate f.lower f.edit_bar a.cmdbar })

  -- The last Update, where no message but the dashboard's does anything.
  direct : Env → Msg → App → App × Cmd
  unfolding to_dashboard
  direct e (of_dashboard m) a = to_dashboard e m a
  direct e m a = (a, nothing)

  -- The key "q", the key "/", and all else, where nothing lies over the dashboard.
  to_key : Env → Press → Msg → App → App × Cmd
  unfolding activate_bar direct is_char
  to_key e k m a =
      let typing = captures_text_input a.dashboard in
      if is_char b'q' k && not typing
      then (a, quit)
      else if is_char b'/' k && not typing
      then (activate_bar e a, nothing)
      else direct e m a

  to_open : Env → Option Press → Msg → App → App × Cmd
  unfolding to_key
  to_open e none m a = direct e m a
  to_open e (some k) m a = to_key e k m a

  to_logs : Msg → App → App × Cmd
  unfolding logs_update key_of
  to_logs close_logs a = (record a { show_logs = false }, nothing)
  to_logs m a = (a, logs_update (key_of m))

  -- From SubmitMsg on.
  under_logs : Env → Msg → App → App × Cmd
  unfolding to_bar to_open sized run_command key_of
  under_logs e (submit c) a = run_command e.use_profile c (sized e a.height a)
  under_logs e m a = if a.cmdbar.active then to_bar e (key_of m) a else to_open e (key_of m) m a

  resized : Env → ℤ → ℤ → App → App
  unfolding sized under_bar
  resized e width height a =
      let a' = record a { width = width; height = height } in
      sized e (if a.cmdbar.active then under_bar height else height) a'

  -- From `if a.showLogs` on.
  routed : Env → Msg → App → App × Cmd
  unfolding to_logs under_logs
  routed e m a = if a.show_logs then to_logs m a else under_logs e m a

  -- App.Update
  unfoldable pub update : Env → Msg → App → App × Cmd
  unfolding resized routed to_dashboard is_ctrl_c
  update e stats_tick a = (a, tick_stats)
  update e (of_dashboard (press k)) a =
      if is_ctrl_c k then (a, quit) else routed e (of_dashboard (press k)) a
  update e (of_dashboard stats_refresh) a = to_dashboard e stats_refresh a
  update e (of_dashboard (window width height)) a = (resized e width height a, nothing)
  update e m a = routed e m a
