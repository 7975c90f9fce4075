-- ===== src/Tui/App/Timers.antt =====
-- The timers of the interface, which run on only where their message comes back to the tab that starts
-- them again.
pub mod Polls
use edge_grid.Prelude.{
  ℕ, ◌≡◌, refl, sym, subst, ◌∙◌, Bool, true, false, not, ◌&&◌, ◌||◌, Text, Option, none, some,
  if◌then◌else◌, if_intro, if_cases, ◌==◌, text_eq, codes, is_empty,
}
use edge_grid.Prelude.Lines.{trim_space}
use edge_grid.Tui.Press.{Press, is_char, is_ctrl_c, is_esc}
use edge_grid.Tui.Paths.{trim_prefix}
use edge_grid.Tui.Dashboard.{
  press, window, stats_refresh, peers_refresh, transfer_tick, history_refresh, token_copied,
  other_msg, manifest_built, blob_sent, task_dispatched, task_result, captures_text_input,
}
use edge_grid.Tui.Dashboard.Timers.{
  Timer, stats, refresh, is_poll, of_dash, fired_dash, update-Starts,
}
use edge_grid.Tui.App.{
  App, Msg, Cmd, Env, Fields, update, to_dashboard, to_bar, to_key, to_open, to_logs, under_logs,
  logs_update, key_of, direct, routed, run_command, run_cut, use_named, cut_prefix, submit_cmd,
}
use edge_grid.Tui.App.Keys.{key_of-press}

-- The timer that a command starts, and the one that a message comes from.
abbrev pub started : Cmd → Option Timer
started Cmd.tick_stats = some stats
started (Cmd.of_dashboard c) = of_dash c
started _ = none

abbrev pub fired : Msg → Option Timer
fired Msg.stats_tick = some stats
fired (Msg.of_dashboard m) = fired_dash m
fired _ = none

-- The logs or the command line lie over the dashboard.
abbrev pub covered : App → Bool
covered a = a.show_logs || a.cmdbar.active

-- What is started again: nothing for the timer of a tab that is covered.
abbrev pub kept : Bool → Option Timer → Option Timer
kept c none = none
kept c (some t) = if c && is_poll t then none else some t

kept-uncovered : (t : Option Timer) → t ≡ kept false t
kept-uncovered none = refl
kept-uncovered (some t) = refl

stays : (c : Bool) (t : Timer) → is_poll t ≡ false → some t ≡ kept c (some t)
stays true t h = rw h refl
stays false t h = refl

abbrev Starts : Option Timer → App × Cmd → Type 0
Starts t (a, c) = started c ≡ t

either :
    (b c : Bool) (t : Option Timer) (x y : App × Cmd)
    → Starts (kept true t) x
    → Starts (kept c t) y
    → Starts (kept (b || c) t) (if b then x else y)
either true c t x y h k = h
either false c t x y h k = k

under :
    (b : Bool) (t : Option Timer) (x y : App × Cmd)
    → Starts (kept true t) x
    → Starts (kept false t) y
    → Starts (kept b t) (if b then x else y)
under true t x y h k = h
under false t x y h k = k

module _ (f : Fields) (e : Env) where
  named-Starts : (uses : Text → Bool) (name : Text) (a : App) → Starts none (use_named uses name a)
  unfolding use_named
  named-Starts uses name a = if_intro (Starts none) (not (is_empty name) && uses name) _ _ refl refl

  cut-Starts :
      (uses : Text → Bool) (c : Option Text) (s : Text) (a : App) → Starts none (run_cut uses c s a)
  unfolding run_cut
  cut-Starts uses none s a = refl
  cut-Starts uses (some name) s a = named-Starts uses (trim_space name) a

  keyed-Starts : (k : Option Press) → started (logs_update k) ≡ none
  unfolding logs_update
  keyed-Starts none = refl
  keyed-Starts (some k) = if_intro (λ (c : Cmd). started c ≡ none) (is_esc k) _ _ refl refl

  logs-Starts : (m : Msg) (a : App) → Starts none (to_logs f m a)
  unfolding to_logs key_of
  logs-Starts Msg.stats_tick a = keyed-Starts none
  logs-Starts Msg.close_logs a = refl
  logs-Starts (Msg.submit c) a = keyed-Starts none
  logs-Starts (Msg.of_dashboard m) a = keyed-Starts (key_of (Msg.of_dashboard m))

  submit-Starts : (c : Option Text) → started (submit_cmd f c) ≡ none
  unfolding submit_cmd
  submit-Starts none = refl
  submit-Starts (some c) = refl

  bar-Starts : (k : Option Press) (a : App) → Starts none (to_bar f e k a)
  unfolding to_bar
  bar-Starts none a = refl
  bar-Starts (some k) a = submit-Starts _

  direct-Starts :
      (m : Msg) (a : App)
      → kept true (fired m) ≡ none
      → Starts (kept false (fired m)) (direct f e m a)
  unfolding direct to_dashboard
  direct-Starts Msg.stats_tick a h = absurd cc
  direct-Starts Msg.close_logs a h = refl
  direct-Starts (Msg.submit c) a h = refl
  direct-Starts (Msg.of_dashboard m) a h =
      update-Starts f.edit e.calls m a.dashboard ∙ kept-uncovered (fired_dash m)

  open-Starts :
      (m : Msg) (x : Option Press) (a : App)
      → key_of m ≡ x
      → kept true (fired m) ≡ none
      → Starts (kept false (fired m)) (to_open f e x m a)
  unfolding to_open to_key
  open-Starts m none a e h = direct-Starts m a h
  open-Starts m (some k) a e h =
      let typing = captures_text_input a.dashboard in
      let no_timer : none ≡ kept false (fired m) =
        subst (λ (x : Msg). none ≡ kept false (fired x)) (sym (key_of-press m k e)) refl in
      if_intro (Starts (kept false (fired m))) (is_char b'q' k && not typing) _ _ no_timer (
        if_intro (Starts (kept false (fired m))) (is_char b'/' k && not typing) _ _ no_timer
          (direct-Starts m a h))

  uncovered-Starts :
      (m : Msg) (a : App)
      → kept true (fired m) ≡ none
      → Starts
          (kept a.cmdbar.active (fired m))
          (if a.cmdbar.active then to_bar f e (key_of m) a else to_open f e (key_of m) m a)
  uncovered-Starts m a h =
      under a.cmdbar.active (fired m) _ _ (bar-Starts (key_of m) a ∙ sym h)
        (open-Starts m (key_of m) a refl h)

  under-Starts :
      (m : Msg) (a : App)
      → kept true (fired m) ≡ none
      → Starts (kept a.cmdbar.active (fired m)) (under_logs f e m a)
  unfolding under_logs run_command
  under-Starts (Msg.submit c) a h =
      let s = trim_prefix c (codes "/") in
      cut-Starts e.use_profile (cut_prefix s (codes "profile ")) s _
  under-Starts Msg.stats_tick a h = absurd cc
  under-Starts Msg.close_logs a h = uncovered-Starts Msg.close_logs a h
  under-Starts (Msg.of_dashboard m) a h = uncovered-Starts (Msg.of_dashboard m) a h

  routed-Starts :
      (m : Msg) (a : App)
      → kept true (fired m) ≡ none
      → Starts (kept (covered a) (fired m)) (routed f e m a)
  unfolding routed
  routed-Starts m a h =
      either a.show_logs a.cmdbar.active (fired m) _ _ (logs-Starts m a ∙ sym h)
        (under-Starts m a h)

  -- A message starts again the timer that it comes from, and no other, but for the timer of a tab under
  -- the logs or the command line, which is not started again.
  pub update-Restarts :
      (m : Msg) (a : App) → started (update f e m a).1 ≡ kept (covered a) (fired m)
  unfolding update to_dashboard
  update-Restarts Msg.stats_tick a = stays (covered a) stats refl
  update-Restarts Msg.close_logs a = routed-Starts Msg.close_logs a refl
  update-Restarts (Msg.submit c) a = routed-Starts (Msg.submit c) a refl
  update-Restarts (Msg.of_dashboard stats_refresh) a =
      update-Starts f.edit e.calls stats_refresh a.dashboard ∙ stays (covered a) refresh refl
  update-Restarts (Msg.of_dashboard (window x y)) a = refl
  update-Restarts (Msg.of_dashboard (press k)) a =
      if_intro (Starts none) (is_ctrl_c k) _ _ refl
        (routed-Starts (Msg.of_dashboard (press k)) a refl)
  update-Restarts (Msg.of_dashboard peers_refresh) a =
      routed-Starts (Msg.of_dashboard peers_refresh) a refl
  update-Restarts (Msg.of_dashboard transfer_tick) a =
      routed-Starts (Msg.of_dashboard transfer_tick) a refl
  update-Restarts (Msg.of_dashboard history_refresh) a =
      routed-Starts (Msg.of_dashboard history_refresh) a refl
  update-Restarts (Msg.of_dashboard token_copied) a =
      routed-Starts (Msg.of_dashboard token_copied) a refl
  update-Restarts (Msg.of_dashboard other_msg) a = routed-Starts (Msg.of_dashboard other_msg) a refl
  update-Restarts (Msg.of_dashboard (manifest_built x y)) a =
      routed-Starts (Msg.of_dashboard (manifest_built x y)) a refl
  update-Restarts (Msg.of_dashboard (blob_sent x y z)) a =
      routed-Starts (Msg.of_dashboard (blob_sent x y z)) a refl
  update-Restarts (Msg.of_dashboard (task_dispatched x y z v)) a =
      routed-Starts (Msg.of_dashboard (task_dispatched x y z v)) a refl
  update-Restarts (Msg.of_dashboard (task_result x y)) a =
      routed-Starts (Msg.of_dashboard (task_result x y)) a refl
