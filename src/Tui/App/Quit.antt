-- ===== src/Tui/App/Quit.antt =====
-- What ends the program, and what it starts again with.
use edge_grid.Prelude.{
  ◌≡◌, refl, sym, subst, Bool, true, false, not, ◌&&◌, Text, Option, none, some, if◌then◌else◌,
  if_intro, if_cases, text_eq, is_empty, codes,
}
use edge_grid.Prelude.Int.{ℤ}
use edge_grid.Prelude.Lines.{trim_space}
use edge_grid.Tui.Press.{Press, bar_key, is_char, is_ctrl_c, is_esc}
use edge_grid.Tui.Paths.{trim_prefix}
use edge_grid.Tui.Dashboard.{
  press, window, stats_refresh, peers_refresh, transfer_tick, history_refresh, token_copied,
  other_msg, manifest_built, blob_sent, task_dispatched, task_result, captures_text_input,
}
use edge_grid.Tui.App.{
  App, Msg, Cmd, Env, Fields, key_of, direct, routed, update, to_dashboard, to_bar, to_key, to_open,
  to_logs, under_logs, logs_update, run_command, run_cut, use_named, cut_prefix, show, submit_cmd,
  sized, closed_bar, activate_bar, resized,
}
use edge_grid.Tui.App.Timers.{covered}
use edge_grid.Tui.App.Keys.{key_of-press, is_char-eq, is_ctrl_c-eq}
use edge_grid.Tui.App.Sending.{neither}

-- Why the program ends, and the profile to start again with, which is empty for none.
pub data Cause (e : Env) (a : App) : Msg → Text → Type 0 where
  stopped : Cause e a (Msg.of_dashboard (press Press.ctrl_c)) a.restart_profile
  key_q :
      covered a ≡ false
      → captures_text_input a.dashboard ≡ false
      → Cause e a (Msg.of_dashboard (press (Press.char b'q'))) a.restart_profile
  switch :
      (c rest : Text)
      → a.show_logs ≡ false
      → cut_prefix (trim_prefix c (codes "/")) (codes "profile ") ≡ some rest
      → is_empty (trim_space rest) ≡ false
      → e.use_profile (trim_space rest) ≡ true
      → Cause e a (Msg.submit c) (trim_space rest)

-- A step that ends the program has a cause; any other leaves the profile to start again with.
abbrev pub Ends : Env → Msg → App → App × Cmd → Type 0
Ends e m a (b, Cmd.quit) = Cause e a m b.restart_profile
Ends e m a (b, _) = b.restart_profile ≡ a.restart_profile

both_true : (b c : Bool) → b && c ≡ true → (b ≡ true) × (c ≡ true)
both_true true true h = (refl, refl)
both_true true false h = absurd cc
both_true false c h = absurd cc

was_not : (b : Bool) → not b ≡ true → b ≡ false
was_not true h = absurd cc
was_not false h = refl

module _ (f : Fields) (e : Env) where
  sized_profile : (n : ℤ) (a : App) → (sized f e n a).restart_profile ≡ a.restart_profile
  unfolding sized
  sized_profile n a = refl

  closed_profile : (a : App) → (closed_bar f e a).restart_profile ≡ a.restart_profile
  unfolding closed_bar
  closed_profile a =
      if_intro (λ (b : App). b.restart_profile ≡ a.restart_profile) (not a.cmdbar.active) _ _
        (sized_profile a.height a) refl

  -- `b` is the dashboard's size set back.
  named-Ends :
      (c rest : Text) (a b : App)
      → b.restart_profile ≡ a.restart_profile
      → a.show_logs ≡ false
      → cut_prefix (trim_prefix c (codes "/")) (codes "profile ") ≡ some rest
      → Ends e (Msg.submit c) a (use_named e.use_profile (trim_space rest) b)
  unfolding use_named
  named-Ends c rest a b h s k =
      if_cases (Ends e (Msg.submit c) a)
        (not (is_empty (trim_space rest)) && e.use_profile (trim_space rest)) _ _
        (λ t.
          let (x, y) =
            both_true (not (is_empty (trim_space rest))) (e.use_profile (trim_space rest)) t in
          switch c rest s k (was_not (is_empty (trim_space rest)) x) y)
        (λ t. h)

  cut-Ends :
      (c : Text) (r : Option Text) (s : Text) (a b : App)
      → b.restart_profile ≡ a.restart_profile
      → a.show_logs ≡ false
      → cut_prefix (trim_prefix c (codes "/")) (codes "profile ") ≡ r
      → Ends e (Msg.submit c) a (run_cut e.use_profile r s b)
  unfolding run_cut show
  cut-Ends c none s a b h l k =
      if_intro (λ (x : App). x.restart_profile ≡ a.restart_profile) (text_eq s (codes "logs")) _ _ h
        h
  cut-Ends c (some rest) s a b h l k = named-Ends c rest a b h l k

  scrolled-Ends : (m : Msg) (k : Option Press) (a : App) → Ends e m a (a, logs_update k)
  unfolding logs_update
  scrolled-Ends m none a = refl
  scrolled-Ends m (some k) a = if_intro (λ (c : Cmd). Ends e m a (a, c)) (is_esc k) _ _ refl refl

  logs-Ends : (m : Msg) (a : App) → Ends e m a (to_logs f m a)
  unfolding to_logs key_of
  logs-Ends Msg.stats_tick a = scrolled-Ends Msg.stats_tick none a
  logs-Ends Msg.close_logs a = refl
  logs-Ends (Msg.submit c) a = scrolled-Ends (Msg.submit c) none a
  logs-Ends (Msg.of_dashboard m) a =
      scrolled-Ends (Msg.of_dashboard m) (key_of (Msg.of_dashboard m)) a

  -- The command line ends nothing by itself.
  submitted-Ends :
      (m : Msg) (c : Option Text) (a b : App)
      → b.restart_profile ≡ a.restart_profile
      → Ends e m a (b, submit_cmd f c)
  unfolding submit_cmd
  submitted-Ends m none a b h = h
  submitted-Ends m (some c) a b h = h

  bar-Ends : (m : Msg) (k : Option Press) (a : App) → Ends e m a (to_bar f e k a)
  unfolding to_bar
  bar-Ends m none a = closed_profile _
  bar-Ends m (some k) a =
      let (b, c) = edge_grid.Tui.Cmdbar.update f.lower f.edit_bar (bar_key k) a.cmdbar in
      submitted-Ends m c a (closed_bar f e (record a { cmdbar = b }))
        (closed_profile (record a { cmdbar = b }))

  direct-Ends : (n m : Msg) (a : App) → Ends e n a (direct f e m a)
  unfolding direct to_dashboard
  direct-Ends n Msg.stats_tick a = refl
  direct-Ends n Msg.close_logs a = refl
  direct-Ends n (Msg.submit c) a = refl
  direct-Ends n (Msg.of_dashboard m) a = refl

  q_ends :
      (k : Press) (a : App)
      → covered a ≡ false
      → is_char b'q' k && not (captures_text_input a.dashboard) ≡ true
      → Cause e a (Msg.of_dashboard (press k)) a.restart_profile
  q_ends k a u t =
      let (x, y) = both_true (is_char b'q' k) (not (captures_text_input a.dashboard)) t in
      subst (λ (j : Press). Cause e a (Msg.of_dashboard (press j)) a.restart_profile)
        (sym (is_char-eq b'q' k x)) (key_q u (was_not (captures_text_input a.dashboard) y))

  open-Ends :
      (x : Option Press) (m : Msg) (a : App)
      → key_of m ≡ x
      → covered a ≡ false
      → Ends e m a (to_open f e x m a)
  unfolding to_open to_key activate_bar sized
  open-Ends none m a h u = direct-Ends m m a
  open-Ends (some k) m a h u =
      subst (λ (n : Msg). Ends e n a (to_key f e k m a)) (sym (key_of-press m k h))
        (let typing = captures_text_input a.dashboard in
          let n = Msg.of_dashboard (press k) in
          if_cases (Ends e n a) (is_char b'q' k && not typing) _ _ (λ t. q_ends k a u t)
            (λ t.
              if_intro (Ends e n a) (is_char b'/' k && not typing) _ _ refl (direct-Ends n m a)))

  bar_or_open-Ends :
      (m : Msg) (a : App)
      → a.show_logs ≡ false
      → Ends e m a (if a.cmdbar.active then to_bar f e (key_of m) a else to_open f e (key_of m) m a)
  bar_or_open-Ends m a s =
      if_cases (Ends e m a) a.cmdbar.active _ _ (λ c. bar-Ends m (key_of m) a)
        (λ c. open-Ends (key_of m) m a refl (neither a.show_logs a.cmdbar.active s c))

  below-Ends : (m : Msg) (a : App) → a.show_logs ≡ false → Ends e m a (under_logs f e m a)
  unfolding under_logs run_command
  below-Ends (Msg.submit c) a s =
      let x = trim_prefix c (codes "/") in
      cut-Ends c (cut_prefix x (codes "profile ")) x a (sized f e a.height a)
        (sized_profile a.height a) s refl
  below-Ends Msg.stats_tick a s = bar_or_open-Ends Msg.stats_tick a s
  below-Ends Msg.close_logs a s = bar_or_open-Ends Msg.close_logs a s
  below-Ends (Msg.of_dashboard m) a s = bar_or_open-Ends (Msg.of_dashboard m) a s

  routed-Ends : (m : Msg) (a : App) → Ends e m a (routed f e m a)
  unfolding routed
  routed-Ends m a =
      if_cases (Ends e m a) a.show_logs _ _ (λ s. logs-Ends m a) (λ s. below-Ends m a s)

  -- Every message: the program ends only by ctrl+c, by the key "q" where nothing is open over the
  -- dashboard and no text field is shown, and by the command "profile" with a name that UseProfile takes,
  -- and only the last changes the profile to start again with, to that name. Otherwise it goes on, with
  -- that profile as it was.
  pub update-Ends : (m : Msg) (a : App) → Ends e m a (update f e m a)
  unfolding update resized sized to_dashboard
  update-Ends Msg.stats_tick a = refl
  update-Ends Msg.close_logs a = routed-Ends Msg.close_logs a
  update-Ends (Msg.submit c) a = routed-Ends (Msg.submit c) a
  update-Ends (Msg.of_dashboard stats_refresh) a = refl
  update-Ends (Msg.of_dashboard (window x y)) a = refl
  update-Ends (Msg.of_dashboard (press k)) a =
      if_cases (Ends e (Msg.of_dashboard (press k)) a) (is_ctrl_c k) _ _
        (λ h.
          subst (λ (j : Press). Cause e a (Msg.of_dashboard (press j)) a.restart_profile)
            (sym (is_ctrl_c-eq k h)) stopped)
        (λ h. routed-Ends (Msg.of_dashboard (press k)) a)
  update-Ends (Msg.of_dashboard peers_refresh) a = routed-Ends (Msg.of_dashboard peers_refresh) a
  update-Ends (Msg.of_dashboard transfer_tick) a = routed-Ends (Msg.of_dashboard transfer_tick) a
  update-Ends (Msg.of_dashboard history_refresh) a =
      routed-Ends (Msg.of_dashboard history_refresh) a
  update-Ends (Msg.of_dashboard token_copied) a = routed-Ends (Msg.of_dashboard token_copied) a
  update-Ends (Msg.of_dashboard other_msg) a = routed-Ends (Msg.of_dashboard other_msg) a
  update-Ends (Msg.of_dashboard (manifest_built x y)) a =
      routed-Ends (Msg.of_dashboard (manifest_built x y)) a
  update-Ends (Msg.of_dashboard (blob_sent x y z)) a =
      routed-Ends (Msg.of_dashboard (blob_sent x y z)) a
  update-Ends (Msg.of_dashboard (task_dispatched x y z v)) a =
      routed-Ends (Msg.of_dashboard (task_dispatched x y z v)) a
  update-Ends (Msg.of_dashboard (task_result x y)) a =
      routed-Ends (Msg.of_dashboard (task_result x y)) a
