-- ===== src/Tui/App/Typing.antt =====
-- The keys while a text field of the dashboard is shown.
use edge_grid.Prelude.{
  ◌≡◌, ◌≢◌, some, if_cases, refl, ap, ◌∙◌, Bool, true, false, not, ◌&&◌, ◌||◌, if◌then◌else◌,
}
use edge_grid.Tui.Press.{Press, is_char, is_ctrl_c, peers_key}
use edge_grid.Tui.Dashboard.{press, Dashboard, captures_text_input, to_peers}
use edge_grid.Tui.Dashboard.Typed.{update-typed}
use edge_grid.Tui.App.{
  App, Msg, Cmd, Env, Fields, key_of, direct, routed, update, to_dashboard, to_key, to_open,
  under_logs,
}
use edge_grid.Tui.App.Timers.{covered}
use edge_grid.Tui.App.Keys.{is_ctrl_c-eq}

pub uncovered :
    (b c : Bool) (x y z : App × Cmd) → b || c ≡ false → (if b then x else if c then y else z) ≡ z
uncovered true c x y z h = absurd cc
uncovered false true x y z h = absurd cc
uncovered false false x y z h = refl

-- A key that the dashboard's Peers tab takes.
abbrev pub on_peers : Fields → Env → Press → App → App × Cmd
on_peers f e k a =
    let (d, c) = to_peers f.edit e.calls (edge_grid.Tui.Tab.Msg.key (peers_key k)) a.dashboard in
    (record a { dashboard = d }, Cmd.of_dashboard c)

no_shortcut : (b : Bool) (x z : App × Cmd) (t : Bool) → t ≡ true → (if b && not t then x else z) ≡ z
no_shortcut true x z true h = refl
no_shortcut false x z true h = refl
no_shortcut true x z false h = absurd cc
no_shortcut false x z false h = refl

module _ (f : Fields) (e : Env) where
  passed :
      (k : Press) (a : App)
      → captures_text_input a.dashboard ≡ true
      → direct f e (Msg.of_dashboard (press k)) a ≡ on_peers f e k a
  unfolding direct to_dashboard
  passed k a t =
      ap
        (λ (x : Dashboard × edge_grid.Tui.Dashboard.Cmd).
          let (d, c) = x in (record a { dashboard = d }, Cmd.of_dashboard c))
        (update-typed f.edit e.calls k a.dashboard t)

  opened :
      (k : Press) (a : App)
      → captures_text_input a.dashboard ≡ true
      → to_open f e (some k) (Msg.of_dashboard (press k)) a ≡ on_peers f e k a
  unfolding to_open to_key
  opened k a t =
      no_shortcut (is_char b'q' k) _ _ (captures_text_input a.dashboard) t
      ∙ (no_shortcut (is_char b'/' k) _ _ (captures_text_input a.dashboard) t ∙ passed k a t)

  -- While a text field of the Peers tab is shown, with neither the logs nor the command line over it, every
  -- key but ctrl+c is the tab's, the keys "q", "/" and "tab" too, and what the tab makes of it is all
  -- that happens.
  pub update-typing :
      (k : Press) (a : App)
      → covered a ≡ false
      → captures_text_input a.dashboard ≡ true
      → k ≢ Press.ctrl_c
      → update f e (Msg.of_dashboard (press k)) a ≡ on_peers f e k a
  unfolding update routed under_logs key_of
  update-typing k a u t n =
      if_cases (λ (x : App × Cmd). x ≡ on_peers f e k a) (is_ctrl_c k) _ _
        (λ h. absurd (n (is_ctrl_c-eq k h)))
        (λ h. uncovered a.show_logs a.cmdbar.active _ _ _ u ∙ opened k a t)
