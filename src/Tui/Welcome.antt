-- ===== src/Tui/Welcome.antt =====
-- The welcome screen of internal/tui/app/welcome.go as a state machine: which profile the node boots into.
pub mod Choice
pub mod Screens
pub mod Booted
use edge_grid.Prelude.{
  ℕ, zero, suc, ◌+◌, ◌-◌, ◌%◌, ◌≡◌, Bool, true, false, not, ◌&&◌, ◌||◌, Text, List, [], ◌∷◌, Option,
  none, some, length, text_eq, is_empty, ltb, ◌==◌, if◌then◌else◌,
}
use edge_grid.Prelude.Lines.{trim_space}
use edge_grid.Tui.Fields.{Key, esc, enter, up, down, backspace, delete, ctrl_c, char, Files, Form}
use edge_grid.Tui.Settings.{open_settings, update_form}
use edge_grid.Tui.Landing.{
  active_after_failure, Cmd, Screen, Welcome, World, auth_key, benchmark, create_failed,
  default_dir, default_failed, delete_confirm, delete_failed, finish, following, has_joined,
  has_tailscale_api, logs, main_menu, move_to, name_of, needs_settings, network_role, new_name,
  no_status, nothing, previous, profile_data_dir, profile_list, quit, row_at, settings, start,
  submenu, switch_failed, uses,
}

-- `edit` is the Update of the text field, and `shown` what it makes of a value that it is given.
module _ (root : Option Text) (shown : Text → Text) (edit : Key → Text → Text) where
  pub trigger_selection : World → ℕ → Welcome → Welcome × Cmd
  unfolding finish
  trigger_selection w zero m = (
    record m {
      profiles = w.profiles;
      cursor = 0;
      offset = 0;
      status = no_status;
      screen = profile_list;
    },
    nothing,
  )
  trigger_selection w (suc zero) m =
      (record m { benchmark_active = true; screen = benchmark }, nothing)
  trigger_selection w (suc (suc zero)) m = finish logs m
  trigger_selection w _ m = (m, nothing)

  open_form : Welcome → Welcome
  open_form m = record m {
    form = open_settings shown edit m.form.seq (m.files (profile_data_dir root m.selected_profile));
    screen = settings;
  }

  -- "Start Node", once the directory is selected.
  start_in : Welcome → Welcome × Cmd
  unfolding finish has_joined
  start_in m =
      let n = record m { profile_name = m.selected_profile } in
      if has_joined (m.files (profile_data_dir root m.selected_profile))
      then finish start n
      else (record n { role_idx = 0; status = no_status; screen = network_role }, nothing)

  select_dir : World → Welcome → Welcome × Cmd
  unfolding start_in uses active_after_failure
  select_dir w m =
      if is_empty m.selected_profile
      then if w.setenv_fails
        then (record m { status = default_failed }, nothing)
        else start_in (record m { env = default_dir })
      else if uses root w m.selected_profile
      then start_in (record m { active = m.selected_profile })
      else (
        record m { status = switch_failed; active = active_after_failure root w m.active },
        nothing,
      )

  pub trigger_submenu : World → ℕ → Welcome → Welcome × Cmd
  unfolding select_dir open_form
  trigger_submenu w zero m = select_dir w m
  trigger_submenu w (suc zero) m = (open_form m, nothing)
  trigger_submenu w (suc (suc zero)) m = (record m { screen = profile_list }, nothing)
  trigger_submenu w _ m = (m, nothing)

  pub trigger_role : ℕ → Welcome → Welcome × Cmd
  unfolding finish has_tailscale_api
  trigger_role zero m =
      if has_tailscale_api (m.files (profile_data_dir root m.selected_profile))
      then finish start m
      else (record m { screen = needs_settings }, nothing)
  trigger_role (suc n) m = (record m { value = []; screen = auth_key }, nothing)

  update_main : World → Key → Welcome → Welcome × Cmd
  unfolding trigger_selection previous following
  update_main w up m = (record m { selected = previous 3 m.selected }, nothing)
  update_main w down m = (record m { selected = following 3 m.selected }, nothing)
  update_main w enter m = trigger_selection w m.selected m
  update_main w (char c) m =
      if c == b'1'
      then trigger_selection w 0 (record m { selected = 0 })
      else if c == b'2'
      then trigger_selection w 1 (record m { selected = 1 })
      else if c == b'3'
      then trigger_selection w 2 (record m { selected = 2 })
      else if c == b'k'
      then (record m { selected = previous 3 m.selected }, nothing)
      else if c == b'j'
      then (record m { selected = following 3 m.selected }, nothing)
      else (m, nothing)
  update_main w k m = (m, nothing)

  pub list_up : Welcome → Welcome
  unfolding move_to
  list_up m = move_to (if m.cursor == 0 then length m.profiles else m.cursor - 1) m

  pub list_down : Welcome → Welcome
  unfolding move_to
  list_down m = move_to (if ltb (length m.profiles) (m.cursor + 1) then 0 else m.cursor + 1) m

  ask_delete : Option Text → Welcome → Welcome
  ask_delete none m = m
  ask_delete (some p) m = record m { selected_profile = p; screen = delete_confirm }

  new_profile : World → Welcome → Welcome
  new_profile w m = record m { value = shown w.random_name; screen = new_name }

  update_list : World → Key → Welcome → Welcome × Cmd
  unfolding list_up list_down ask_delete new_profile row_at name_of
  update_list w esc m = (record m { screen = main_menu }, nothing)
  update_list w backspace m = (record m { screen = main_menu }, nothing)
  update_list w up m = (list_up m, nothing)
  update_list w down m = (list_down m, nothing)
  update_list w delete m = (ask_delete (row_at m.cursor m.profiles) m, nothing)
  update_list w enter m = (
    record m {
      selected_profile = name_of (row_at m.cursor m.profiles);
      status = no_status;
      screen = submenu;
      submenu_idx = 0;
    },
    nothing,
  )
  update_list w (char c) m =
      if c == b'k'
      then (list_up m, nothing)
      else if c == b'j'
      then (list_down m, nothing)
      else if c == b'd'
      then (ask_delete (row_at m.cursor m.profiles) m, nothing)
      else if c == b'n'
      then (new_profile w m, nothing)
      else (m, nothing)
  update_list w k m = (m, nothing)

  create : World → Text → Welcome → Welcome
  unfolding uses active_after_failure
  create w name m =
      if uses root w name
      then record m {
        active = name;
        profile_name = name;
        selected_profile = name;
        status = no_status;
        screen = submenu;
        submenu_idx = 0;
      }
      else record m { status = create_failed; active = active_after_failure root w m.active }

  update_new_name : World → Key → Welcome → Welcome × Cmd
  unfolding create
  update_new_name w esc m = (record m { screen = profile_list }, nothing)
  update_new_name w enter m =
      let name = trim_space m.value in
      (if is_empty name then record m { value = edit enter m.value } else create w name m, nothing)
  update_new_name w k m = (record m { value = edit k m.value }, nothing)

  update_submenu : World → Key → Welcome → Welcome × Cmd
  unfolding trigger_submenu previous following
  update_submenu w esc m = (record m { screen = profile_list }, nothing)
  update_submenu w up m = (record m { submenu_idx = previous 3 m.submenu_idx }, nothing)
  update_submenu w down m = (record m { submenu_idx = following 3 m.submenu_idx }, nothing)
  update_submenu w enter m = trigger_submenu w m.submenu_idx m
  update_submenu w (char c) m =
      if c == b'1'
      then trigger_submenu w 0 (record m { submenu_idx = 0 })
      else if c == b'2'
      then trigger_submenu w 1 (record m { submenu_idx = 1 })
      else if c == b'3'
      then trigger_submenu w 2 (record m { submenu_idx = 2 })
      else if c == b'k'
      then (record m { submenu_idx = previous 3 m.submenu_idx }, nothing)
      else if c == b'j'
      then (record m { submenu_idx = following 3 m.submenu_idx }, nothing)
      else (m, nothing)
  update_submenu w k m = (m, nothing)

  -- node.DeleteProfile, which forgets the active profile if it was this one.
  deleted : World → Welcome → Welcome
  deleted w m =
      if w.delete_fails || is_empty m.selected_profile
      then record m { status = delete_failed }
      else let dir = profile_data_dir root m.selected_profile in
        record m {
          active =
              if text_eq m.active m.selected_profile && not w.reset_fails then [] else m.active;
          files = λ e. if text_eq e dir then (λ file. none) else m.files e;
        }

  -- The list is read again, and the cursor kept on it.
  relist : List Text → Welcome → Welcome
  relist ps m =
      let c = if ltb (length ps) m.cursor then length ps else m.cursor in
      record m {
        profiles = ps;
        cursor = c;
        offset = if ltb c m.offset then c else m.offset;
        screen = profile_list;
      }

  update_delete : World → Key → Welcome → Welcome × Cmd
  unfolding deleted relist
  update_delete w enter m = (relist w.profiles (deleted w m), nothing)
  update_delete w esc m = (record m { screen = profile_list }, nothing)
  update_delete w (char c) m =
      if c == b'y' || c == b'Y'
      then (relist w.profiles (deleted w m), nothing)
      else if c == b'n' || c == b'N'
      then (record m { screen = profile_list }, nothing)
      else (m, nothing)
  update_delete w k m = (m, nothing)

  put_form : Text → Form × Files → Welcome → Welcome
  put_form dir (f, d) m = record m { form = f; files = λ e. if text_eq e dir then d else m.files e }

  update_settings : World → Key → Welcome → Welcome × Cmd
  unfolding put_form
  update_settings w esc m =
      (record m { screen = submenu; form = record m.form { status = none } }, nothing)
  update_settings w k m =
      let dir = profile_data_dir root m.selected_profile in
      (put_form dir (update_form shown edit w.outcome k m.form (m.files dir)) m, nothing)

  update_role : Key → Welcome → Welcome × Cmd
  unfolding trigger_role previous following
  update_role esc m = (record m { screen = submenu }, nothing)
  update_role up m = (record m { role_idx = previous 2 m.role_idx }, nothing)
  update_role down m = (record m { role_idx = following 2 m.role_idx }, nothing)
  update_role enter m = trigger_role m.role_idx m
  update_role (char c) m =
      if c == b'1'
      then trigger_role 0 (record m { role_idx = 0 })
      else if c == b'2'
      then trigger_role 1 (record m { role_idx = 1 })
      else if c == b'k'
      then (record m { role_idx = previous 2 m.role_idx }, nothing)
      else if c == b'j'
      then (record m { role_idx = following 2 m.role_idx }, nothing)
      else (m, nothing)
  update_role k m = (m, nothing)

  update_auth_key : Key → Welcome → Welcome × Cmd
  unfolding finish
  update_auth_key esc m = (record m { screen = network_role }, nothing)
  update_auth_key enter m = finish start (record m { auth = trim_space m.value })
  update_auth_key k m = (record m { value = edit k m.value }, nothing)

  update_needs_settings : Key → Welcome → Welcome × Cmd
  unfolding finish open_form
  update_needs_settings esc m = (record m { screen = network_role }, nothing)
  update_needs_settings enter m = finish start m
  update_needs_settings (char c) m = (if c == b's' then open_form m else m, nothing)
  update_needs_settings k m = (m, nothing)

  update_benchmark : Key → Welcome → Welcome × Cmd
  update_benchmark esc m = (record m { screen = main_menu; benchmark_active = false }, nothing)
  update_benchmark k m = (m, nothing)

  takes_text : Screen → Bool
  takes_text new_name = true
  takes_text settings = true
  takes_text auth_key = true
  takes_text _ = false

  unfoldable pub update_screen : World → Screen → Key → Welcome → Welcome × Cmd
  unfolding update_main update_list update_new_name update_submenu update_benchmark update_delete
      update_settings update_role update_auth_key update_needs_settings
  update_screen w main_menu k m = update_main w k m
  update_screen w profile_list k m = update_list w k m
  update_screen w new_name k m = update_new_name w k m
  update_screen w submenu k m = update_submenu w k m
  update_screen w benchmark k m = update_benchmark k m
  update_screen w delete_confirm k m = update_delete w k m
  update_screen w settings k m = update_settings w k m
  update_screen w network_role k m = update_role k m
  update_screen w auth_key k m = update_auth_key k m
  update_screen w needs_settings k m = update_needs_settings k m

  quits : Key → Screen → Bool
  unfolding takes_text
  quits ctrl_c s = true
  quits (char c) s = c == b'q' && not (takes_text s)
  quits k s = false

  -- welcomeModel.update on a key.
  unfoldable pub update : World → Key → Welcome → Welcome × Cmd
  unfolding quits finish
  update w k m = if quits k m.screen then finish quit m else update_screen w m.screen k m
