-- ===== src/Tui/Welcome/Screens.antt =====
-- One key on each screen of the welcome screen (welcomeModel.update in internal/tui/app/welcome.go).
use edge_grid.Prelude.{
  ◌≡◌, ◌∷◌, ◌&&◌, ℕ, Bool-cases, inl, inr, if◌then◌else◌, refl, sym, subst, ◌||◌, Text, List,
  Option, none, some, is_empty, ◌==◌, if_intro, arith,
}
use edge_grid.Prelude.Lines.{trim_space}
use edge_grid.Tui.Fields.{Key, Files, Form}
use edge_grid.Tui.Settings
use edge_grid.Tui.Fields
use edge_grid.Tui.Landing.{
  Screen, main_menu, profile_list, new_name, submenu, benchmark, delete_confirm, settings,
  network_role, auth_key, needs_settings, profile_data_dir, World, Welcome, finish, uses,
}
use edge_grid.Tui.Welcome.{
  trigger_submenu, update, update_screen, open_form, update_main, ask_delete, new_profile,
  update_list, create, update_new_name, update_submenu, deleted, relist, update_delete, put_form,
  update_settings, update_role, update_auth_key, update_needs_settings, update_benchmark, quits,
}
use edge_grid.Tui.Welcome.Choice.{
  InView, Picked, Settled, IsConsistent, Good, starts, goes_through, chosen, env_of, boots,
  trigger_selection-Good, list_up-IsConsistent, list_down-IsConsistent, trigger_submenu-Good,
  trigger_role-Good,
}

module _ (root : Option Text) (ps : List Text) where
  module _ (shown : Text → Text) (edit : Key → Text → Text) (w : World) (m : Welcome)
      (c : IsConsistent root ps m) where
    main-Good : (k : Key) → Good root ps (update_main root shown edit w k m)
    unfolding update_main
    main-Good Fields.up = c
    main-Good Fields.down = c
    main-Good Fields.enter = trigger_selection-Good root ps m c shown edit w m.selected
    main-Good (Fields.char x) =
        if_intro (Good root ps) (x == b'1') _ _
          (trigger_selection-Good root ps (record m { selected = 0 }) c shown edit w 0)
          (if_intro (Good root ps) (x == b'2') _ _
            (trigger_selection-Good root ps (record m { selected = 1 }) c shown edit w 1)
            (if_intro (Good root ps) (x == b'3') _ _
              (trigger_selection-Good root ps (record m { selected = 2 }) c shown edit w 2)
              (if_intro (Good root ps) (x == b'k') _ _ c
                (if_intro (Good root ps) (x == b'j') _ _ c c))))
    main-Good _ = c

    ask_delete-IsConsistent :
        (o : Option Text) → IsConsistent root ps (ask_delete root shown edit o m)
    unfolding ask_delete
    ask_delete-IsConsistent none = c
    ask_delete-IsConsistent (some p) = (c.0, c.1, tt)

    list-Good : (k : Key) → Good root ps (update_list root shown edit w k m)
    unfolding update_list new_profile
    list-Good Fields.esc = (c.0, c.1, tt)
    list-Good Fields.backspace = (c.0, c.1, tt)
    list-Good Fields.up = list_up-IsConsistent root ps m c shown edit
    list-Good Fields.down = list_down-IsConsistent root ps m c shown edit
    list-Good Fields.delete = ask_delete-IsConsistent _
    list-Good Fields.enter = (c.0, c.1, tt)
    list-Good (Fields.char x) =
        if_intro (Good root ps) (x == b'k') _ _ (list_up-IsConsistent root ps m c shown edit) (
          if_intro (Good root ps) (x == b'j') _ _ (list_down-IsConsistent root ps m c shown edit) (
            if_intro (Good root ps) (x == b'd') _ _ (ask_delete-IsConsistent _)
              (if_intro (Good root ps) (x == b'n') _ _ (c.0, c.1, tt) c)))
    list-Good _ = c

    -- What deleting a profile leaves of the list and the variable.
    abbrev Listed : Welcome → Type 0
    Listed n = (n.env ≡ env_of ps) × InView n.cursor n.offset n.profiles

    deleted-Listed : Listed (deleted root shown edit w m)
    unfolding deleted
    deleted-Listed =
        if_intro Listed (w.delete_fails || is_empty m.selected_profile) _ _ (c.0, c.1) (c.0, c.1)

    relist-IsConsistent :
        (found : List Text) (n : Welcome)
        → Listed n
        → IsConsistent root ps (relist root shown edit found n)
    unfolding relist
    relist-IsConsistent found n (env, (row, low, high)) =
        (env, (ground arith, ground arith, ground arith), tt)

    delete-Good : (k : Key) → Good root ps (update_delete root shown edit w k m)
    unfolding update_delete
    delete-Good Fields.enter =
        relist-IsConsistent w.profiles (deleted root shown edit w m) deleted-Listed
    delete-Good Fields.esc = (c.0, c.1, tt)
    delete-Good (Fields.char x) =
        if_intro (Good root ps) (x == b'y' || x == b'Y') _ _
          (relist-IsConsistent w.profiles (deleted root shown edit w m) deleted-Listed)
          (if_intro (Good root ps) (x == b'n' || x == b'N') _ _ (c.0, c.1, tt) c)
    delete-Good _ = c

    benchmark-Good : (k : Key) → Good root ps (update_benchmark root shown edit k m)
    unfolding update_benchmark
    benchmark-Good Fields.esc = (c.0, c.1, tt)
    benchmark-Good _ = c

    module _
        (elsewhere : (qs : List Text) (name env active : Text)
          → Settled root qs m.screen name env active) where
      abbrev trigger-Good :
          (i : ℕ)
          → Good root
              (if starts Fields.enter i && goes_through root w m.selected_profile
                then m.selected_profile ∷ ps
                else ps)
              (trigger_submenu root shown edit w i (record m { submenu_idx = i }))
      trigger-Good i =
          trigger_submenu-Good root shown edit w (record m { submenu_idx = i }) ps c elsewhere i

      submenu-Good :
          (k : Key)
          → Good root (chosen root w submenu k m ps) (update_submenu root shown edit w k m)
      unfolding update_submenu chosen starts
      submenu-Good Fields.esc = (c.0, c.1, tt)
      submenu-Good Fields.up = c
      submenu-Good Fields.down = c
      submenu-Good Fields.enter =
          trigger_submenu-Good root shown edit w m ps c elsewhere m.submenu_idx
      submenu-Good (Fields.char x) = elim (Bool-cases (x == b'1')) [
        | inl h ↦ rw h (trigger-Good 0)
        | inr h ↦ rw h (
            if_intro (Good root ps) (x == b'2') _ _ (trigger-Good 1) (
              if_intro (Good root ps) (x == b'3') _ _ (trigger-Good 2) (
                if_intro (Good root ps) (x == b'k') _ _ c
                  (if_intro (Good root ps) (x == b'j') _ _ c c))))
      ]
      submenu-Good _ = c

    module _ (elsewhere : (name env active : Text) → Settled root ps m.screen name env active) where
      new_name-Good : (k : Key) → Good root ps (update_new_name root shown edit w k m)
      unfolding update_new_name create
      new_name-Good Fields.esc = (c.0, c.1, tt)
      new_name-Good Fields.enter =
          if_intro (IsConsistent root ps) (is_empty (trim_space m.value)) _ _ c (
            if_intro (IsConsistent root ps) (uses root w (trim_space m.value)) _ _ (c.0, c.1, tt)
              (c.0, c.1, elsewhere _ _ _))
      new_name-Good _ = c

      put_form-IsConsistent :
          (dir : Text) (q : Form × Files) → IsConsistent root ps (put_form root shown edit dir q m)
      unfolding put_form
      put_form-IsConsistent dir (f, d) = (c.0, c.1, elsewhere _ _ _)

      settings_put :
          (k : Key)
          → let dir = profile_data_dir root m.selected_profile in
            IsConsistent root ps (
              put_form root shown edit dir
                (Settings.update_form shown edit w.outcome k m.form (m.files dir))
                m)
      settings_put k =
          let dir = profile_data_dir root m.selected_profile in
          put_form-IsConsistent dir
            (Settings.update_form shown edit w.outcome k m.form (m.files dir))

      settings-Good : (k : Key) → Good root ps (update_settings root shown edit w k m)
      unfolding update_settings
      settings-Good Fields.esc = (c.0, c.1, tt)
      settings-Good k = settings_put k

    module _ (p : Picked root ps m.profile_name m.env m.active) where
      role-Good : (k : Key) → Good root ps (update_role root shown edit k m)
      unfolding update_role
      role-Good Fields.esc = (c.0, c.1, tt)
      role-Good Fields.up = c
      role-Good Fields.down = c
      role-Good Fields.enter = trigger_role-Good root ps m c shown edit w p m.role_idx
      role-Good (Fields.char x) =
          if_intro (Good root ps) (x == b'1') _ _
            (trigger_role-Good root ps (record m { role_idx = 0 }) c shown edit w p 0)
            (if_intro (Good root ps) (x == b'2') _ _
              (trigger_role-Good root ps (record m { role_idx = 1 }) c shown edit w p 1)
              (if_intro (Good root ps) (x == b'k') _ _ c
                (if_intro (Good root ps) (x == b'j') _ _ c c)))
      role-Good _ = c

      auth_key-Good : (k : Key) → Good root ps (update_auth_key root shown edit k m)
      unfolding update_auth_key finish
      auth_key-Good Fields.esc = (c.0, c.1, p)
      auth_key-Good Fields.enter = λ h. boots root ps m c.0 p
      auth_key-Good _ = c

      needs_settings-Good : (k : Key) → Good root ps (update_needs_settings root shown edit k m)
      unfolding update_needs_settings finish open_form
      needs_settings-Good Fields.esc = (c.0, c.1, p)
      needs_settings-Good Fields.enter = λ h. boots root ps m c.0 p
      needs_settings-Good (Fields.char x) =
          if_intro (IsConsistent root ps) (x == b's') _ _ (c.0, c.1, tt) c
      needs_settings-Good _ = c

    settled : (x : Screen) → m.screen ≡ x → Settled root ps x m.profile_name m.env m.active
    settled x e = subst (λ (y : Screen). Settled root ps y m.profile_name m.env m.active) e c.2

    -- On a screen where nothing is asked of the choice.
    free :
        (x : Screen)
        → ((name env active : Text) → Settled root ps x name env active)
        → m.screen ≡ x
        → (name env active : Text) → Settled root ps m.screen name env active
    free x f e name env active =
        subst (λ (y : Screen). Settled root ps y name env active) (sym e) (f name env active)

    -- The same with any entries chosen.
    free_all :
        (x : Screen)
        → ((qs : List Text) (name env active : Text) → Settled root qs x name env active)
        → m.screen ≡ x
        → (qs : List Text) (name env active : Text) → Settled root qs m.screen name env active
    free_all x f e qs name env active =
        subst (λ (y : Screen). Settled root qs y name env active) (sym e) (f qs name env active)

    screen-Good :
        (x : Screen) (k : Key)
        → m.screen ≡ x
        → Good root (chosen root w x k m ps) (update_screen root shown edit w x k m)
    unfolding update_screen chosen
    screen-Good main_menu k e = main-Good k
    screen-Good profile_list k e = list-Good k
    screen-Good new_name k e = new_name-Good (free new_name (λ _ _ _. tt) e) k
    screen-Good submenu k e = submenu-Good (free_all submenu (λ _ _ _ _. tt) e) k
    screen-Good benchmark k e = benchmark-Good k
    screen-Good delete_confirm k e = delete-Good k
    screen-Good settings k e = settings-Good (free settings (λ _ _ _. tt) e) k
    screen-Good network_role k e = role-Good (settled network_role e) k
    screen-Good auth_key k e = auth_key-Good (settled auth_key e) k
    screen-Good needs_settings k e = needs_settings-Good (settled needs_settings e) k

    pub update-Good :
        (k : Key) → Good root (chosen root w m.screen k m ps) (update root shown edit w k m)
    unfolding update finish
    update-Good k = elim (Bool-cases (quits root shown edit k m.screen)) [
      | inl h ↦ rw h (λ e. absurd cc)
      | inr h ↦ rw h (screen-Good m.screen k refl)
    ]
