-- ===== src/Tui/Welcome/Choice.antt =====
-- The choice of a profile on the welcome screen of internal/tui/app/welcome.go, and its invariant.
use edge_grid.Prelude.{
  ℕ, zero, suc, ◌+◌, ◌-◌, ◌≤◌, ◌<◌, ◌≡◌, ◌≢◌, ◌∙◌, refl, ap, Bool, true, false, not, ◌&&◌, ◌||◌,
  Bool-cases, Text, List, [], ◌∷◌, ◌⊎◌, inl, inr, Option, length, is_empty, ltb, ◌==◌,
  if◌then◌else◌, if_intro, arith,
}
use edge_grid.Tui.Fields.{Key}
use edge_grid.Tui.Landing.{
  Screen, main_menu, profile_list, new_name, submenu, benchmark, delete_confirm, settings,
  network_role, auth_key, needs_settings, start, default_dir, profile_data_dir, resolve_data_dir,
  switch_failed, active_after_failure, World, Welcome, Cmd, nothing, leave, scroll, move_to, finish,
  uses, active_dir,
}
use edge_grid.Tui.Welcome.{
  trigger_selection, open_form, start_in, select_dir, trigger_submenu, trigger_role, list_up,
  list_down,
}
use edge_grid.Tui.Landing
use edge_grid.Tui.Fields

-- The cursor is on a row, and among the five rows from the offset on.
abbrev pub InView : ℕ → ℕ → List Text → Type 0
InView c o ps = (c ≤ length ps) × (o ≤ c) × (c < o + 5)

-- Whether the default entry is among the entries that were chosen; its name is empty.
unfoldable pub has_default : List Text → Bool
has_default [] = false
has_default (p ∷ ps) = is_empty p || has_default ps

-- The keys that press "Start Node" of an entry's menu, whose row it is on.
unfoldable pub starts : Key → ℕ → Bool
starts Fields.enter zero = true
starts (Fields.char c) i = c == b'1'
starts _ i = false

-- Whether the call goes through that selects the entry.
unfoldable pub goes_through : Option Text → World → Text → Bool
goes_through root w name = if is_empty name then not w.setenv_fails else uses root w name

-- The entries that were chosen, the last one first, after a key on this screen: the entry is added
-- whose menu is shown, where the key is "Start Node" and its call goes through.
unfoldable pub chosen : Option Text → World → Screen → Key → Welcome → List Text → List Text
chosen root w submenu k m ps =
    if starts k m.submenu_idx && goes_through root w m.selected_profile
    then m.selected_profile ∷ ps
    else ps
chosen root w _ k m ps = ps

-- What DATA_DIR is set to, if it was not set before.
unfoldable pub env_of : List Text → Text
env_of ps = if has_default ps then default_dir else []

nameless : (name : Text) → is_empty name ≡ true → name ≡ []
unfolding is_empty
nameless [] e = refl
nameless (x ∷ name) e = absurd cc

-- Two tests of the same thing.
if_both :
    {A B : Type 0} (P : A → B → Type 0) (b : Bool) (x y : A) (u v : B)
    → P x u
    → P y v
    → P (if b then x else y) (if b then u else v)
if_both P true x y u v p q = p
if_both P false x y u v p q = q

contradicts : (ps : List Text) → has_default ([] ∷ ps) ≢ false
unfolding has_default is_empty
contradicts ps h = cc

env_default : (p : Text) → is_empty p ≡ true → (ps : List Text) → default_dir ≡ env_of (p ∷ ps)
unfolding env_of has_default
env_default p e ps = rw e refl

env_named : (p : Text) → is_empty p ≡ false → (ps : List Text) → env_of ps ≡ env_of (p ∷ ps)
unfolding env_of has_default
env_named p e ps = rw e refl

-- `ps` are the entries that were chosen, the last one first.
module _ (root : Option Text) (ps : List Text) where
  -- The name is that of the entry that was chosen last: the default entry's, or that of the active profile.
  abbrev pub Picked : Text → Text → Text → Type 0
  Picked name env active =
      ((rest : List Text) × (ps ≡ name ∷ rest)) × ((name ≡ []) ⊎ (active ≡ name))

  -- What holds on the screens between the choice and the start.
  abbrev pub Settled : Screen → Text → Text → Text → Type 0
  Settled network_role name env active = Picked name env active
  Settled auth_key name env active = Picked name env active
  Settled needs_settings name env active = Picked name env active
  Settled main_menu name env active = Unit
  Settled profile_list name env active = Unit
  Settled new_name name env active = Unit
  Settled submenu name env active = Unit
  Settled benchmark name env active = Unit
  Settled delete_confirm name env active = Unit
  Settled settings name env active = Unit

  abbrev pub IsConsistent : Welcome → Type 0
  IsConsistent m =
      (m.env ≡ env_of ps)
      × InView m.cursor m.offset m.profiles
      × Settled m.screen m.profile_name m.env m.active

  -- An entry was chosen, and the node that is started keeps its state in the directory of the one that was
  -- chosen last, but in ./data if the default entry is among those that were chosen.
  abbrev pub Boots : Welcome → Type 0
  Boots m =
      (last : Text) × (rest : List Text) × (ps ≡ last ∷ rest)
      × (m.profile_name ≡ last)
      × (resolve_data_dir [] m.env root m.active
          ≡ (if has_default ps then default_dir else profile_data_dir root last))

  abbrev pub Good : Welcome × Cmd → Type 0
  Good (m, nothing) = IsConsistent m
  Good (m, leave) = m.action ≡ start → Boots m

  pub boots : (m : Welcome) → m.env ≡ env_of ps → Picked m.profile_name m.env m.active → Boots m
  unfolding resolve_data_dir active_dir profile_data_dir env_of is_empty
  boots m e ((rest, last), p) = (
    m.profile_name,
    rest,
    last,
    refl,
    elim (Bool-cases (has_default ps)) [
      | inl d ↦ rw (e, d) refl
      | inr d ↦ elim p [
        | inl unnamed ↦
            let bad : has_default ([] ∷ rest) ≡ false = rw unnamed at (rw last at d) in
            absurd (contradicts rest bad)
        | inr active ↦ rw (e, d) (ap (λ (a : Text). active_dir root a) active)
      ]
    ],
  )

  scroll-InView : (c o : ℕ) (ps : List Text) → c ≤ length ps → InView c (scroll c o) ps
  unfolding scroll
  scroll-InView c o ps h = (h, ground arith, ground arith)

  start_in-Picked :
      (m : Welcome) (shown : Text → Text) (edit : Key → Text → Text)
      → IsConsistent m
      → Picked m.selected_profile m.env m.active
      → Good (start_in root shown edit m)
  unfolding start_in finish
  start_in-Picked m shown edit c p =
      if_intro Good (Landing.has_joined (m.files (profile_data_dir root m.selected_profile))) _ _
        (λ h. boots (record m { profile_name = m.selected_profile }) c.0 p) (c.0, c.1, p)

  module _ (m : Welcome) (c : IsConsistent m) where
    move_to-IsConsistent : (k : ℕ) → k ≤ length m.profiles → IsConsistent (move_to k m)
    unfolding move_to
    move_to-IsConsistent k h = (c.0, scroll-InView k m.offset m.profiles h, c.2)

    pub list_up-IsConsistent :
        (shown : Text → Text) (edit : Key → Text → Text) → IsConsistent (list_up root shown edit m)
    unfolding list_up
    list_up-IsConsistent shown edit =
        move_to-IsConsistent (if m.cursor == 0 then length m.profiles else m.cursor - 1)
          (ground (arith, c.1.0))

    pub list_down-IsConsistent :
        (shown : Text → Text) (edit : Key → Text → Text)
        → IsConsistent (list_down root shown edit m)
    unfolding list_down
    list_down-IsConsistent shown edit =
        move_to-IsConsistent (if ltb (length m.profiles) (m.cursor + 1) then 0 else m.cursor + 1)
          (ground (arith, c.1.0))

    module _ (shown : Text → Text) (edit : Key → Text → Text) (w : World) where
      pub trigger_selection-Good : (i : ℕ) → Good (trigger_selection root shown edit w i m)
      unfolding trigger_selection finish
      trigger_selection-Good zero = (c.0, (omega arith, omega arith, omega arith), tt)
      trigger_selection-Good (suc zero) = (c.0, c.1, tt)
      trigger_selection-Good (suc (suc zero)) = λ h. absurd cc
      trigger_selection-Good (suc (suc (suc n))) = c

      pub trigger_role-Good :
          Picked m.profile_name m.env m.active → (i : ℕ) → Good (trigger_role root shown edit i m)
      unfolding trigger_role finish
      trigger_role-Good p zero =
          if_intro Good
            (Landing.has_tailscale_api (m.files (profile_data_dir root m.selected_profile))) _ _
            (λ h. boots m c.0 p) (c.0, c.1, p)
      trigger_role-Good p (suc n) = (c.0, c.1, p)

module _ (root : Option Text) (shown : Text → Text) (edit : Key → Text → Text) (w : World)
    (m : Welcome) (ps : List Text) (c : IsConsistent root ps m)
    (elsewhere : (qs : List Text) (name env active : Text)
      → Settled root qs m.screen name env active) where
  -- "Start Node" adds the entry to those that were chosen, if its call goes through.
  select_dir-Good :
      Good root
        (if goes_through root w m.selected_profile then m.selected_profile ∷ ps else ps)
        (select_dir root shown edit w m)
  unfolding select_dir goes_through
  select_dir-Good = elim (Bool-cases (is_empty m.selected_profile)) [
    | inl e ↦ elim (Bool-cases w.setenv_fails) [
      | inl f ↦ rw (e, f) (c.0, c.1, elsewhere _ _ _ _)
      | inr f ↦
          rw (e, f)
            (start_in-Picked root (m.selected_profile ∷ ps) (record m { env = default_dir }) shown
              edit (env_default m.selected_profile e ps, c.1, elsewhere _ _ _ _)
              ((ps, refl), inl (nameless m.selected_profile e)))
    ]
    | inr e ↦ rw e (
        if_both (Good root) _ _ _ _
          (
            record m { status = switch_failed; active = active_after_failure root w m.active },
            nothing,
          )
          (start_in-Picked root (m.selected_profile ∷ ps) (record m { active = m.selected_profile })
            shown edit (c.0 ∙ env_named m.selected_profile e ps, c.1, elsewhere _ _ _ _)
            ((ps, refl), inr refl))
          (c.0, c.1, elsewhere _ _ _ _))
  ]

  pub trigger_submenu-Good :
      (i : ℕ)
      → Good root
          (if starts Fields.enter i && goes_through root w m.selected_profile
            then m.selected_profile ∷ ps
            else ps)
          (trigger_submenu root shown edit w i m)
  unfolding trigger_submenu open_form starts
  trigger_submenu-Good zero = select_dir-Good
  trigger_submenu-Good (suc zero) = (c.0, c.1, tt)
  trigger_submenu-Good (suc (suc zero)) = (c.0, c.1, tt)
  trigger_submenu-Good (suc (suc (suc n))) = c
