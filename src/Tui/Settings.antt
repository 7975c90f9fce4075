-- ===== src/Tui/Settings.antt =====
-- The settings form of internal/tui/app/welcome.go: its keys, and how it is opened and saved.
pub mod Saved
use edge_grid.Prelude.{
  ℕ, suc, ◌+◌, ◌-◌, ◌*◌, ◌%◌, ◌≡◌, Bool, true, false, not, ◌&&◌, ◌||◌, Text, [], ◌∷◌, Option, none,
  some, codes, get_elem?, ltb, ◌==◌, if◌then◌else◌,
}
use edge_grid.Prelude.Lines.{trim_space}
use edge_grid.Tui.Fields.{
  Field, Files, Form, Key, Outcome, char, ctrl_s, down, enter, field_order, is_choice, is_true,
  left, load_values, persist, require_approval, right, set_value, space, toggle_bool, up,
}

-- `shown` is what the text field makes of a value it is given, and `edit` its own Update.
module _ (shown : Text → Text) (edit : Key → Text → Text) where
  save_at : Option Field → Form → Form
  save_at none m = m
  save_at (some f) m =
      if is_choice f then m else record m { vals = set_value f (trim_space m.value) m.vals }

  -- saveSettingsField
  unfoldable pub save_field : Form → Form
  unfolding save_at
  save_field m = save_at (get_elem? field_order m.idx) m

  focus_at : Option Field → Form → Form
  focus_at none m = m
  focus_at (some f) m =
      if is_choice f
      then record m { focused = false }
      else record m { value = shown (m.vals f); focused = true }

  -- focusSettingsField
  unfoldable pub focus_field : Form → Form
  unfolding focus_at
  focus_field m = focus_at (get_elem? field_order m.idx) m

  -- moveSettingsField, to the field `by` further on.
  unfoldable pub move_field : ℕ → Form → Form
  move_field by m = let s = save_field m in focus_field (record s { idx = (s.idx + by) % 6 })

  -- openProfileSettings
  unfoldable pub open_settings : ℕ → Files → Form
  open_settings seq d = focus_field (record {
    idx = 0;
    vals = load_values d;
    status = none;
    seq = seq;
    value = [];
    focused = false;
  })

  -- finishSettings, on a form whose field is saved.
  unfoldable pub finish_settings : (Field → Outcome) → Form → Files → Form × Files
  finish_settings o m d =
      let (e, files) = persist o m.vals d in (record m { status = some e; seq = suc m.seq }, files)

  edited : Key → Form → Form
  edited k m = if m.focused then record m { value = edit k m.value } else m

  choose : Text → Form → Form
  choose v m = record m { vals = set_value require_approval v m.vals }

  abbrev on_choice : Form → Bool
  on_choice m = m.idx == 5

  key_up : Form → Form
  unfolding choose is_true
  key_up m =
      if on_choice m && not (is_true (m.vals require_approval))
      then choose (codes "true") m
      else move_field 5 m

  key_down : Form → Form
  unfolding choose is_true
  key_down m =
      if on_choice m && is_true (m.vals require_approval)
      then choose (codes "false") m
      else move_field 1 m

  typed : Key → Form → Form
  unfolding edited
  typed k m = if on_choice m then m else edited k m

  key_enter : (Field → Outcome) → Form → Files → Form × Files
  key_enter o m d =
      let s = if on_choice m then m else save_field m in
      if ltb s.idx 5 then (focus_field (record s { idx = suc s.idx }), d) else finish_settings o s d

  -- updateProfileSettings on a key but esc, which leaves the form.
  unfoldable pub update_form : (Field → Outcome) → Key → Form → Files → Form × Files
  unfolding key_up key_down typed key_enter choose toggle_bool
  update_form o up m d = (key_up m, d)
  update_form o down m d = (key_down m, d)
  update_form o left m d = (if on_choice m then choose (codes "false") m else m, d)
  update_form o right m d = (if on_choice m then choose (codes "true") m else m, d)
  update_form o space m d =
      (if on_choice m then choose (toggle_bool (m.vals require_approval)) m else typed space m, d)
  update_form o ctrl_s m d = finish_settings o (save_field m) d
  update_form o enter m d = key_enter o m d
  update_form o (char c) m d =
      if c == b'k'
      then (key_up m, d)
      else if c == b'j'
      then (key_down m, d)
      else if c == b'h'
      then (if on_choice m then choose (codes "false") m else m, d)
      else if c == b'l'
      then (if on_choice m then choose (codes "true") m else m, d)
      else (typed (char c) m, d)
  update_form o k m d = (typed k m, d)

-- settingsStatusExpiredMsg
unfoldable pub expire_status : ℕ → Form → Form
expire_status seq m = if seq == m.seq then record m { status = none } else m
