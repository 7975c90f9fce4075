-- ===== src/Tui/Settings/Saved.antt =====
-- The settings form of internal/tui/app/welcome.go, saved and opened again.
use edge_grid.Prelude.{
  ℕ, zero, ◌<◌, ne→==_false, arith, ◌≡◌, suc, ◌==◌, not, get_elem?, refl, sym, subst, ap, false,
  ◌&&◌, Text, List, [], ◌∷◌, ◌⊎◌, Option, none, some, text_eq, codes, is_empty, if◌then◌else◌,
  Bool-cases, inl, inr,
}
use edge_grid.Prelude.Lines.{trim_space}
use edge_grid.Tui.Fields.{
  Field, Values, Files, Outcome, succeeds, SaveError, field_order, field_file, is_choice, put_file,
  load_token, load_values, persist, persist_field, persist_fields, port_ok, client_id,
  client_secret, tailnet, tag, api_port, require_approval, bad_port, set_value, Key, Form, ctrl_s,
}
use edge_grid.Tui.Settings.{
  update_form, finish_settings, open_settings, focus_field, save_field, save_at,
}

-- What the form shows of a field whose value was saved.
abbrev pub kept : Field → Text → Text
kept f v = if is_choice f && is_empty v then codes "false" else v

-- What a reader of a file gets that was written with this value, or removed.
load_saved :
    (file : Text) (v : Text) (d : Files)
    → d file ≡ (if is_empty v then none else some v)
    → load_token file d ≡ v
unfolding is_empty load_token
load_saved file [] d h = rw (load_token, h) refl
load_saved file (c ∷ s) d h = rw (load_token, h) refl

module _ (o : Field → Outcome) (well : (f : Field) → o f ≡ succeeds) (vals : Values) where
  written_all : List Field → Files → Files
  written_all [] d = d
  written_all (f ∷ fs) d = written_all fs (
      put_file (field_file f)
        (if is_empty (trim_space (vals f)) then none else some (trim_space (vals f))) d)

  field_ok :
      (f : Field) (v : Text) (d : Files)
      → persist_field (o f) f v d
        ≡ (none, put_file (field_file f) (if is_empty v then none else some v) d)
  unfolding persist_field
  field_ok f v d = rw (well f) refl

  persist_fields_ok :
      (fs : List Field) (d : Files) → persist_fields o vals fs d ≡ (none, written_all fs d)
  unfolding persist_fields written_all
  persist_fields_ok [] d = refl
  persist_fields_ok (f ∷ fs) d =
      subst
        (λ (q : Option SaveError × Files).
          (elim q.0 as (λ _. Option SaveError × Files) [
            | none ↦ persist_fields o vals fs q.1
            | some e ↦ (some e, q.1)
          ])
          ≡ (none, written_all (f ∷ fs) d))
        (sym (field_ok f (trim_space (vals f)) d)) (persist_fields_ok fs _)

  load_written :
      (f : Field) (d : Files)
      → load_token (field_file f) (written_all field_order d) ≡ trim_space (vals f)
  unfolding written_all put_file field_file text_eq
  load_written client_id d = load_saved _ (trim_space (vals client_id)) _ refl
  load_written client_secret d = load_saved _ (trim_space (vals client_secret)) _ refl
  load_written tailnet d = load_saved _ (trim_space (vals tailnet)) _ refl
  load_written tag d = load_saved _ (trim_space (vals tag)) _ refl
  load_written api_port d = load_saved _ (trim_space (vals api_port)) _ refl
  load_written require_approval d = load_saved _ (trim_space (vals require_approval)) _ refl

  -- Where no write and no removal fails: either the port is neither blank nor a number from 1 to 65535, and
  -- then nothing is written, or the form is saved, and opening it again shows the value of each
  -- field, without white space around it, and "false" for a blank choice.
  persist_shown :
      (d : Files)
      → let (e, files) = persist o vals d in
        ((port_ok (trim_space (vals api_port)) ≡ false) × (e ≡ some bad_port) × (files ≡ d))
        ⊎ ((e ≡ none) × ((f : Field) → load_values files f ≡ kept f (trim_space (vals f))))
  unfolding persist load_values
  persist_shown d = elim (Bool-cases (port_ok (trim_space (vals api_port)))) [
    | inr h ↦ rw h (inl (refl, refl, refl))
    | inl h ↦
        rw h (rw (persist_fields_ok field_order d) (inr (refl, λ f. rw (load_written f d) refl)))
  ]

-- Where a field stands in the form.
position : Field → ℕ
position client_id = 0
position client_secret = 1
position tailnet = 2
position tag = 3
position api_port = 4
position require_approval = 5

-- What is entered for a field: what is typed, where the cursor is in its text field, and else what it had.
unfoldable pub entered : Form → Field → Text
unfolding position
entered m f = if position f == m.idx && not (is_choice f) then trim_space m.value else m.vals f

-- A property of each field is one of every field.
every_field :
    (P : Field → Type 0)
    → P client_id × P client_secret × P tailnet × P tag × P api_port × P require_approval
    → (f : Field) → P f
every_field P (a, b, c, d, e, g) client_id = a
every_field P (a, b, c, d, e, g) client_secret = b
every_field P (a, b, c, d, e, g) tailnet = c
every_field P (a, b, c, d, e, g) tag = d
every_field P (a, b, c, d, e, g) api_port = e
every_field P (a, b, c, d, e, g) require_approval = g

-- What saveSettingsField makes of a field, where the cursor is in the row i.
abbrev IsSaved : (Text → Text) → (Key → Text → Text) → Form → ℕ → Field → Type 0
IsSaved shown edit m i f =
    (save_at shown edit (get_elem? field_order i) m).vals f
    ≡ (if position f == i && not (is_choice f) then trim_space m.value else m.vals f)

beyond : (n i : ℕ) → n < 6 → (n == suc (suc (suc (suc (suc (suc i)))))) ≡ false
beyond n i h = ne→==_false n _ (omega arith)

IsSaved-save_at :
    (shown : Text → Text) (edit : Key → Text → Text) (m : Form) (i : ℕ) (f : Field)
    → IsSaved shown edit m i f
unfolding save_at set_value is_choice position text_eq field_file
IsSaved-save_at shown edit m zero =
    every_field (IsSaved shown edit m 0) (refl, refl, refl, refl, refl, refl)
IsSaved-save_at shown edit m (suc zero) =
    every_field (IsSaved shown edit m 1) (refl, refl, refl, refl, refl, refl)
IsSaved-save_at shown edit m (suc (suc zero)) =
    every_field (IsSaved shown edit m 2) (refl, refl, refl, refl, refl, refl)
IsSaved-save_at shown edit m (suc (suc (suc zero))) =
    every_field (IsSaved shown edit m 3) (refl, refl, refl, refl, refl, refl)
IsSaved-save_at shown edit m (suc (suc (suc (suc zero)))) =
    every_field (IsSaved shown edit m 4) (refl, refl, refl, refl, refl, refl)
IsSaved-save_at shown edit m (suc (suc (suc (suc (suc zero))))) =
    every_field (IsSaved shown edit m 5) (refl, refl, refl, refl, refl, refl)
IsSaved-save_at shown edit m (suc (suc (suc (suc (suc (suc i)))))) =
    every_field (IsSaved shown edit m (suc (suc (suc (suc (suc (suc i))))))) (
      rw (beyond 0 i (omega arith)) refl,
      rw (beyond 1 i (omega arith)) refl,
      rw (beyond 2 i (omega arith)) refl,
      rw (beyond 3 i (omega arith)) refl,
      rw (beyond 4 i (omega arith)) refl,
      rw (beyond 5 i (omega arith)) refl,
    )

save_field-entered :
    (shown : Text → Text) (edit : Key → Text → Text) (m : Form) (f : Field)
    → (save_field shown edit m).vals f ≡ entered m f
unfolding save_field entered
save_field-entered shown edit m f = IsSaved-save_at shown edit m m.idx f

-- If no write and no removal fails, ctrl+s either reports the port that is entered, where it is neither
-- blank nor a number from 1 to 65535, and leaves the files alone, or it reports that the form is saved,
-- and opening it again shows what was entered for each field, the text that is being typed among it,
-- without white space around it, and "false" for a blank choice.
pub ctrl_s-shown :
    (shown : Text → Text) (edit : Key → Text → Text) (o : Field → Outcome)
    → ((f : Field) → o f ≡ succeeds)
    → (m : Form) (d : Files) (seq : ℕ)
    → let (n, files) = update_form shown edit o ctrl_s m d in
      ((port_ok (trim_space (entered m api_port)) ≡ false)
        × (n.status ≡ some (some bad_port))
        × (files ≡ d))
      ⊎ ((n.status ≡ some none)
          × ((f : Field)
              → (open_settings shown edit seq files).vals f ≡ kept f (trim_space (entered m f))))
unfolding update_form finish_settings open_settings focus_field is_choice
ctrl_s-shown shown edit o well m d seq =
    elim (persist_shown o well (save_field shown edit m).vals d) [
      | inl (port, e, same) ↦
          inl (rw (sym (save_field-entered shown edit m api_port)) port, ap some e, same)
      | inr (e, vals) ↦ inr (ap some e, λ f. rw (sym (save_field-entered shown edit m f)) (vals f))
    ]
