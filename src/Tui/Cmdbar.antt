-- ===== src/Tui/Cmdbar.antt =====
-- internal/tui/cmdbar/cmdbar.go: the command line of every screen, with its suggestions.
pub mod Selected
use edge_grid.Prelude.{
  ℕ, zero, suc, ◌+◌, ◌-◌, ◌≡◌, refl, Bool, true, false, not, ◌&&◌, Text, List, [], ◌∷◌, Option,
  none, some, length, get_elem?, is_empty, ltb, leb, if◌then◌else◌,
}
use edge_grid.Prelude.Int.{ℤ, pos, negsuc}
use edge_grid.Prelude.Lines.{trim_space}
use edge_grid.Tui.Paths.{has_prefix}

pub data Key : Type 0 where
  esc backspace up shift_tab down tab enter : Key
  typed : ℕ → Key

-- `selected` is -1 where there is nothing to select.
pub record Bar : Type 0 where
  pub value : Text
  pub active : Bool
  pub commands : List Text
  pub suggestions : List Text
  pub selected : ℤ

-- New
unfoldable pub new : List Text → Bar
new commands = record {
  value = [];
  active = false;
  commands = commands;
  suggestions = commands;
  selected = pos 0;
}

-- len(xs) - 1
unfoldable pub last_index : List Text → ℤ
last_index [] = negsuc 0
last_index (x ∷ xs) = pos (length xs)

unfoldable pub clamp : ℤ → List Text → ℤ
clamp (negsuc n) [] = negsuc 0
clamp (negsuc n) (x ∷ xs) = negsuc n
clamp (pos n) xs = if leb (length xs) n then last_index xs else pos n

-- `m.suggestions[m.selectedIndex]` where the index is in range.
unfoldable pub chosen : ℤ → List Text → Option Text
chosen (negsuc n) xs = none
chosen (pos n) xs = get_elem? xs n

previous : ℤ → List Text → ℤ
previous (negsuc n) xs = last_index xs
previous (pos zero) xs = last_index xs
previous (pos (suc n)) xs = pos n

following : ℤ → List Text → ℤ
following (negsuc zero) xs = pos 0
following (negsuc (suc n)) xs = negsuc n
following (pos n) xs = if leb (length xs) (n + 1) then pos 0 else pos (n + 1)

moved : (ℤ → List Text → ℤ) → Bar → Bar × Option Text
moved f b = (
  record b {
    selected = if ltb 0 (length b.suggestions) then f b.selected b.suggestions else b.selected;
  },
  none,
)

-- What Update returns besides the bar: SubmitMsg, or nothing.
abbrev pub Submitted : Type 0
Submitted = Option Text

submit : Text → Submitted
submit command = if is_empty command then none else some command

-- `lower` is strings.ToLower, and `edit` the text field's own Update.
module _ (lower : Text → Text) (edit : Key → Text → Text) where
  unfoldable pub matching : Text → List Text → List Text
  matching value [] = []
  matching value (c ∷ cs) =
      if has_prefix (lower c) (lower value) then c ∷ matching value cs else matching value cs

  unfoldable pub update_suggestions : Bar → Bar
  update_suggestions b = record b {
    suggestions = matching b.value b.commands;
    selected = clamp b.selected (matching b.value b.commands);
  }

  unfoldable pub activate : Bar → Bar
  activate b = update_suggestions (record b { active = true; value = []; selected = pos 0 })

  close : Bar → Bar
  close b = record b { active = false }

  edited : Key → Bar → Bar × Submitted
  edited k b = (update_suggestions (record b { value = edit k b.value }), none)

  complete : Option Text → Bar → Bar × Submitted
  complete none b = (b, none)
  complete (some s) b = (update_suggestions (record b { value = s }), none)

  entered : Option Text → Bar → Bar × Submitted
  unfolding close submit
  entered none b = (close b, submit (trim_space b.value))
  entered (some s) b = (close b, submit s)

  -- Update on a key, while the bar is active.
  unfoldable pub update : Key → Bar → Bar × Submitted
  unfolding close edited complete entered moved previous following
  update esc b = (close b, none)
  update backspace b = if is_empty b.value then (close b, none) else edited backspace b
  update up b = moved previous b
  update shift_tab b = moved previous b
  update down b = moved following b
  update tab b = complete (chosen b.selected b.suggestions) b
  update enter b = entered (chosen b.selected b.suggestions) b
  update (typed c) b = edited (typed c) b
