-- ===== src/Tui/Fields.antt =====
-- The fields of the settings form in internal/tui/app/welcome.go, and the files that they are saved to.
use edge_grid.Prelude.{
  ℕ, ◌+◌, ◌-◌, ◌*◌, Bool, true, false, not, ◌&&◌, ◌||◌, Text, List, [], ◌∷◌, Option, none, some,
  codes, text_eq, is_empty, leb, ◌==◌, if◌then◌else◌,
}
use edge_grid.Prelude.Lines.{trim_space}
use edge_grid.Tui.Paths.{trim_prefix}

-- A key press: the named keys, a single character, and all else that the text field may take.
pub data Key : Type 0 where
  esc enter up down left right space backspace delete ctrl_c ctrl_s : Key
  char : ℕ → Key
  other_key : ℕ → Key

pub data Field : Type 0 where
  client_id client_secret tailnet tag api_port require_approval : Field

-- settingsFieldFiles
unfoldable pub field_file : Field → Text
field_file client_id = codes "ts_api_client_id"
field_file client_secret = codes "ts_api_client_secret"
field_file tailnet = codes "ts_api_tailnet"
field_file tag = codes "ts_api_tag"
field_file api_port = codes "api_port"
field_file require_approval = codes "require_approval"

-- settingsFieldOrder
abbrev pub field_order : List Field
field_order = client_id ∷ client_secret ∷ tailnet ∷ tag ∷ api_port ∷ require_approval ∷ []

unfoldable pub is_choice : Field → Bool
is_choice require_approval = true
is_choice _ = false

-- settingsVals. A field is known by its file.
abbrev pub Values : Type 0
Values = Field → Text

unfoldable pub set_value : Field → Text → Values → Values
set_value f v vals g = if text_eq (field_file g) (field_file f) then v else vals g

-- The files of the profile's directory, by their names.
abbrev pub Files : Type 0
Files = Text → Option Text

unfoldable pub put_file : Text → Option Text → Files → Files
put_file file v d g = if text_eq g file then v else d g

-- node.LoadToken
unfoldable pub load_token : Text → Files → Text
load_token file d = elim (d file) [ none ↦ [] | some v ↦ v ]

-- How a write or a removal turns out. A write that fails leaves something of the file, or no file.
pub data Outcome : Type 0 where
  succeeds : Outcome
  fails : Option Text → Outcome

pub data SaveError : Type 0 where
  bad_port : SaveError
  file_failed : Field → SaveError

pub record Form : Type 0 where
  pub idx : ℕ
  pub vals : Values
  pub status : Option (Option SaveError)  -- the line that is shown, `some none` for "saved to"
  pub seq : ℕ
  pub value : Text  -- the text field
  pub focused : Bool

-- A number that has only digits.
digits : ℕ → Text → Option ℕ
digits n [] = some n
digits n (c ∷ s) =
    let rest = digits (n * 10 + (c - b'0')) s in if leb b'0' c && leb c b'9' then rest else none

-- Without the sign that strconv.Atoi takes. A negative number is as bad as no number.
unsigned : Text → Option ℕ
unfolding digits
unsigned [] = none
unsigned (c ∷ []) = digits 0 (c ∷ [])
unsigned (c ∷ d ∷ s) = if c == b'+' then digits 0 (d ∷ s) else digits 0 (c ∷ d ∷ s)

in_range : Option ℕ → Bool
in_range none = false
in_range (some n) = leb 1 n && leb n 65535

-- The check of "API Port".
unfoldable pub is_port : Text → Bool
unfolding unsigned in_range
is_port v = in_range (unsigned (trim_prefix v (codes ":")))

unfoldable pub port_ok : Text → Bool
port_ok v = is_empty v || is_port v

-- One file of persistProfileSettings. A file that cannot be removed stays.
unfoldable pub persist_field : Outcome → Field → Text → Files → Option SaveError × Files
persist_field succeeds f v d =
    (none, put_file (field_file f) (if is_empty v then none else some v) d)
persist_field (fails rest) f v d =
    (some (file_failed f), if is_empty v then d else put_file (field_file f) rest d)

unfoldable pub persist_fields :
    (Field → Outcome) → Values → List Field → Files → Option SaveError × Files
persist_fields o vals [] d = (none, d)
persist_fields o vals (f ∷ fs) d =
    let step = persist_field (o f) f (trim_space (vals f)) d in
    let rest = persist_fields o vals fs step.1 in
    elim step.0 [ none ↦ rest | some e ↦ (some e, step.1) ]

-- persistProfileSettings
unfoldable pub persist : (Field → Outcome) → Values → Files → Option SaveError × Files
unfolding port_ok
persist o vals d =
    if not (port_ok (trim_space (vals api_port)))
    then (some bad_port, d)
    else persist_fields o vals field_order d

-- What openProfileSettings reads.
unfoldable pub load_values : Files → Values
load_values d f =
    let v = load_token (field_file f) d in if is_choice f && is_empty v then codes "false" else v

-- strings.EqualFold(s, "true"). No letter of it folds to more than its two cases.
unfoldable pub is_true : Text → Bool
is_true (a ∷ b ∷ c ∷ d ∷ []) =
    (a == b't' || a == b'T')
    && (b == b'r' || b == b'R')
    && (c == b'u' || c == b'U')
    && (d == b'e' || d == b'E')
is_true s = false

-- toggleWelcomeBool
unfoldable pub toggle_bool : Text → Text
unfolding is_true
toggle_bool s = if is_true s || text_eq s (codes "1") then codes "false" else codes "true"
