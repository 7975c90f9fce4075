-- ===== src/Tui/Landing.antt =====
-- The state of the welcome screen of internal/tui/app/welcome.go, and where LoadConfig finds the data of a
-- node (internal/node/config.go, ident.go, profile.go).
use edge_grid.Prelude.{
  ℕ, zero, suc, ◌+◌, ◌-◌, ◌%◌, Bool, false, not, ◌&&◌, Text, List, [], Option, none, some, codes,
  get_elem?, is_empty, ltb, leb, if◌then◌else◌,
}
use edge_grid.Prelude.Path.{join}
use edge_grid.Tui.Fields.{Files, Form, Field, Outcome, load_token}

-- The subModes, from 0 to 9.
pub data Screen : Type 0 where
  main_menu profile_list new_name submenu benchmark : Screen
  delete_confirm settings network_role auth_key needs_settings : Screen

pub data Action : Type 0 where
  quit start logs : Action

abbrev pub default_dir : Text
default_dir = codes "./data"

-- profileDataDir; `root` is what ProfileRoot returns, none for its error.
unfoldable pub profile_data_dir : Option Text → Text → Text
profile_data_dir root name =
    if is_empty name then default_dir else elim root [ none ↦ default_dir | some r ↦ join r name ]

unfoldable pub active_dir : Option Text → Text → Text
active_dir root name =
    if is_empty name then default_dir else elim root [ none ↦ default_dir | some r ↦ join r name ]

-- ResolveDataDir: the flag, the variable DATA_DIR, the active profile, ./data.
unfoldable pub resolve_data_dir : Text → Text → Option Text → Text → Text
unfolding active_dir
resolve_data_dir flag env root active =
    if not (is_empty flag) then flag else if not (is_empty env) then env else active_dir root active

-- What the calls during one update return.
pub record World : Type 0 where
  pub profiles : List Text
  pub use_fails : Bool
  pub use_truncates : Bool  -- app.json, when its write fails
  pub setenv_fails : Bool
  pub delete_fails : Bool
  pub reset_fails : Bool  -- of app.json, when the active profile was deleted
  pub random_name : Text
  pub outcome : Field → Outcome

pub data Status : Type 0 where
  no_status create_failed delete_failed default_failed switch_failed : Status

-- `active` and `env` stand for app.json and the variable DATA_DIR, and `files` for the files of the
-- directory that the settings edit.
pub record Welcome : Type 0 where
  pub screen : Screen
  pub selected : ℕ
  pub profiles : List Text
  pub cursor : ℕ
  pub offset : ℕ
  pub selected_profile : Text
  pub submenu_idx : ℕ
  pub role_idx : ℕ
  pub status : Status
  pub value : Text
  pub benchmark_active : Bool
  pub action : Action
  pub profile_name : Text
  pub auth : Text
  pub form : Form
  pub files : Text → Files
  pub active : Text
  pub env : Text

pub data Cmd : Type 0 where
  nothing leave : Cmd

-- The rows of a menu of n options, up and down with a wrap.
unfoldable pub previous : ℕ → ℕ → ℕ
previous n i = (i + n - 1) % n

unfoldable pub following : ℕ → ℕ → ℕ
following n i = (i + 1) % n

-- The five rows that are shown.
unfoldable pub scroll : ℕ → ℕ → ℕ
scroll cursor offset =
    if ltb cursor offset then cursor else if leb (offset + 5) cursor then cursor - 5 + 1 else offset

unfoldable pub move_to : ℕ → Welcome → Welcome
unfolding scroll
move_to c m = record m { cursor = c; offset = scroll c m.offset }

stay : Welcome → Welcome × Cmd
stay m = (m, nothing)

unfoldable pub finish : Action → Welcome → Welcome × Cmd
finish a m = (record m { action = a }, leave)

-- The name under the cursor: the row 0 is the default entry.
unfoldable pub row_at : ℕ → List Text → Option Text
row_at zero ps = none
row_at (suc n) ps = get_elem? ps n

unfoldable pub name_of : Option Text → Text
name_of none = []
name_of (some p) = p

-- node.HasJoined and profileHasTailscaleAPI, of a directory.
unfoldable pub has_joined : Files → Bool
has_joined d = not (is_empty (load_token (codes "tailscale.ip") d))

unfoldable pub has_tailscale_api : Files → Bool
has_tailscale_api d =
    not (is_empty (load_token (codes "ts_api_client_id") d))
    && (not (is_empty (load_token (codes "ts_api_client_secret") d))
        && not (is_empty (load_token (codes "ts_api_tailnet") d)))

-- Whether node.UseProfile goes through.
unfoldable pub uses : Option Text → World → Text → Bool
uses root w name = not (is_empty name) && elim root [ none ↦ false | some r ↦ not w.use_fails ]

-- The active profile after a UseProfile that failed: with a write that fails, app.json may be left empty.
unfoldable pub active_after_failure : Option Text → World → Text → Text
active_after_failure none w active = active
active_after_failure (some r) w active = if w.use_truncates then [] else active
