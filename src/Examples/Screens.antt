-- ===== src/Examples/Screens.antt =====
-- The screens before the node starts: the settings of a profile, and its choice.
use edge_grid.Prelude.{
  is_empty, ◌≡◌, ◌⊎◌, refl, true, false, Text, [], ◌∷◌, ◌++◌, Option, some, none, codes,
}
use edge_grid.Prelude.Lines.{trim_space}
use edge_grid.Tui.Fields.{
  Key, char, enter, down, load_token, ctrl_s, Field, Form, Files, succeeds, port_ok, api_port,
  bad_port,
}
use edge_grid.Tui.Settings.{update_form, open_settings}
use edge_grid.Tui.Settings.Saved.{kept, entered, ctrl_s-shown}
use edge_grid.Tui.Landing.{Welcome, World, nothing, leave, start, profile_list, network_role, uses}
use edge_grid.Tui.Welcome.{update}
use edge_grid.Tui.Welcome
use edge_grid.Tui.Landing
use edge_grid.Tui.Welcome.Choice.{InView, Boots, chosen, starts, goes_through}
use edge_grid.Tui.Welcome.Booted.{Reach, opened, pressed, Reach-Boots}

-- A key types its character.
abbrev append_key : Key → Text → Text
append_key (char c) s = s ++ (c ∷ [])
append_key k s = s

abbrev same : Text → Text
same s = s

abbrev no_files : Files
no_files file = none

-- The name of the tailnet has been typed.
abbrev form : Form
form = record {
  idx = 2;
  vals = λ f. [];
  status = none;
  seq = 0;
  value = codes " example.com ";
  focused = true;
}

ctrl_s-shown_example :
    let (n, files) = update_form same append_key (λ f. succeeds) ctrl_s form no_files in
    ((port_ok (trim_space (entered form api_port)) ≡ false)
      × (n.status ≡ some (some bad_port))
      × (files ≡ no_files))
    ⊎ ((n.status ≡ some none)
        × ((f : Field)
            → (open_settings same append_key 1 files).vals f
              ≡ kept f (trim_space (entered form f))))
ctrl_s-shown_example = ctrl_s-shown same append_key (λ f. succeeds) (λ f. refl) form no_files 1

abbrev around : World
around = record {
  profiles = codes "lab" ∷ codes "work" ∷ [];
  use_fails = false;
  use_truncates = false;
  setenv_fails = false;
  delete_fails = false;
  reset_fails = false;
  random_name = codes "cluster-01ab";
  outcome = λ f. succeeds;
}

abbrev root : Option Text
root = some (codes "/home/u/.edgegrid")

-- The list of the profiles, as enter opens it.
abbrev listing : Welcome
listing = record {
  screen = profile_list;
  selected = 0;
  profiles = codes "lab" ∷ codes "work" ∷ [];
  cursor = 0;
  offset = 0;
  selected_profile = [];
  submenu_idx = 0;
  role_idx = 0;
  status = Landing.no_status;
  value = [];
  benchmark_active = false;
  action = Landing.quit;
  profile_name = [];
  auth = [];
  form = form;
  files = λ dir. no_files;
  active = codes "lab";
  env = [];
}

listing_reached : Reach root same append_key [] listing
unfolding update Welcome.update_screen chosen
listing_reached = pressed around enter (opened (codes "lab") (λ dir. no_files) form) refl

-- A profile is chosen that has not joined yet.
abbrev roles : Welcome
roles = record listing {
  cursor = 1;
  selected_profile = codes "lab";
  profile_name = codes "lab";
  screen = network_role;
}

roles_reached : Reach root same append_key (codes "lab" ∷ []) roles
unfolding update Welcome.update_screen chosen starts goes_through is_empty uses load_token
    edge_grid.Tui.Landing.move_to edge_grid.Tui.Landing.scroll edge_grid.Tui.Landing.row_at
    edge_grid.Tui.Landing.name_of edge_grid.Tui.Landing.has_joined
roles_reached =
    pressed around enter (pressed around enter (pressed around down listing_reached refl) refl) refl

Reach-Boots_example :
    InView roles.cursor roles.offset roles.profiles
    × ((w : World) (k : Key) (n : Welcome)
        → update root same append_key w k roles ≡ (n, leave)
        → n.action ≡ start
        → Boots root (chosen root w network_role k roles (codes "lab" ∷ [])) n)
Reach-Boots_example = Reach-Boots root same append_key roles_reached
