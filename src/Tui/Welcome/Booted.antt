-- ===== src/Tui/Welcome/Booted.antt =====
-- The welcome screen under every sequence of keys: the entries that are chosen on it, and where the node that
-- it starts keeps its state (newWelcomeModel and update in internal/tui/app/welcome.go, and
-- ResolveDataDir in internal/node/config.go).
use edge_grid.Prelude.{◌≡◌, refl, subst, false, Text, List, [], Option, arith}
use edge_grid.Tui.Fields.{Key, Files, Form}
use edge_grid.Tui.Landing.{main_menu, Action, start, World, Welcome, nothing, leave}
use edge_grid.Tui.Welcome.{update}
use edge_grid.Tui.Landing
use edge_grid.Tui.Welcome.Choice.{InView, IsConsistent, Boots, Good, chosen, env_of, has_default}
use edge_grid.Tui.Welcome.Screens.{update-Good}

module _ (root : Option Text) (shown : Text → Text) (edit : Key → Text → Text) where
  -- newWelcomeModel, with DATA_DIR unset.
  abbrev new_welcome : Text → (Text → Files) → Form → Welcome
  new_welcome active files form = record {
    screen = main_menu;
    selected = 0;
    profiles = [];
    cursor = 0;
    offset = 0;
    selected_profile = [];
    submenu_idx = 0;
    role_idx = 0;
    status = Landing.no_status;
    value = [];
    benchmark_active = false;
    action = Action.quit;
    profile_name = [];
    auth = [];
    form = form;
    files = files;
    active = active;
    env = [];
  }

  -- The screens that keys reach, each with what its calls return, and with the entries that were chosen
  -- on the way, the last one first.
  pub data Reach : List Text → Welcome → Type 0 where
    opened :
        (active : Text) (files : Text → Files) (form : Form)
        → Reach [] (new_welcome active files form)
    pressed :
        {ps : List Text} {m n : Welcome} (w : World) (k : Key)
        → Reach ps m
        → update root shown edit w k m ≡ (n, nothing)
        → Reach (chosen root w m.screen k m ps) n

  Reach-IsFit : {ps : List Text} {m : Welcome} → Reach ps m → IsConsistent root ps m
  unfolding env_of has_default
  Reach-IsFit (opened active files form) = (refl, (omega arith, omega arith, omega arith), tt)
  Reach-IsFit (pressed {ps} {m} {n} w k r e) =
      subst (Good root (chosen root w m.screen k m ps)) e
        (update-Good root ps shown edit w m (Reach-IsFit r) k)

  -- Whatever is pressed, and whatever the calls for profiles return: the cursor of the list is on a row and
  -- among the five that are shown; and if DATA_DIR was not set before and the key ends the screen
  -- with a start, then an entry was chosen, the node is called after the one that was chosen last,
  -- and LoadConfig finds the directory of that one, unless the default entry is among all those that
  -- were chosen, by that key or before it: then it finds ./data.
  pub Reach-Boots :
      {ps : List Text} {m : Welcome}
      → Reach ps m
      → InView m.cursor m.offset m.profiles
        × ((w : World) (k : Key) (n : Welcome)
            → update root shown edit w k m ≡ (n, leave)
            → n.action ≡ start
            → Boots root (chosen root w m.screen k m ps) n)
  Reach-Boots {ps} {m} r = (
    (Reach-IsFit r).1,
    λ w k n e.
        subst (Good root (chosen root w m.screen k m ps)) e
          (update-Good root ps shown edit w m (Reach-IsFit r) k),
  )
