-- ===== src/Tui/Press.antt =====
-- The keys of bubbletea, and what each part of the interface calls them.
use edge_grid.Prelude.{ℕ, ◌+◌, ◌^◌, Bool, true, false, ◌==◌}

-- A key press, as the event loop delivers it.
pub data Press : Type 0 where
  esc enter up down tab shift_tab backspace ctrl_c ctrl_u : Press
  char : ℕ → Press
  other : ℕ → Press

-- A number for what a text field may take: a character, or a key that is none.
unfoldable pub code : Press → ℕ
code (char c) = c
code esc = 2 ^ 21
code enter = 2 ^ 21 + 1
code up = 2 ^ 21 + 2
code down = 2 ^ 21 + 3
code tab = 2 ^ 21 + 4
code shift_tab = 2 ^ 21 + 5
code backspace = 2 ^ 21 + 6
code ctrl_c = 2 ^ 21 + 7
code ctrl_u = 2 ^ 21 + 8
code (other n) = 2 ^ 21 + 9 + n

unfoldable pub is_tab : Press → Bool
is_tab tab = true
is_tab _ = false

-- The key, as the Peers tab tells keys apart.
unfoldable pub peers_key : Press → edge_grid.Tui.Tab.Key
peers_key esc = edge_grid.Tui.Tab.Key.esc
peers_key enter = edge_grid.Tui.Tab.Key.enter
peers_key up = edge_grid.Tui.Tab.Key.up
peers_key down = edge_grid.Tui.Tab.Key.down
peers_key ctrl_u = edge_grid.Tui.Tab.Key.ctrl_u
peers_key (char c) = edge_grid.Tui.Tab.Key.char c
peers_key k = edge_grid.Tui.Tab.Key.other_key (code k)

unfoldable pub is_esc : Press → Bool
is_esc esc = true
is_esc _ = false

unfoldable pub is_ctrl_c : Press → Bool
is_ctrl_c ctrl_c = true
is_ctrl_c _ = false

unfoldable pub is_char : ℕ → Press → Bool
is_char n (char c) = c == n
is_char n _ = false

-- The key, as the command line tells keys apart.
unfoldable pub bar_key : Press → edge_grid.Tui.Cmdbar.Key
bar_key esc = edge_grid.Tui.Cmdbar.Key.esc
bar_key enter = edge_grid.Tui.Cmdbar.Key.enter
bar_key up = edge_grid.Tui.Cmdbar.Key.up
bar_key down = edge_grid.Tui.Cmdbar.Key.down
bar_key tab = edge_grid.Tui.Cmdbar.Key.tab
bar_key shift_tab = edge_grid.Tui.Cmdbar.Key.shift_tab
bar_key backspace = edge_grid.Tui.Cmdbar.Key.backspace
bar_key k = edge_grid.Tui.Cmdbar.Key.typed (code k)
