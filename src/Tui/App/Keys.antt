-- ===== src/Tui/App/Keys.antt =====
-- What is known of a message that is a key.
use edge_grid.Prelude.{ℕ, ◌≡◌, refl, ap, true, some, ==_iff}
use edge_grid.Tui.Press.{Press, is_char, is_ctrl_c}
use edge_grid.Tui.Dashboard.{
  press, window, stats_refresh, peers_refresh, transfer_tick, history_refresh, token_copied,
  other_msg, manifest_built, blob_sent, task_dispatched, task_result,
}
use edge_grid.Tui.App.{Msg, key_of}

pub key_of-press : (m : Msg) (k : Press) → key_of m ≡ some k → m ≡ Msg.of_dashboard (press k)
unfolding key_of
key_of-press Msg.stats_tick k h = absurd cc
key_of-press Msg.close_logs k h = absurd cc
key_of-press (Msg.submit c) k h = absurd cc
key_of-press (Msg.of_dashboard (press j)) k h =
    let same : j ≡ k = cc h in ap (λ (x : Press). Msg.of_dashboard (press x)) same
key_of-press (Msg.of_dashboard stats_refresh) k h = absurd cc
key_of-press (Msg.of_dashboard peers_refresh) k h = absurd cc
key_of-press (Msg.of_dashboard transfer_tick) k h = absurd cc
key_of-press (Msg.of_dashboard history_refresh) k h = absurd cc
key_of-press (Msg.of_dashboard token_copied) k h = absurd cc
key_of-press (Msg.of_dashboard other_msg) k h = absurd cc
key_of-press (Msg.of_dashboard (window x y)) k h = absurd cc
key_of-press (Msg.of_dashboard (manifest_built x y)) k h = absurd cc
key_of-press (Msg.of_dashboard (blob_sent x y z)) k h = absurd cc
key_of-press (Msg.of_dashboard (task_dispatched x y z v)) k h = absurd cc
key_of-press (Msg.of_dashboard (task_result x y)) k h = absurd cc

pub is_char-eq : (n : ℕ) (k : Press) → is_char n k ≡ true → k ≡ Press.char n
unfolding is_char
is_char-eq n (Press.char c) h = ap Press.char ((==_iff c n).0 h)
is_char-eq n Press.esc h = absurd cc
is_char-eq n Press.enter h = absurd cc
is_char-eq n Press.up h = absurd cc
is_char-eq n Press.down h = absurd cc
is_char-eq n Press.tab h = absurd cc
is_char-eq n Press.shift_tab h = absurd cc
is_char-eq n Press.backspace h = absurd cc
is_char-eq n Press.ctrl_c h = absurd cc
is_char-eq n Press.ctrl_u h = absurd cc
is_char-eq n (Press.other i) h = absurd cc

pub is_ctrl_c-eq : (k : Press) → is_ctrl_c k ≡ true → k ≡ Press.ctrl_c
unfolding is_ctrl_c
is_ctrl_c-eq Press.ctrl_c h = refl
is_ctrl_c-eq (Press.char c) h = absurd cc
is_ctrl_c-eq Press.esc h = absurd cc
is_ctrl_c-eq Press.enter h = absurd cc
is_ctrl_c-eq Press.up h = absurd cc
is_ctrl_c-eq Press.down h = absurd cc
is_ctrl_c-eq Press.tab h = absurd cc
is_ctrl_c-eq Press.shift_tab h = absurd cc
is_ctrl_c-eq Press.backspace h = absurd cc
is_ctrl_c-eq Press.ctrl_u h = absurd cc
is_ctrl_c-eq (Press.other i) h = absurd cc
