-- ===== src/Tui/Dashboard.antt =====
-- internal/tui/dashboard/dashboard.go: the four tabs, and which of them a message reaches.
pub mod Timers
pub mod Typed
use edge_grid.Prelude.{
  ℕ, ◌+◌, Bool, true, false, not, ◌&&◌, Text, List, [], ◌∷◌, ◌++◌, Option, none, some, codes,
  if◌then◌else◌, ◌==◌, ◌^◌,
}
use edge_grid.Prelude.Int.{ℤ, pos, ltb_ℤ, add64, negsuc}
use edge_grid.Prelude.Results.{Result}
use edge_grid.Blob.{Manifest}
use edge_grid.Discovery.Members.{Peer}
use edge_grid.Task.{ResultResponse}
use edge_grid.Tui.Press.{Press, char, esc, is_tab, peers_key, tab}
use edge_grid.Tui.Tab.{Wiring, do_refresh}
use edge_grid.Tui.Peers.Session.{new_peers_model}
use edge_grid.Tui.History.{History, Reads, new_history_model}
use edge_grid.Tui.Tokens.{Tokens, MintedKey, new_tokens_model}

pub data TabName : Type 0 where
  overview_tab peers_tab history_tab tokens_tab : TabName

-- The messages; `other_msg` is any that no case of the program names.
pub data Msg : Type 0 where
  window : ℤ → ℤ → Msg
  stats_refresh peers_refresh transfer_tick history_refresh token_copied other_msg : Msg
  manifest_built : Text → Result Text Manifest → Msg
  blob_sent : Peer → ℤ → Option Text → Msg
  task_dispatched : Peer → Text → Text → Option Text → Msg
  task_result : Text → Result Text ResultResponse → Msg
  press : Press → Msg

-- The commands, each with the tab that gave it.
pub data Cmd : Type 0 where
  nothing tick_refresh tick_history : Cmd
  of_peers : edge_grid.Tui.Tab.Cmd → Cmd
  of_tokens : edge_grid.Tui.Tokens.Cmd → Cmd

-- overviewModel, without the texts that stay as they are; a float64 is the number of its bits.
pub record Overview : Type 0 where
  pub cpu : ℕ
  pub mem : ℕ

-- What the calls during one Update return: sysstat, the node's functions and the Tailscale API.
pub record Calls : Type 0 where
  pub sample : Overview
  pub peers : edge_grid.Tui.Tab.World
  pub history : Reads
  pub mint : Result Text MintedKey
  pub revoke : Option Text

-- Dashboard; `inner` is the size that resize gives each tab.
pub record Dashboard : Type 0 where
  pub has_tokens : Bool
  pub tab : TabName
  pub wiring : Wiring
  pub overview : Overview
  pub peers : edge_grid.Tui.Tab.Tab
  pub history : History
  pub tokens : Tokens
  pub width : ℤ
  pub height : ℤ
  pub inner : ℤ × ℤ

abbrev pub no_functions : Bool → Bool → Bool → Wiring
no_functions client send transfers = record {
  client = client;
  trust_list = false;
  trust_set = false;
  task_list = false;
  task_set = false;
  dispatch = false;
  await = false;
  send = send;
  transfers = transfers;
}

-- New, by whether tsClient, lc, send and transfers are not nil.
unfoldable pub new : Calls → Bool → Bool → Bool → Bool → Dashboard
new w has_tokens client send transfers = record {
  has_tokens = has_tokens;
  tab = overview_tab;
  wiring = no_functions client send transfers;
  overview = w.sample;
  peers = new_peers_model (no_functions client send transfers) w.peers;
  history = new_history_model false false;
  tokens = new_tokens_model;
  width = pos 0;
  height = pos 0;
  inner = (pos 0, pos 0);
}

-- WithTrust
unfoldable pub with_trust : Calls → Bool → Bool → Dashboard → Dashboard
with_trust w list set d =
    let g = record d.wiring { trust_list = list; trust_set = set } in
    record d { wiring = g; peers = do_refresh g w.peers d.peers }

-- WithTasks
unfoldable pub with_tasks : Calls → Bool → Bool → Bool → Bool → Dashboard → Dashboard
with_tasks w list set dispatch await d =
    let g = record d.wiring {
      task_list = list;
      task_set = set;
      dispatch = dispatch;
      await = await;
    } in
    record d { wiring = g; peers = do_refresh g w.peers d.peers }

-- WithHistory
unfoldable pub with_history : Calls → Bool → Bool → Dashboard → Dashboard
with_history w has_totals has_recent d = record d {
  history =
      edge_grid.Tui.History.refresh w.history
        (record d.history { has_totals = has_totals; has_recent = has_recent });
}

max_ℤ : ℤ → ℤ → ℤ
max_ℤ a b = if ltb_ℤ a b then b else a

-- resize, with chromeLines written out.
unfoldable pub resize : Dashboard → Dashboard
unfolding max_ℤ
resize d = record d { inner = (d.width, max_ℤ (add64 d.height (negsuc 2)) (pos 3)) }

is_peers : TabName → Bool
is_peers peers_tab = true
is_peers _ = false

-- CapturesTextInput
unfoldable pub captures_text_input : Dashboard → Bool
unfolding is_peers
captures_text_input d = is_peers d.tab && edge_grid.Tui.Tab.captures_text_input d.peers.mode

-- getTabNames
unfoldable pub get_tab_names : Dashboard → List Text
get_tab_names d =
    (codes "Overview" ∷ codes "Peers" ∷ codes "History" ∷ [])
    ++ (if d.has_tokens then codes "Tokens" ∷ [] else [])

unfoldable pub refresh_local : Calls → Dashboard → Dashboard
refresh_local w d = record d { overview = w.sample }

-- The switch of the key "tab".
unfoldable pub next_tab : Calls → TabName → Dashboard → Dashboard
next_tab w overview_tab d = record d { tab = peers_tab }
next_tab w peers_tab d = record d { tab = history_tab }
next_tab w history_tab d =
    if d.has_tokens
    then record d { tab = tokens_tab }
    else refresh_local w (record d { tab = overview_tab })
next_tab w tokens_tab d = refresh_local w (record d { tab = overview_tab })

-- The message, as the Tokens tab tells messages apart.
tokens_msg : Calls → Msg → edge_grid.Tui.Tokens.Msg
tokens_msg w token_copied = edge_grid.Tui.Tokens.Msg.token_copied
tokens_msg w (press esc) = edge_grid.Tui.Tokens.Msg.dismiss
tokens_msg w (press (char c)) =
    if c == 109  -- m
    then edge_grid.Tui.Tokens.Msg.mint w.mint
    else if c == 99  -- c
    then edge_grid.Tui.Tokens.Msg.copy
    else if c == 114  -- r
    then edge_grid.Tui.Tokens.Msg.revoke w.revoke
    else edge_grid.Tui.Tokens.Msg.other_key
tokens_msg w m = edge_grid.Tui.Tokens.Msg.other_key

-- `edit` is the text field's own Update, as in the Peers tab.
module _ (edit : ℕ → edge_grid.Tui.Tab.Key → Text → Text) where
  unfoldable pub to_peers : Calls → edge_grid.Tui.Tab.Msg → Dashboard → Dashboard × Cmd
  to_peers w m d =
      let (p, c) = edge_grid.Tui.Peers.update edit d.wiring w.peers m d.peers in
      (record d { peers = p }, of_peers c)

  to_tokens : Calls → Msg → Dashboard → Dashboard × Cmd
  unfolding tokens_msg
  to_tokens w m d =
      let (t, c) = edge_grid.Tui.Tokens.update (tokens_msg w m) d.tokens in
      (record d { tokens = t }, of_tokens c)

  -- On what is not a key, nor an answer to a task, the Peers tab does nothing.
  peers_shown : Calls → Msg → Dashboard → Dashboard × Cmd
  unfolding to_peers
  peers_shown w (press k) d = to_peers w (edge_grid.Tui.Tab.Msg.key (peers_key k)) d
  peers_shown w (task_dispatched p kind id e) d =
      to_peers w (edge_grid.Tui.Tab.Msg.task_dispatched p kind id e) d
  peers_shown w (task_result id r) d = to_peers w (edge_grid.Tui.Tab.Msg.task_result id r) d
  peers_shown w m d = (d, nothing)

  -- The last switch of Update. Its messages are those that the cases before it leave, on which the
  -- History tab and the Overview do nothing.
  to_shown : Calls → TabName → Msg → Dashboard → Dashboard × Cmd
  unfolding peers_shown to_tokens
  to_shown w overview_tab m d = (d, nothing)
  to_shown w peers_tab m d = peers_shown w m d
  to_shown w history_tab m d = (d, nothing)
  to_shown w tokens_tab m d = to_tokens w m d

  -- Dashboard.Update
  unfoldable pub update : Calls → Msg → Dashboard → Dashboard × Cmd
  unfolding to_peers to_shown is_tab
  update w (window width height) d = (resize (record d { width = width; height = height }), nothing)
  update w (press k) d =
      if is_tab k && not (captures_text_input d)
      then (next_tab w d.tab d, nothing)
      else to_shown w d.tab (press k) d
  update w stats_refresh d = (refresh_local w d, tick_refresh)
  update w peers_refresh d = to_peers w edge_grid.Tui.Tab.Msg.refresh d
  update w transfer_tick d = to_peers w edge_grid.Tui.Tab.Msg.transfer_tick d
  update w (manifest_built path r) d = to_peers w (edge_grid.Tui.Tab.Msg.manifest_built path r) d
  update w (blob_sent p size e) d = to_peers w (edge_grid.Tui.Tab.Msg.blob_sent p size e) d
  update w history_refresh d =
      (record d { history = edge_grid.Tui.History.refresh w.history d.history }, tick_history)
  update w m d = to_shown w d.tab m d
