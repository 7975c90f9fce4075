-- ===== src/Examples/Tabs.antt =====
-- The state machines of a node: its list of transfers, the Peers tab and the tokens.
use edge_grid.Prelude.{
  ℕ, ◌+◌, ◌*◌, ◌≤◌, ◌<◌, ◌^◌, ◌≡◌, refl, true, false, Text, [], ◌∷◌, ◌++◌, some, none, codes,
  length, arith,
}
use edge_grid.Prelude.Int.{pos}
use edge_grid.Prelude.Path.{any}
use edge_grid.Prelude.Results.{ok}
use edge_grid.Blob.SafeName.{safe_name, max_name_len}
use edge_grid.Blob.SafeName.Safety.{is_unsafe, starts_with_dot, safe_name-safe}
use edge_grid.Node.Sizes.{scale}
use edge_grid.Node.Sizes.Scaled.{scale_bounds}
use edge_grid.Node.Transfers.{chunks_done, inbound, outbound}
use edge_grid.Node.Transfers.Steps
use edge_grid.Node.Transfers.Steps.{Machine, IsConsistent, starts, works, reports, ends, here}
use edge_grid.Node.Transfers.Listing.{Reach-IsConsistent}
use edge_grid.Node.Transfers.Drained.{Works, Reach-drains}
use edge_grid.Discovery.Members.{Peer}
use edge_grid.Tui.Tab.{Wiring, World, Key, key, char, enter}
use edge_grid.Tui.Peers.{update}
use edge_grid.Tui.Peers.Session as Events
use edge_grid.Tui.Peers.Session.{Session, after, opened, presses, new_peers_model, Reach}
use edge_grid.Tui.Peers.Reached.{SessionIsConsistent, Reach-SessionIsConsistent}
use edge_grid.Tui.Cmdbar
use edge_grid.Tui.Cmdbar.{Bar, activate, new, typed}
use edge_grid.Tui.Tokens.{shown, revoke, dismiss, copy, live, new_tokens_model}
use edge_grid.Tui.Tokens
use edge_grid.Tui.Tokens.Shown.{update_all, update_all-hides}

safe_name-safe_example :
    (any is_unsafe (safe_name (codes "../../x:y")) ≡ false)
    × (length (safe_name (codes "../../x:y")) ≤ max_name_len)
    × (starts_with_dot (safe_name (codes "../../x:y")) ≡ false)
safe_name-safe_example = safe_name-safe (codes "../../x:y")

scale_bounds_example :
    ((scale 5_000_000).1 ≤ 5)
    × ((scale 5_000_000).0 ≡ 1024 ^ ((scale 5_000_000).1 + 1))
    × ((scale 5_000_000).0 ≤ 5_000_000)
    × (5_000_000 < 1024 * (scale 5_000_000).0)
scale_bounds_example = scale_bounds 5_000_000 (omega arith) (omega arith)

-- Two transfers; the first has reported a chunk and its finish has stored an error.
abbrev reached : (m : Machine) × Steps.Reach m
unfolding Steps.moved edge_grid.Node.Transfers.start
reached = (
  _,
  Steps.next
      (Steps.next
        (Steps.next (Steps.next here (starts inbound (codes "alpha")))
          (starts outbound (codes "beta")))
        (works (reports 1 (chunks_done 1) refl)))
      (works (ends 1 (some (codes "stalled")) refl)),
)

Reach-IsConsistent_example : IsConsistent reached.0
Reach-IsConsistent_example = Reach-IsConsistent reached.1

Reach-drains_example : (n : Machine) × Works reached.0 n × (n.registry.items ≡ [])
Reach-drains_example = Reach-drains reached.1

abbrev wired : Wiring
wired = record {
  client = true;
  trust_list = true;
  trust_set = true;
  task_list = true;
  task_set = true;
  dispatch = true;
  await = true;
  send = true;
  transfers = true;
}

abbrev pub beta : Peer
beta = record {
  id = codes "nBeta";
  hostname = codes "beta";
  dns_name = codes "beta.ts.net.";
  ip = codes "100.64.0.2";
  online = true;
  last_seen = pos 0;
  cur_addr = [];
  relay = [];
  peer_relay = [];
}

abbrev pub around : World
around = record {
  trusted = [];
  task_trusted = [];
  snapshot = ok (beta ∷ []);
  set_error = none;
  home = some (codes "/home/u");
  active = [];
}

-- A key types its character.
abbrev pub typing : ℕ → Key → Text → Text
typing limit (char c) s = s ++ (c ∷ [])
typing limit k s = s

-- A task is offered to the peer.
abbrev offering : Session
offering = press enter (
    press (char b'b') (
      press (char b'x')
        (record { tab = new_peers_model wired around; transfers = []; built = [] })))
  where
    press : Key → Session → Session
    press k s = after (update typing wired around (key k) s.tab) s.transfers s.built

offering_reached : Reach typing wired offering
offering_reached =
    Events.next
      (Events.next (Events.next (opened around) (presses around (char b'x')))
        (presses around (char b'b')))
      (presses around enter)

Reach-SessionIsConsistent_example : SessionIsConsistent typing wired offering
Reach-SessionIsConsistent_example = Reach-SessionIsConsistent typing wired offering_reached

abbrev pub append_key : Cmdbar.Key → Text → Text
append_key (typed c) s = s ++ (c ∷ [])
append_key k s = s

minted : Tokens.MintedKey
minted = record { id = codes "k1"; key = codes "tskey-auth-1" }

update_all-hides_example :
    shown (
      update_all
        (copy ∷ revoke (some (codes "offline")) ∷ dismiss ∷ [])
        (record (new_tokens_model) { just_minted = some minted; hidden = true }))
    ≡ none
update_all-hides_example =
    update_all-hides (copy ∷ revoke (some (codes "offline")) ∷ dismiss ∷ [])
      (record (new_tokens_model) { just_minted = some minted; hidden = true })
      (refl, (refl, (refl, tt))) (unfold shown live new_tokens_model in refl)
