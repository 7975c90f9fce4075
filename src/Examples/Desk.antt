-- ===== src/Examples/Desk.antt =====
-- The interface as a whole: the dashboard under the logs and the command line, the totals it shows, and
-- what its node is started with.
use edge_grid.Prelude.{
  ◌⊎◌, ◌≡◌, ◌≢◌, refl, Bool, true, false, not, ◌||◌, Text, [], ◌∷◌, some, none, codes, text_eq,
  is_empty,
}
use edge_grid.Prelude.Int.{ℤ, pos}
use edge_grid.Prelude.Results.{ok, err}
use edge_grid.Db.Transfers.{
  Rows, outbound, inbound, failed, in_progress, record_start, reconcile_stale_transfers,
  record_finish,
}
use edge_grid.Db.Transfers.Totals.{totals, totals-confirmed}
use edge_grid.Tui.Press.{Press}
use edge_grid.Node.Config.{Config, Machine, load_config_once, default_hostname}
use edge_grid.Node.Config.Started.{Found, dashboard, load_config_once-env, default_hostname-stays}
use edge_grid.Tui.Fields.{Files, succeeds}
use edge_grid.Tui.Tab.{pick_file, sending}
use edge_grid.Tui.Peers.Session.{blank}
use edge_grid.Tui.Dashboard.{Calls, Dashboard, peers_tab, peers_refresh, blob_sent, press}
use edge_grid.Tui.Dashboard.Timers.{Timer}
use edge_grid.Tui.App.{App, Msg, Env, Fields, update}
use edge_grid.Tui.App.Timers.Polls.{
  Loop, Arrivals, launch, run, deliver, found_uncovered, run-pending, CanArrive,
}
use edge_grid.Tui.App.Timers.{covered}
use edge_grid.Tui.App.Typing.{on_peers, update-typing}
use edge_grid.Tui.App.Sending.{run-sending, AllMissed}
use edge_grid.Tui.App.Quit.{Ends, update-Ends}
use edge_grid.Examples.Tabs.{around, beta, typing, append_key}

abbrev calls : Calls
calls = record {
  sample = record { cpu = 0; mem = 0 };
  peers = around;
  history = record { totals = err []; recent = λ n. ok [] };
  mint = err [];
  revoke = none;
}

abbrev machine : Env
machine = record { calls = calls; use_profile = λ name. text_eq name (codes "work") }

abbrev fields : Fields
fields = record { edit = typing; lower = λ s. s; edit_bar = append_key }

abbrev desk : App
desk = edge_grid.Tui.App.new (
    edge_grid.Tui.Dashboard.with_history calls true true
      (edge_grid.Tui.Dashboard.new calls true true true true))

abbrev slash : Msg
slash = Msg.of_dashboard (press (Press.char b'/'))

-- The command line is opened, and the timer of the Peers tab comes.
abbrev covered_poll : Arrivals
covered_poll = (machine, slash) ∷ (machine, Msg.of_dashboard peers_refresh) ∷ []

or_true : (b : Bool) → b || true ≡ true
or_true true = refl
or_true false = refl

run-pending_example :
    (run fields covered_poll (launch desk)).pending Timer.peers
    ≡ found_uncovered fields Timer.peers covered_poll (launch desk)
run-pending_example =
    run-pending fields Timer.peers desk covered_poll
      (unfold CanArrive deliver in (λ t h. refl, (λ t h. or_true _, tt)))

-- A path is being typed.
abbrev picking : App
picking = record desk {
  dashboard = record desk.dashboard {
    tab = peers_tab;
    peers = record blank {
      mode = pick_file;
      input = record { value = []; focused = true; limit = 512 };
    };
  };
}

update-typing_example :
    update fields machine (Msg.of_dashboard (press (Press.char b'q'))) picking
    ≡ on_peers fields machine (Press.char b'q') picking
update-typing_example =
    update-typing fields machine (Press.char b'q') picking
      (unfold edge_grid.Tui.App.new edge_grid.Tui.Cmdbar.new in refl)
      (unfold edge_grid.Tui.Dashboard.captures_text_input edge_grid.Tui.Tab.captures_text_input in
        refl)
      (λ e. absurd cc)

-- The logs are shown while a transfer runs.
abbrev hidden_send : Loop
hidden_send = launch (record desk {
  show_logs = true;
  dashboard = record desk.dashboard { peers = record blank { mode = sending; target = beta } };
})

abbrev sent_unseen : Arrivals
sent_unseen = (machine, Msg.of_dashboard (blob_sent beta (pos 5) none)) ∷ (machine, slash) ∷ []

run-sending_example :
    ((run fields sent_unseen hidden_send).app.dashboard.peers.mode ≡ sending)
    × ((e : Env) (p : edge_grid.Discovery.Members.Peer) (n : ℤ) (x : edge_grid.Prelude.Option Text)
        → covered (run fields sent_unseen hidden_send).app ≡ false
        → (deliver fields e
            (Msg.of_dashboard (blob_sent p n x))
            (run fields sent_unseen hidden_send)).app.dashboard.peers.mode
          ≡ edge_grid.Tui.Tab.browsing)
run-sending_example =
    run-sending fields hidden_send sent_unseen refl (unfold AllMissed in (refl, (tt, tt)))

update-Ends_example :
    Ends machine
      (Msg.submit (codes "/profile work"))
      desk
      (update fields machine (Msg.submit (codes "/profile work")) desk)
update-Ends_example = update-Ends fields machine (Msg.submit (codes "/profile work")) desk

abbrev rows : Rows
rows =
    record {
      id = 1;
      direction = outbound;
      peer_id = codes "nBeta";
      peer_hostname = codes "beta";
      file_name = codes "a.txt";
      file_size = pos 10;
      sha256 = [];
      status = in_progress;
      error = none;
      started_at = pos 100;
      finished_at = none;
    }
    ∷ []

totals-confirmed_example :
    (totals false (record_start false (pos 200) inbound [] [] [] (pos 3) rows).1
      ≡ totals false rows)
    × (totals false (reconcile_stale_transfers false (pos 200) rows).1 ≡ totals false rows)
    × (totals false (record_finish false (pos 200) 1 failed [] [] rows).1 ≡ totals false rows)
totals-confirmed_example =
    totals-confirmed false false (pos 200) rows inbound [] [] [] (pos 3) 1 failed [] []
      (unfold edge_grid.Db.Transfers.is_done in refl)
      (λ h. unfold edge_grid.Db.Transfers.is_done in refl, tt)

-- A machine with a profile in use, and nothing in the environment.
abbrev laptop : Machine
laptop = record {
  active = codes "work";
  root = some (codes "/home/u/.edgegrid");
  env = λ name. [];
  hostname = codes "laptop";
  random = some (codes "9f3c");
  save = succeeds;
  files = λ dir name. none;
}

load_config_once-env_example :
    (c : Config) × (d : Files) × (load_config_once laptop
        (codes "dashboard" ∷ codes "--data-dir" ∷ codes "/srv" ∷ [])
      ≡ ok (c, d))
    × Found [] (some (codes "/home/u/.edgegrid")) (codes "work") c
    × (c.tailscale_auth_key ≡ [])
    × ((Machine.env laptop (codes "TS_HOSTNAME") ≡ []) ⊎ (c.tailscale_hostname ≡ []))
load_config_once-env_example =
    load_config_once-env laptop (codes "dashboard") (codes "--data-dir" ∷ codes "/srv" ∷ [])
      dashboard

-- The next start draws another suffix.
abbrev restarted : Machine
restarted = record laptop { random = some (codes "0000") }

default_hostname-stays_example :
    default_hostname restarted (default_hostname laptop (λ name. none)).1
    ≡ default_hostname laptop (λ name. none)
default_hostname-stays_example =
    default_hostname-stays laptop restarted (λ name. none) (codes "9f3c") refl
      (unfold is_empty in refl) refl refl (unfold edge_grid.Tui.Fields.load_token in refl)
