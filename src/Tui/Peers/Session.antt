-- ===== src/Tui/Peers/Session.antt =====
-- The Peers tab in the event loop: keys and refreshes at any time, and the answers to its commands.
use edge_grid.Prelude.{
  ℕ, ◌≡◌, refl, sym, subst, Bool, true, false, not, ◌||◌, Text, [], ◌∷◌, inl, inr, Option, none,
  some, if_intro,
}
use edge_grid.Prelude.Int.{ℤ, pos}
use edge_grid.Prelude.Results.{Result, ok, err}
use edge_grid.Blob.{Manifest}
use edge_grid.Discovery.Members.{Peer}
use edge_grid.Task.{ResultResponse}
use edge_grid.Task.Outcome.{response_err}
use edge_grid.Tui.Tab.{
  PeersMode, Key, Tab, Cmd, Wiring, World, cancel_flow, start_wait, do_refresh, is_building,
  is_dispatching, peer_label, refresh, transfer_tick, blob_sent, task_dispatched, task_result,
  manifest_built, key,
}
use edge_grid.Tui.Peers.{update, on_sent, on_verdict, on_result, on_answer, on_built}
use edge_grid.Tui.Peers.Flow.{
  Built, Transfers, Waits-started, ModeFacts, IsConsistent, add_send, Good,
  cancel_flow-IsConsistent,
}
use edge_grid.Tui.Peers.Keys.{facts}

-- The tab, the transfers that run, and the manifests that were built so far.
pub record Session : Type 0 where
  pub tab : Tab
  pub transfers : Transfers
  pub built : Built

abbrev pub log : Text → Result Text Manifest → Built → Built
log path (ok mf) b = (path, mf) ∷ b
log path (err e) b = b

abbrev pub after : Tab × Cmd → Transfers → Built → Session
after (t, c) n b = record { tab = t; transfers = add_send c n; built = b }

abbrev pub no_peer : Peer
no_peer = record {
  id = [];
  hostname = [];
  dns_name = [];
  ip = [];
  online = false;
  last_seen = pos 0;
  cur_addr = [];
  relay = [];
  peer_relay = [];
}

abbrev pub blank : Tab
blank = record {
  peers = [];
  snapshot_error = none;
  mode = PeersMode.browsing;
  cursor = 0;
  target = no_peer;
  input = record { value = []; focused = false; limit = 0 };
  path = [];
  manifest = none;
  flow_error = none;
  trusted = [];
  task_trust = [];
  kind = [];
  task_id = [];
  stop_task = none;
  note = none;
  contexts = 0;
  cancelled = [];
  active = [];
}

-- newPeersModel, which reads the peers before the trust functions are there.
unfoldable pub new_peers_model : Wiring → World → Tab
new_peers_model g w = do_refresh (record g { trust_list = false; task_list = false }) w blank

module _ (edit : ℕ → Key → Text → Text) (g : Wiring) where
  -- What the event loop can do. The answer of a transfer comes only for one that runs; the answers to
  -- an offer, a wait or a hash may be late, or of another flow, and so are any.
  pub data Step (s : Session) : Session → Type 0 where
    presses :
        (w : World) (k : Key) → Step s (after (update edit g w (key k) s.tab) s.transfers s.built)
    refreshes : (w : World) → Step s (after (update edit g w refresh s.tab) s.transfers s.built)
    polls : (w : World) → Step s (after (update edit g w transfer_tick s.tab) s.transfers s.built)
    decides :
        (w : World) (p : Peer) (kind id : Text) (e : Option Text)
        → Step s (after (update edit g w (task_dispatched p kind id e) s.tab) s.transfers s.built)
    answers :
        (w : World) (id : Text) (r : Result Text ResultResponse)
        → Step s (after (update edit g w (task_result id r) s.tab) s.transfers s.built)
    hashes :
        (w : World) (path : Text) (r : Result Text Manifest)
        → Step s
            (after (update edit g w (manifest_built path r) s.tab) s.transfers (log path r s.built))
    sends :
        (w : World) (p : Peer) (size : ℤ) (e : Option Text) (x : Peer × Text × Manifest)
        (rest : Transfers)
        → s.transfers ≡ x ∷ rest
        → Step s (after (update edit g w (blob_sent p size e) s.tab) rest s.built)

  pub data Reach : Session → Type 0 where
    opened : (w : World) → Reach (record { tab = new_peers_model g w; transfers = []; built = [] })
    next : {s t : Session} → Reach s → Step s t → Reach t

pub dispatching_is : (x : PeersMode) → is_dispatching x ≡ true → x ≡ PeersMode.dispatching
unfolding is_dispatching
dispatching_is PeersMode.dispatching h = refl
dispatching_is PeersMode.browsing h = cc
dispatching_is PeersMode.pick_file h = cc
dispatching_is PeersMode.building h = cc
dispatching_is PeersMode.ready h = cc
dispatching_is PeersMode.sending h = cc
dispatching_is PeersMode.pick_kind h = cc

pub building_is : (x : PeersMode) → is_building x ≡ true → x ≡ PeersMode.building
unfolding is_building
building_is PeersMode.building h = refl
building_is PeersMode.browsing h = cc
building_is PeersMode.pick_file h = cc
building_is PeersMode.dispatching h = cc
building_is PeersMode.ready h = cc
building_is PeersMode.sending h = cc
building_is PeersMode.pick_kind h = cc

pub neither : (a b : Bool) → (not a || not b) ≡ false → (a ≡ true) × (b ≡ true)
neither true true h = (refl, refl)
neither true false h = cc
neither false b h = cc

-- A transfer runs only in the step of sending, and alone.
sending_only :
    (x : PeersMode) (p : Peer) (mf : Option Manifest) (path : Text) (stop : Option ℕ)
    (focused : Bool) (y : Peer × Text × Manifest) (rest : Transfers) (b : Built)
    → ModeFacts x p mf path stop focused (y ∷ rest) b
    → (stop ≡ none) × (rest ≡ [])
sending_only PeersMode.sending p mf path stop focused y rest b (s, (m, e, _)) = (s, cc e)
sending_only PeersMode.browsing p mf path stop focused y rest b (s, e) = absurd cc
sending_only PeersMode.pick_file p mf path stop focused y rest b (s, e, _) = absurd cc
sending_only PeersMode.building p mf path stop focused y rest b (s, e) = absurd cc
sending_only PeersMode.ready p mf path stop focused y rest b (s, e, _) = absurd cc
sending_only PeersMode.pick_kind p mf path stop focused y rest b (s, e, _) = absurd cc
sending_only PeersMode.dispatching p mf path stop focused y rest b (e, _) = absurd cc

-- What was built stays built.
facts_grow :
    (x : PeersMode) (p : Peer) (mf : Option Manifest) (path : Text) (stop : Option ℕ)
    (focused : Bool) (n : Transfers) (b : Built) (y : Text × Manifest)
    → ModeFacts x p mf path stop focused n b
    → ModeFacts x p mf path stop focused n (y ∷ b)
facts_grow PeersMode.sending p mf path stop focused n b y (s, (m, e, old)) = (s, (m, e, inr old))
facts_grow PeersMode.ready p mf path stop focused n b y (s, e, (m, shown, old)) =
    (s, e, (m, shown, inr old))
facts_grow PeersMode.browsing p mf path stop focused n b y f = f
facts_grow PeersMode.pick_file p mf path stop focused n b y f = f
facts_grow PeersMode.building p mf path stop focused n b y f = f
facts_grow PeersMode.pick_kind p mf path stop focused n b y f = f
facts_grow PeersMode.dispatching p mf path stop focused n b y f = f

module _ (m : Tab) (n : Transfers) (b : Built) (c : IsConsistent m n b) where
  pub logged : (path : Text) (r : Result Text Manifest) → IsConsistent m n (log path r b)
  logged path (ok mf) = (facts_grow m.mode m.target m.manifest m.path m.stop_task _ n b _ c.0, c.1)
  logged path (err e) = c

  pub sent-IsConsistent :
      (p : Peer) (size : ℤ) (e : Option Text) (y : Peer × Text × Manifest) (rest : Transfers)
      → n ≡ y ∷ rest
      → IsConsistent (on_sent p size e m) rest b
  unfolding on_sent
  sent-IsConsistent p size none y rest h =
      (sending_only m.mode m.target m.manifest m.path m.stop_task _ y rest b (rw h at c.0), c.1)
  sent-IsConsistent p size (some e) y rest h =
      (sending_only m.mode m.target m.manifest m.path m.stop_task _ y rest b (rw h at c.0), c.1)

  module _ (waiting : m.mode ≡ PeersMode.dispatching) where
    pub verdict-Good :
        (g : Wiring) (p : Peer) (kind id : Text) (e : Option Text)
        → Good n b (on_verdict g p kind id e m)
    unfolding on_verdict start_wait
    verdict-Good g p kind id (some e) =
        cancel_flow-IsConsistent m n b c (facts m n b PeersMode.dispatching c waiting).0
    verdict-Good g p kind id none =
        let (quiet, stop) = facts m n b PeersMode.dispatching c waiting in
        if_intro (Good n b) (not g.await) _ _ (cancel_flow-IsConsistent m n b c quiet) (
          subst
              (λ (x : PeersMode).
                ModeFacts x m.target m.manifest m.path (some m.contexts) m.input.focused n b)
              (sym waiting) (quiet, (m.contexts, refl)),
          Waits-started m.stop_task m.contexts m.cancelled c.1,
        )

    pub result-IsConsistent : (r : Result Text ResultResponse) → IsConsistent (on_result r m) n b
    unfolding on_result
    result-IsConsistent (err e) =
        cancel_flow-IsConsistent m n b c (facts m n b PeersMode.dispatching c waiting).0
    result-IsConsistent (ok r) = answer_kept (response_err r)
      where
        answer_kept :
            (o : Option Text)
            → IsConsistent (on_answer (peer_label m.target) m.kind r.output o (cancel_flow m)) n b
        answer_kept none =
            cancel_flow-IsConsistent m n b c (facts m n b PeersMode.dispatching c waiting).0
        answer_kept (some e) =
            cancel_flow-IsConsistent m n b c (facts m n b PeersMode.dispatching c waiting).0

  pub built-IsConsistent :
      (path : Text) (r : Result Text Manifest)
      → m.mode ≡ PeersMode.building
      → path ≡ m.path
      → IsConsistent (on_built r m) n (log path r b)
  unfolding on_built
  built-IsConsistent path (ok mf) e same =
      let (s, h) = facts m n b PeersMode.building c e in ((s, h, (mf, refl, inl (same, refl))), c.1)
  built-IsConsistent path (err x) e same =
      let (s, h) = facts m n b PeersMode.building c e in ((s, h, refl), c.1)
