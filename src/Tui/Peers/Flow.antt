-- ===== src/Tui/Peers/Flow.antt =====
-- The flows of the Peers tab under every sequence of messages that the event loop can deliver.
use edge_grid.Prelude.{
  ℕ, suc, ◌+◌, ◌≤◌, ◌<◌, ◌≡◌, refl, sym, ap, Bool, true, false, not, ◌||◌, Text, List, [], ◌∷◌, ◌⊎◌,
  inl, inr, Option, none, some, length, get_elem?, ltb, ◌==◌, if_intro, Bool-cases, arith, ==_iff,
}
use edge_grid.Blob.{Manifest}
use edge_grid.Discovery.Members.{Peer}
use edge_grid.Tui.Tab.{
  PeersMode, browsing, pick_file, building, ready, sending, pick_kind, dispatching, Key, Tab, Cmd,
  Wiring, World, nothing, tick_peers, tick_transfers, cancel_flow, ended, decision, decisions_allow,
  send_blob, build_manifest, dispatch_task, await_result, set_trust, set_task_trust,
}
use edge_grid.Tui.Browsing.{
  after_trust, after_task_trust, toggle_trust, toggle_task_trust, fail, begin_task, begin_send,
  move_up, move_down, update_browsing,
}

-- A hash that was asked for and built: the path, and its manifest.
abbrev pub Built : Type 0
Built = List (Text × Manifest)

-- The transfers that run: the peer, the path and the manifest of each.
abbrev pub Transfers : Type 0
Transfers = List (Peer × Text × Manifest)

-- The context c was cancelled.
unfoldable pub is_cancelled : ℕ → List ℕ → Bool
is_cancelled c [] = false
is_cancelled c (d ∷ ds) = d == c || is_cancelled c ds

abbrev pub WasBuilt : Text → Manifest → Built → Type 0
WasBuilt p m [] = ⊥
WasBuilt p m ((q, n) ∷ bs) = ((q ≡ p) × (n ≡ m)) ⊎ WasBuilt p m bs

-- Every context that was made is cancelled, but for the one that `stop_task` holds, which is the newest
-- and is not.
abbrev pub Waits : Option ℕ → ℕ → List ℕ → Type 0
Waits stop k cs =
    ((c : ℕ) → c < k → (is_cancelled c cs ≡ true) ⊎ (stop ≡ some c))
    × ((c : ℕ) → stop ≡ some c → (suc c ≡ k) × (is_cancelled c cs ≡ false))
    × ((c : ℕ) → k ≤ c → is_cancelled c cs ≡ false)

Waits-ended :
    (stop : Option ℕ) (k : ℕ) (cs : List ℕ) → Waits stop k cs → Waits none k (ended stop cs)
unfolding ended is_cancelled
Waits-ended none k cs w = w
Waits-ended (some d) k cs (all, live, fresh) = (
  λ c h. elim (all c h) [ inl e ↦ inl (ground (arith, e)) | inr e ↦ inl (ground (arith, e)) ],
  λ c e. absurd cc,
  λ c h. ground (arith, (live d refl).0, fresh c h),
)

pub Waits-started :
    (stop : Option ℕ) (k : ℕ) (cs : List ℕ)
    → Waits stop k cs
    → Waits (some k) (suc k) (ended stop cs)
Waits-started stop k cs w =
    let (all, live, fresh) = Waits-ended stop k cs w in
    (
      λ c h. elim (Bool-cases (c == k)) [
        | inl e ↦ inr (ap some (sym ((==_iff c k).0 e)))
        | inr e ↦ elim (all c (ground (arith, e))) [ inl x ↦ inl x | inr x ↦ absurd cc ]
      ],
      λ c e. let same : k ≡ c = cc e in (ap suc (sym same), fresh c (omega arith)),
      λ c h. fresh c (omega arith),
    )

-- What each step of a flow has: the text field takes keys where one is shown, a manifest that is
-- shown or sent was built for the path that is shown, a wait has a context to end it, and a transfer
-- runs in the step of sending, and only there.
abbrev pub ModeFacts :
    PeersMode → Peer → Option Manifest → Text → Option ℕ → Bool → Transfers → Built → Type 0
ModeFacts browsing p mf path stop focused n b = (stop ≡ none) × (n ≡ [])
ModeFacts pick_file p mf path stop focused n b = (stop ≡ none) × (n ≡ []) × (focused ≡ true)
ModeFacts building p mf path stop focused n b = (stop ≡ none) × (n ≡ [])
ModeFacts ready p mf path stop focused n b =
    (stop ≡ none) × (n ≡ []) × ((m : Manifest) × (mf ≡ some m) × WasBuilt path m b)
ModeFacts sending p mf path stop focused n b =
    (stop ≡ none) × ((m : Manifest) × (n ≡ (p, path, m) ∷ []) × WasBuilt path m b)
ModeFacts pick_kind p mf path stop focused n b = (stop ≡ none) × (n ≡ []) × (focused ≡ true)
ModeFacts dispatching p mf path stop focused n b = (n ≡ []) × ((c : ℕ) × (stop ≡ some c))

abbrev pub IsConsistent : Tab → Transfers → Built → Type 0
IsConsistent t n b =
    ModeFacts t.mode t.target t.manifest t.path t.stop_task t.input.focused n b
    × Waits t.stop_task t.contexts t.cancelled

-- The transfers that run after a command.
abbrev pub add_send : Cmd → Transfers → Transfers
add_send (send_blob p path mf) n = (p, path, mf) ∷ n
add_send nothing n = n
add_send tick_peers n = n
add_send tick_transfers n = n
add_send (build_manifest path) n = n
add_send (dispatch_task c p kind) n = n
add_send (await_result c p id) n = n
add_send (set_trust id host allow) n = n
add_send (set_task_trust id host allow) n = n

abbrev pub Good : Transfers → Built → Tab × Cmd → Type 0
Good n b (t, c) = IsConsistent t (add_send c n) b

module _ (m : Tab) (n : Transfers) (b : Built) (c : IsConsistent m n b) where
  pub cancel_flow-IsConsistent : n ≡ [] → IsConsistent (cancel_flow m) n b
  unfolding cancel_flow
  cancel_flow-IsConsistent h = ((refl, h), Waits-ended m.stop_task m.contexts m.cancelled c.1)

module _ (g : Wiring) (w : World) (n : Transfers) (b : Built) where
  -- Where only the cursor, the lists, the errors, the notes or the decisions change.
  Good-after_trust :
      (p : Peer) (allow : Bool) (e : Option Text) (m : Tab)
      → IsConsistent m n b
      → Good n b (after_trust g w p allow e m)
  unfolding after_trust fail
  Good-after_trust p allow none m c = c
  Good-after_trust p allow (some e) m c = c

  Good-after_task_trust :
      (p : Peer) (allow : Bool) (e : Option Text) (m : Tab)
      → IsConsistent m n b
      → Good n b (after_task_trust g w p allow e m)
  unfolding after_task_trust fail
  Good-after_task_trust p allow none m c = c
  Good-after_task_trust p allow (some e) m c = c

  Good-toggle_trust :
      (p : Option Peer) (m : Tab) → IsConsistent m n b → Good n b (toggle_trust g w p m)
  unfolding toggle_trust fail
  Good-toggle_trust none m c = c
  Good-toggle_trust (some p) m c =
      if_intro (Good n b) (not g.trust_set) _ _ c
        (Good-after_trust p (not (decisions_allow (decision p.id m.trusted))) w.set_error m c)

  Good-toggle_task_trust :
      (p : Option Peer) (m : Tab) → IsConsistent m n b → Good n b (toggle_task_trust g w p m)
  unfolding toggle_task_trust fail
  Good-toggle_task_trust none m c = c
  Good-toggle_task_trust (some p) m c =
      if_intro (Good n b) (not g.task_set) _ _ c (
        Good-after_task_trust p (not (decisions_allow (decision p.id m.task_trust))) w.set_error m
          c)

  -- The flows that begin in the list.
  Good-begin_task :
      (p : Option Peer) (m : Tab)
      → IsConsistent m n b
      → m.stop_task ≡ none
      → n ≡ []
      → Good n b (begin_task g p m)
  unfolding begin_task fail
  Good-begin_task none m c s h = c
  Good-begin_task (some p) m c s h =
      if_intro (Good n b) (not p.online) _ _ c
        (if_intro (Good n b) (not g.dispatch) _ _ c ((s, h, refl), c.1))

  Good-begin_send :
      (p : Option Peer) (m : Tab)
      → IsConsistent m n b
      → m.stop_task ≡ none
      → n ≡ []
      → Good n b (begin_send p m)
  unfolding begin_send fail
  Good-begin_send none m c s h = c
  Good-begin_send (some p) m c s h = if_intro (Good n b) (not p.online) _ _ c ((s, h, refl), c.1)

  Good-move_up : (m : Tab) → IsConsistent m n b → IsConsistent (move_up m) n b
  unfolding move_up
  Good-move_up m c = if_intro (λ (t : Tab). IsConsistent t n b) (ltb 0 m.cursor) _ _ c c

  Good-move_down : (m : Tab) → IsConsistent m n b → IsConsistent (move_down m) n b
  unfolding move_down
  Good-move_down m c =
      if_intro (λ (t : Tab). IsConsistent t n b) (ltb (m.cursor + 1) (length m.peers)) _ _ c c

  pub Good-browsing :
      (k : Key) (m : Tab)
      → IsConsistent m n b
      → m.stop_task ≡ none
      → n ≡ []
      → Good n b (update_browsing g w k m)
  unfolding update_browsing
  Good-browsing Key.up m c s h = Good-move_up m c
  Good-browsing Key.down m c s h = Good-move_down m c
  Good-browsing Key.enter m c s h = Good-begin_send (get_elem? m.peers m.cursor) m c s h
  Good-browsing Key.esc m c s h = c
  Good-browsing Key.ctrl_u m c s h = c
  Good-browsing (Key.other_key k) m c s h = c
  Good-browsing (Key.char k) m c s h = if_intro (Good n b) (k == b'k') _ _ (Good-move_up m c) (
      if_intro (Good n b) (k == b'j') _ _ (Good-move_down m c) (
        if_intro (Good n b) (k == b'a') _ _ (Good-toggle_trust (get_elem? m.peers m.cursor) m c) (
          if_intro (Good n b) (k == b't') _ _
            (Good-toggle_task_trust (get_elem? m.peers m.cursor) m c)
            (if_intro (Good n b) (k == b'x') _ _
              (Good-begin_task (get_elem? m.peers m.cursor) m c s h)
              (if_intro (Good n b) (k == b's') _ _
                (Good-begin_send (get_elem? m.peers m.cursor) m c s h) c)))))
