-- ===== src/Tui/Peers/Reached.antt =====
-- What holds of the Peers tab wherever the event loop takes it.
use edge_grid.Prelude.{
  ℕ, refl, false, not, ◌||◌, Text, [], Option, text_eq, text_eq_iff, if_cases, arith,
}
use edge_grid.Prelude.Results.{Result}
use edge_grid.Blob.{Manifest}
use edge_grid.Discovery.Members.{Peer}
use edge_grid.Task.{ResultResponse}
use edge_grid.Tui.Tab.{
  Key, Tab, Wiring, World, is_building, is_dispatching, task_dispatched, task_result,
  manifest_built,
}
use edge_grid.Tui.Peers.{update}
use edge_grid.Tui.Peers.Flow.{Built, Transfers, IsConsistent, Good, is_cancelled}
use edge_grid.Tui.Peers.Keys.{Good-key, Good-refresh}
use edge_grid.Tui.Peers.Session.{
  Session, Step, Reach, log, presses, refreshes, polls, decides, answers, hashes, sends, opened,
  next, blank, new_peers_model, dispatching_is, building_is, neither, logged, sent-IsConsistent,
  verdict-Good, result-IsConsistent, built-IsConsistent,
}

module _ (edit : ℕ → Key → Text → Text) (g : Wiring) where
  module _ (w : World) (m : Tab) (n : Transfers) (b : Built) (c : IsConsistent m n b) where
    decided :
        (p : Peer) (kind id : Text) (e : Option Text)
        → Good n b (update edit g w (task_dispatched p kind id e) m)
    unfolding update
    decided p kind id e =
        if_cases (Good n b) (not (is_dispatching m.mode) || not (text_eq p.id m.target.id)) _ _
          (λ h. c)
          (λ h. verdict-Good m n b c (dispatching_is m.mode (neither _ _ h).0) g p kind id e)

    answered :
        (id : Text) (r : Result Text ResultResponse)
        → Good n b (update edit g w (task_result id r) m)
    unfolding update
    answered id r =
        if_cases (Good n b) (not (is_dispatching m.mode) || not (text_eq id m.task_id)) _ _ (λ h. c)
          (λ h. result-IsConsistent m n b c (dispatching_is m.mode (neither _ _ h).0) r)

    hashed :
        (path : Text) (r : Result Text Manifest)
        → Good n (log path r b) (update edit g w (manifest_built path r) m)
    unfolding update
    hashed path r =
        if_cases (Good n (log path r b)) (not (is_building m.mode) || not (text_eq path m.path)) _ _
          (λ h. logged m n b c path r)
          (λ h.
            let (mode, same) = neither (is_building m.mode) (text_eq path m.path) h in
            built-IsConsistent m n b c path r (building_is m.mode mode)
              ((text_eq_iff path m.path).0 same))

  abbrev pub SessionIsConsistent : Session → Type 0
  SessionIsConsistent s = IsConsistent s.tab s.transfers s.built

  Step-IsConsistent :
      {s t : Session} → Step edit g s t → SessionIsConsistent s → SessionIsConsistent t
  unfolding update
  Step-IsConsistent {s} (presses w k) c =
      Good-key edit g w s.transfers s.built s.tab.mode k s.tab c refl
  Step-IsConsistent {s} (refreshes w) c = Good-refresh edit g w s.transfers s.built s.tab c
  Step-IsConsistent {s} (polls w) c = c
  Step-IsConsistent {s} (decides w p kind id e) c =
      decided w s.tab s.transfers s.built c p kind id e
  Step-IsConsistent {s} (answers w id r) c = answered w s.tab s.transfers s.built c id r
  Step-IsConsistent {s} (hashes w path r) c = hashed w s.tab s.transfers s.built c path r
  Step-IsConsistent {s} (sends w p size e x rest h) c =
      sent-IsConsistent s.tab s.transfers s.built c p size e x rest h

  new-IsConsistent : (w : World) → IsConsistent (new_peers_model g w) [] []
  unfolding new_peers_model is_cancelled
  new-IsConsistent w =
      Good-refresh edit (record g { trust_list = false; task_list = false }) w [] [] blank
        ((refl, refl), (λ c h. absurd (omega arith), λ c e. absurd cc, λ c h. refl))

  -- Whatever keys are pressed and whenever the answers come, late ones included: a transfer runs only
  -- in the step of sending, one at a time, and it is of the peer and the path that are shown, with a
  -- manifest that was built for that path; the step before it shows such a manifest; a text field that
  -- is shown takes keys; and of all the contexts that waits were given, at most the newest is not
  -- cancelled, which is so exactly while the tab waits for a task.
  pub Reach-SessionIsConsistent : {s : Session} → Reach edit g s → SessionIsConsistent s
  Reach-SessionIsConsistent (opened w) = new-IsConsistent w
  Reach-SessionIsConsistent (next r x) = Step-IsConsistent x (Reach-SessionIsConsistent r)
