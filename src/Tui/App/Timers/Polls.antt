-- ===== src/Tui/App/Timers/Polls.antt =====
-- Which timers still run after any messages, in any order.
use edge_grid.Prelude.{
  ◌≡◌, refl, ◌∙◌, ap, Bool, true, false, not, ◌&&◌, ◌||◌, List, [], ◌∷◌, Option, none, some,
}
use edge_grid.Tui.Dashboard.Timers.{
  Timer, stats, refresh, peers, transfers, history, same, is, is_poll,
}
use edge_grid.Tui.App.{App, Msg, Env, Fields, update}
use edge_grid.Tui.App.Timers.{started, fired, covered, kept, update-Restarts}

-- The application in the event loop, and the timers whose message is still to come.
pub record Loop : Type 0 where
  pub app : App
  pub pending : Timer → Bool

-- Init starts them all.
abbrev pub launch : App → Loop
launch a = record { app = a; pending = λ t. true }

-- Messages in the order of their arrival, each with what the calls return.
abbrev pub Arrivals : Type 0
Arrivals = List (Env × Msg)

each :
    (P : Timer → Type 0)
    → P stats
    → P refresh
    → P peers
    → P transfers
    → P history
    → (t : Timer) → P t
each P a b c d e stats = a
each P a b c d e refresh = b
each P a b c d e peers = c
each P a b c d e transfers = d
each P a b c d e history = e

and_true : (b : Bool) → b ≡ b && true
and_true true = refl
and_true false = refl

is_kept :
    (c : Bool) (x : Option Timer) (t : Timer) → is (kept c x) t ≡ is x t && not (c && is_poll t)
is_kept c none t = refl
is_kept true (some x) t =
    each (λ x. is (kept true (some x)) t ≡ is (some x) t && not (is_poll t))
      (each (λ t. same stats t ≡ same stats t && not (is_poll t)) refl refl refl refl refl t)
      (each (λ t. same refresh t ≡ same refresh t && not (is_poll t)) refl refl refl refl refl t)
      (each (λ t. false ≡ same peers t && not (is_poll t)) refl refl refl refl refl t)
      (each (λ t. false ≡ same transfers t && not (is_poll t)) refl refl refl refl refl t)
      (each (λ t. false ≡ same history t && not (is_poll t)) refl refl refl refl refl t) x
is_kept false (some x) t = and_true (same x t)

lost : (over poll : Bool) → not (over && poll) || false ≡ true && (not poll || not (true && over))
lost true true = refl
lost true false = refl
lost false true = refl
lost false false = refl

settle :
    (fires over poll before : Bool)
    → (fires ≡ true → before ≡ true)
    → fires && not (over && poll) || not fires && before
      ≡ before && (not poll || not (fires && over))
settle true over poll before h = rw (h refl) (lost over poll)
settle false over true true h = refl
settle false over true false h = refl
settle false over false true h = refl
settle false over false false h = refl

none_yet : (b p : Bool) → b ≡ b && (not p || true)
none_yet true true = refl
none_yet true false = refl
none_yet false p = refl

join : (b p x y : Bool) → (b && (not p || x)) && (not p || y) ≡ b && (not p || x && y)
join false p x y = refl
join true false x y = refl
join true true x y = refl

module _ (f : Fields) where
  unfoldable pub deliver : Env → Msg → Loop → Loop
  deliver e m s =
      let (a, c) = update f e m s.app in
      record { app = a; pending = λ t. is (started c) t || not (is (fired m) t) && s.pending t }

  unfoldable pub run : Arrivals → Loop → Loop
  unfolding deliver
  run [] s = s
  run ((e, m) ∷ ms) s = run ms (deliver e m s)

  -- The message of a timer arrives only where the timer was started.
  unfoldable pub CanArrive : Arrivals → Loop → Type 0
  unfolding deliver
  CanArrive [] s = Unit
  CanArrive ((e, m) ∷ ms) s =
      ((t : Timer) → is (fired m) t ≡ true → s.pending t ≡ true) × CanArrive ms (deliver e m s)

  -- Each message of the timer found its tab uncovered.
  unfoldable pub found_uncovered : Timer → Arrivals → Loop → Bool
  unfolding deliver
  found_uncovered t [] s = true
  found_uncovered t ((e, m) ∷ ms) s =
      not (is (fired m) t && covered s.app) && found_uncovered t ms (deliver e m s)

  pending_after :
      (t : Timer) (e : Env) (m : Msg) (s : Loop)
      → ((u : Timer) → is (fired m) u ≡ true → s.pending u ≡ true)
      → (deliver e m s).pending t
        ≡ s.pending t && (not (is_poll t) || not (is (fired m) t && covered s.app))
  unfolding deliver
  pending_after t e m s h =
      ap (λ x. is x t || not (is (fired m) t) && s.pending t) (update-Restarts f e m s.app)
      ∙ (ap (λ x. x || not (is (fired m) t) && s.pending t) (is_kept (covered s.app) (fired m) t)
          ∙ settle (is (fired m) t) (covered s.app) (is_poll t) (s.pending t) (h t))

  run_pending :
      (t : Timer) (ms : Arrivals) (s : Loop)
      → CanArrive ms s
      → (run ms s).pending t ≡ s.pending t && (not (is_poll t) || found_uncovered t ms s)
  unfolding run CanArrive found_uncovered
  run_pending t [] s h = none_yet (s.pending t) (is_poll t)
  run_pending t ((e, m) ∷ ms) s (h, hs) =
      run_pending t ms (deliver e m s) hs
      ∙ (ap (λ x. x && (not (is_poll t) || found_uncovered t ms (deliver e m s)))
            (pending_after t e m s h)
          ∙ join (s.pending t) (is_poll t) (not (is (fired m) t && covered s.app))
              (found_uncovered t ms (deliver e m s)))

  -- After any messages, keys, sizes and answers among them, in any order and with any results of the
  -- calls: the two timers of the machine's load run on, and each timer of a tab runs on exactly where no
  -- message of it came while the logs or the command line were open. One that came then is the last.
  pub run-pending :
      (t : Timer) (a : App) (ms : Arrivals)
      → CanArrive ms (launch a)
      → (run ms (launch a)).pending t ≡ not (is_poll t) || found_uncovered t ms (launch a)
  run-pending t a ms h = run_pending t ms (launch a) h
