-- ===== src/Task/Offer/Agreement.antt =====
-- What an offered task leads to at the two ends.
use edge_grid.Prelude.{
  ℕ, suc, ◌%◌, ◌^◌, ◌≤◌, ◌≡◌, ◌↔◌, ◌≢◌, refl, ap, Text, List, [], ◌∷◌, ◌++◌, Option, some, none,
  length, arith, append-nil, append_assoc, le→ltb_false, ne→==_false,
}
use edge_grid.Prelude.Results.{Result, ok, err, map_err}
use edge_grid.Proc.{Proc, pure, wrap, continue, ◌>>◌}
use edge_grid.Net.{WriteOutcome, put_u32}
use edge_grid.Net.Laws.{read_full-append, write_ok, length-put_u32, u32-put_u32_small}
use edge_grid.Json.{Codec}
use edge_grid.Blob.Wire
use edge_grid.Blob.Wire.RoundTrip.{conn, frame_of, heard, write_verdict_ok, read_verdict-frame_of}
use edge_grid.Task.{Task, Uuids, task_wire_version, max_task_size}
use edge_grid.Task.Offer.{
  InvalidTask, Error, verdict, invalid, refused, unsupported_version, validate, message,
  version_message, write_task, read_task, offer, Worker, process_task, refuse, check_task, ask,
  answered, on_conn,
}

abbrev pub task_frame : Text → Text
task_frame body = (task_wire_version ∷ put_u32 (length body % 2 ^ 32)) ++ body

module _ (json : Codec Task) (t : Task) (body : Text) where
  pub write_task_ok :
      json.marshal t ≡ some body
      → (inc out : Text)
      → write_task json t (conn inc out []) ≡ (ok tt, conn inc (out ++ task_frame body) [])
  unfolding write_task
  write_task_ok h inc out = rw (h, write_ok)

  -- ReadTask gives back the task of a frame, and leaves what follows it.
  pub read_task-frame :
      json.unmarshal body ≡ some t
      → length body ≤ max_task_size
      → (rest out : Text) (ws : List WriteOutcome)
      → read_task json (conn (task_frame body ++ rest) out ws) ≡ (ok t, conn rest out ws)
  unfolding read_task
  read_task-frame h fits rest out ws =
      let hdr = task_wire_version ∷ put_u32 (length body % 2 ^ 32) in
      rw
        (
          append_assoc hdr body rest,
          read_full-append 5 _ hdr (body ++ rest) out ws (ap suc (length-put_u32 _)),
          u32-put_u32_small (length body) (omega arith),
        )
        (rw (le→ltb_false _ _ fits, read_full-append (length body) _ body rest out ws refl, h))

  -- Offer sends the task and hears the peer's answer.
  pub offer-heard :
      json.marshal t ≡ some body
      → (answer : Option Text) (out : Text)
      → offer json t (conn (frame_of answer) out [])
        ≡ (map_err verdict (heard answer), conn [] (out ++ task_frame body) [])
  unfolding offer
  offer-heard h answer out = rw (
    write_task_ok h (frame_of answer) out,
    rw append-nil at (read_verdict-frame_of answer [] (out ++ task_frame body) []),
  )

-- What the executing node decides on a task: whom it asks, and what it answers.
abbrev pub decision :
    {S : Type 0} → Task → Result Text (Unit {0}) × S → Result Error Task × Option Text × S
decision t (ok _, p) = (ok t, none, p)
decision t (err reason, p) = (err (refused reason), some reason, p)

abbrev pub decide :
    {S : Type 0}
    → (Task → Proc S Text (Unit {0}))
    → Task
    → Result InvalidTask (Unit {0})
    → S
    → Result Error Task × Option Text × S
decide accept t (ok _) p = decision t (accept t p)
decide accept t (err e) p = (err (invalid e), some (message e), p)

module _ {S : Type 0} (json : Codec Task) (uuids : Uuids)
    (accept : Task → Proc S Text (Unit {0})) where
  abbrev pub worker : Text → Text → S → Worker S
  worker inc out p = record { conn = conn inc out []; policy = p }

  after_validate : Task → Result InvalidTask (Unit {0}) → Proc (Worker S) Error Task
  after_validate t v = do
    check_task v
    ask accept t
    on_conn (wrap verdict (Wire.write_verdict none))
    pure t

  -- The answer to a task that reached `accept`.
  answered_task :
      (t : Task) (rest : Text) (a : Result Text (Unit {0}) × S)
      → ◌≡◌ {A = Result Error Task × Worker S}
          (continue
            (answered a.0 (worker rest [] a.1))
            (λ _. on_conn (wrap verdict (Wire.write_verdict none)) >> pure t))
          ((decision t a).0, worker rest (frame_of (decision t a).1) (decision t a).2)
  unfolding ask refuse
  answered_task t rest (ok _, p) = rw (write_verdict_ok none rest [])
  answered_task t rest (err reason, p) = rw (write_verdict_ok (some reason) rest [])

  after_validate_lem :
      (t : Task) (rest : Text) (p : S) (v : Result InvalidTask (Unit {0}))
      → let (r, answer, p') = decide accept t v p in
        after_validate t v (worker rest [] p) ≡ (r, worker rest (frame_of answer) p')
  unfolding after_validate check_task ask refuse
  after_validate_lem t rest p (err e) = rw (write_verdict_ok (some (message e)) rest [])
  after_validate_lem t rest p (ok _) = answered_task t rest (accept t p)

  -- ProcessTask on the frame of a task: Validate first, then `accept`, then one answer. The
  -- task's JSON must fit its limit and decode to the task, and no write fails.
  pub process_task-frame :
      (t : Task) (body rest : Text) (p : S)
      → json.unmarshal body ≡ some t
      → length body ≤ max_task_size
      → let (r, answer, p') = decide accept t (validate uuids t) p in
        process_task json uuids accept (worker (task_frame body ++ rest) [] p)
        ≡ (r, worker rest (frame_of answer) p')
  unfolding process_task after_validate
  process_task-frame t body rest p h fits =
      rw (read_task-frame json t body h fits rest [] [])
        (after_validate_lem t rest p (validate uuids t))

  decision_agrees :
      (t : Task) (a : Result Text (Unit {0}) × S)
      → let (r, answer, p') = decision t a in (map_err verdict (heard answer) ≡ ok tt) ↔ (r ≡ ok t)
  decision_agrees t (ok _, p) = (λ h. refl, λ h. refl)
  decision_agrees t (err reason, p) = (λ h. cc, λ h. cc)

  decide_agrees :
      (t : Task) (v : Result InvalidTask (Unit {0})) (p : S)
      → let (r, answer, p') = decide accept t v p in
        (map_err verdict (heard answer) ≡ ok tt) ↔ (r ≡ ok t)
  decide_agrees t (ok _) p = decision_agrees t (accept t p)
  decide_agrees t (err e) p = (λ h. cc, λ h. cc)

  -- The two ends agree, where the task's JSON fits its limit and decodes to the task, and no write fails.
  -- ProcessTask, on the bytes that WriteTask puts on the wire, reads the task that was offered: it returns
  -- what Validate and then `accept` decide on that task. Offer writes those bytes, and on the answer
  -- of ProcessTask returns nil exactly if ProcessTask returned the task.
  pub offer_agrees :
      (t : Task) (body : Text) (p : S)
      → json.marshal t ≡ some body
      → json.unmarshal body ≡ some t
      → length body ≤ max_task_size
      → let sent = (write_task json t (conn [] [] [])).1.outgoing in
        let (r, w) = process_task json uuids accept (worker sent [] p) in
        let (o, c) = offer json t (conn w.conn.outgoing [] []) in
        let (decided, _, after) = decide accept t (validate uuids t) p in
        (r ≡ decided) × (w.policy ≡ after) × (c.outgoing ≡ sent) × ((o ≡ ok tt) ↔ (r ≡ ok t))
  offer_agrees t body p encoded decoded fits =
      rw
        (
          write_task_ok json t body encoded [] [],
          rw append-nil at (process_task-frame t body [] p decoded fits),
          offer-heard json t body encoded (decide accept t (validate uuids t) p).1 [],
        )
        (refl, refl, refl, decide_agrees t (validate uuids t) p)

  -- An offer in another version is refused with its number, before a byte of its body is read, if
  -- no write fails; the policy is not asked.
  pub process_task_version :
      (version : ℕ) (size rest : Text) (p : S)
      → version ≢ task_wire_version
      → length size ≡ 4
      → process_task json uuids accept (worker (version ∷ (size ++ rest)) [] p) ≡ (
        err (unsupported_version version),
        worker rest (frame_of (some (version_message version))) p,
      )
  unfolding process_task read_task refuse
  process_task_version version size rest p h four =
      rw
        (
          read_full-append 5 _ (version ∷ size) rest [] [] (omega arith),
          ne→==_false version task_wire_version h,
        )
        (rw (write_verdict_ok (some (version_message version)) rest []))
