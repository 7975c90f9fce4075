-- ===== src/Node/Tasks/Answer.antt =====
-- The result of a task: from the accepted offer to the answer that the dispatcher gets.
use edge_grid.Prelude.{
  ◌≤◌, ◌≡◌, ◌≢◌, refl, sym, subst, inl, inr, Bool, true, false, Text, [], none, some, arith, length,
  text_eq, text_eq_iff, text_eq_self, is_empty, if◌then◌else◌,
}
use edge_grid.Prelude.Int.{ℤ}
use edge_grid.Prelude.Results.{Result, ok, err}
use edge_grid.Net.{Conn}
use edge_grid.Json.{Codec}
use edge_grid.Db.Tasks
use edge_grid.Db.Tasks.{
  Table, DbError, TaskRecord, received, has_key, is_for, find, has_row, task, received_task_for,
  record_task_start, record_task_finish, prune_tasks, task_not_found, finish_values, write_finish,
  is_done, is_listed, is_running, max_task_output,
}
use edge_grid.Db.Tasks.Invariant.{
  IsValid, record_task_start-IsValid, record_task_finish-IsValid, prune_tasks-IsValid,
}
use edge_grid.Db.Tasks.Lookup.{received_task_for-row}
use edge_grid.Task.{Task, Uuids, ResultResponse, done}
use edge_grid.Task.Offer.{Worker, process_task}
use edge_grid.Task.Offer.Asked.{Follows, process_task-Asked}
use edge_grid.Node.Tasks.Slot.{Answered, accept_task-Answered}
use edge_grid.Task.Outcome.{unknown_response}
use edge_grid.Node.Tasks.{
  TaskNode, Offerer, Accepting, release, finish_task, answer_row, result_status, accept_task,
  after_offer, prune_in, receive_task, end_run, output, lookup_result,
}
use edge_grid.Node.Tasks.Row.{accepted_row, HasRow, started_row, pruned_row, finished_row}

stranger : (requester owner : Text) → requester ≢ owner → text_eq owner requester ≡ false
stranger requester owner h = ground (arith, text_eq_iff owner requester, h)

module _ (json : Codec Task) (uuids : Uuids) (quote : Text → Text) (allows : Bool)
    (supports : Text → Bool) (start_fails later_fails : Bool) (now cutoff : ℤ)
    (peer : Offerer) where
  accepted_state :
      (n : TaskNode) (table : Table) (t x : Task) (s : Accepting) (a : Result Text (Unit {0}))
      → n.history ≡ some table
      → IsValid table
      → Answered quote allows supports start_fails now peer x n (a, s)
      → Follows a x (ok t)
      → HasRow now peer t (after_offer later_fails now cutoff (ok t) s)
  unfolding after_offer prune_in
  accepted_state n table t x s (err e) h v k (e', f) = absurd cc
  accepted_state n table t x s (ok _) h v (inl (e, bad, c, b)) f = absurd cc
  accepted_state n table t x s (ok _) h v (inr (_, b, b', c, (tab, h', run, hist))) (inr (e, f)) =
      absurd cc
  accepted_state n table t x s (ok _) h v (inr (_, b, b', c, (tab, h', run, hist))) (inl f) =
      let same_table : tab ≡ table = cc (h, h') in
      let same_task : x ≡ t = cc f in
      let u =
        (record_task_start start_fails now received x.id peer.stable_id peer.label x.kind tab).1 in
      let valid : IsValid u =
        record_task_start-IsValid start_fails now received x.id peer.stable_id peer.label x.kind tab
          (subst IsValid (sym same_table) v) in
      let row = started_row start_fails now peer x tab run in
      (
        (prune_tasks later_fails cutoff u).1,
        rw hist refl,
        prune_tasks-IsValid later_fails cutoff u valid,
        subst
            (λ (y : Task).
              task false received y.id (prune_tasks later_fails cutoff u).1
              ≡ ok (accepted_row now peer y))
            same_task (pruned_row later_fails cutoff now peer x u valid row),
      )

  received_row :
      (c d : Conn) (n m : TaskNode) (table : Table) (t : Task)
      → n.history ≡ some table
      → IsValid table
      → receive_task json uuids quote allows supports start_fails later_fails now cutoff peer c n
        ≡ (ok t, d, m)
      → HasRow now peer t m
  unfolding receive_task
  received_row c d n m table t h v run =
      let accept = accept_task quote allows supports start_fails now peer in
      let w : Worker Accepting = record {
        conn = c;
        policy = record { node = n; claimed = none };
      } in
      let p = process_task json uuids accept w in
      let r : p.0 ≡ ok t = cc run in
      elim (process_task-Asked json uuids accept w) [
        | inl (e, bad, same) ↦ absurd (cc (r, bad))
        | inr (x, same, follows) ↦
            let s = (accept x w.policy).1 in
            let reached : after_offer later_fails now cutoff p.0 p.1.policy ≡ m = cc run in
            let final : m ≡ after_offer later_fails now cutoff (ok t) s =
              sym (rw (r, same) at reached) in
            subst (HasRow now peer t) (sym final) (
              accepted_state n table t x s (accept x w.policy).0 h v
                (accept_task-Answered quote allows supports start_fails now peer x n)
                (subst (Follows (accept x w.policy).0 x) r follows))
      ]

  -- The database once the run has ended.
  HasResult : Task → ℤ → Text → TaskNode → Type 0
  HasResult t end out k =
      (u : Table) × (k.history ≡ some u)
      × IsValid u
      × (task false received t.id u
          ≡ ok (record (accepted_row now peer t) {
            status = Tasks.done;
            output = out;
            finished_at = some end;
          }))

  stored_result :
      (c d : Conn) (n m : TaskNode) (table : Table) (t : Task) (end : ℤ) (out : Text)
      → n.history ≡ some table
      → IsValid table
      → receive_task json uuids quote allows supports start_fails later_fails now cutoff peer c n
        ≡ (ok t, d, m)
      → length out ≤ max_task_output
      → HasResult t end out (end_run false end t.id (output out) m)
  unfolding end_run release finish_task HasResult
  stored_result c d n m table t end out h v run small =
      let (u, hist, valid, row) = received_row c d n m table t h v run in
      (
        (record_task_finish false end received t.id Tasks.done out [] u).1,
        rw hist refl,
        record_task_finish-IsValid false end received t.id Tasks.done out [] u valid,
        finished_row end t out u (accepted_row now peer t) small row,
      )

  -- From an accepted offer to its result: with a valid database, an offer of a peer with a
  -- StableID that ended in a task to run, and a run that printed at most 64 KiB and whose end the
  -- database stored, the slot is free again and the peer that offered the task is answered with
  -- its output, if the lookup goes through.
  pub result_answered :
      (c d : Conn) (n m : TaskNode) (table : Table) (t : Task) (end : ℤ) (out : Text)
      → n.history ≡ some table
      → IsValid table
      → receive_task json uuids quote allows supports start_fails later_fails now cutoff peer c n
        ≡ (ok t, d, m)
      → is_empty peer.stable_id ≡ false
      → length out ≤ max_task_output
      → let k = end_run false end t.id (output out) m in
        (k.busy ≡ false)
        × (lookup_result false t.id peer.stable_id k
            ≡ record { status = done; output = out; error = [] })
  unfolding end_run release lookup_result answer_row result_status HasResult
  result_answered c d n m table t end out h v run named small =
      let (u, hist, valid, row) = stored_result c d n m table t end out h v run small in
      (
        refl,
        rw
            (
              hist,
              named,
              received_task_for-row t.id peer.stable_id u _ valid.0 row,
              text_eq_self peer.stable_id,
            )
            refl,
      )

  -- After a run of such a task, with a valid database that stored its end, whoever asks for its
  -- result and is not the peer that offered it is told that there is no such task.
  pub result_hidden :
      (c d : Conn) (n m : TaskNode) (table : Table) (t : Task) (end : ℤ) (out requester : Text)
      → n.history ≡ some table
      → IsValid table
      → receive_task json uuids quote allows supports start_fails later_fails now cutoff peer c n
        ≡ (ok t, d, m)
      → length out ≤ max_task_output
      → requester ≢ peer.stable_id
      → lookup_result false t.id requester (end_run false end t.id (output out) m)
        ≡ unknown_response
  unfolding lookup_result answer_row HasResult
  result_hidden c d n m table t end out requester h v run small other =
      let (u, hist, valid, row) = stored_result c d n m table t end out h v run small in
      rw
        (
          hist,
          received_task_for-row t.id requester u _ valid.0 row,
          stranger requester peer.stable_id other,
        )
        (nothing_either_way (is_empty requester))
    where
      nothing_either_way :
          (b : Bool)
          → ◌≡◌ {A = ResultResponse}
              (if b then unknown_response else unknown_response)
              unknown_response
      nothing_either_way true = refl
      nothing_either_way false = refl
