-- ===== src/Node/Tasks/Row.antt =====
-- The row of the database that an accepted task has, from the offer to the end of its run.
use edge_grid.Prelude.{
  ◌≤◌, ◌≡◌, refl, inl, inr, Bool, true, false, Text, [], none, some, Bool-cases, arith, length,
  is_empty, le→ltb_false,
}
use edge_grid.Prelude.Int.{ℤ}
use edge_grid.Prelude.Results.{ok}
use edge_grid.Db.Tasks
use edge_grid.Db.Tasks.{
  Table, DbError, TaskRecord, received, has_key, is_for, find, has_row, task, received_task_for,
  record_task_start, record_task_finish, prune_tasks, task_not_found, finish_values, write_finish,
  is_done, is_listed, is_running, max_task_output,
}
use edge_grid.Db.Tasks.Invariant.{IsValid}
use edge_grid.Db.Tasks.Lookup.{task-record_task_start, task-record_task_finish, task-prune_tasks}
use edge_grid.Task.{Task}
use edge_grid.Node.Tasks.{TaskNode, Offerer}

-- The row of a task that was accepted.
abbrev pub accepted_row : ℤ → Offerer → Task → TaskRecord
accepted_row now peer t = record {
  task_id = t.id;
  role = received;
  peer_id = peer.stable_id;
  peer_hostname = peer.label;
  kind = t.kind;
  status = Tasks.running;
  output = [];
  error = none;
  started_at = now;
  finished_at = none;
}

-- The database right after an acceptance.
abbrev pub HasRow : ℤ → Offerer → Task → TaskNode → Type 0
HasRow now peer t m =
    (u : Table) × (m.history ≡ some u)
    × IsValid u
    × (task false received t.id u ≡ ok (accepted_row now peer t))

pub started_row :
    (fails : Bool) (now : ℤ) (peer : Offerer) (t : Task) (table : Table)
    → (record_task_start fails now received t.id peer.stable_id peer.label t.kind table).0 ≡ ok tt
    → task false received t.id
        (record_task_start fails now received t.id peer.stable_id peer.label t.kind table).1
      ≡ ok (accepted_row now peer t)
unfolding record_task_start
started_row fails now peer t table h = elim (Bool-cases fails) [
  | inl e ↦ absurd (ground (arith, e, h))
  | inr e ↦ elim (Bool-cases (has_row (has_key received t.id) table)) [
    | inl k ↦ absurd (ground (arith, e, k, h))
    | inr k ↦
        rw e (task-record_task_start now received t.id peer.stable_id peer.label t.kind table k).1
  ]
]

-- Pruning keeps it, since it is running.
pub pruned_row :
    (fails : Bool) (cutoff now : ℤ) (peer : Offerer) (t : Task) (u : Table)
    → IsValid u
    → task false received t.id u ≡ ok (accepted_row now peer t)
    → task false received t.id (prune_tasks fails cutoff u).1 ≡ ok (accepted_row now peer t)
unfolding prune_tasks is_running
pruned_row true cutoff now peer t u v h = h
pruned_row false cutoff now peer t u v h =
    task-prune_tasks cutoff received t.id u (accepted_row now peer t) v.0 h

-- The row once its output is stored.
pub finished_row :
    (end : ℤ) (t : Task) (out : Text) (u : Table) (r : TaskRecord)
    → length out ≤ max_task_output
    → task false received t.id u ≡ ok r
    → task false received t.id (record_task_finish false end received t.id Tasks.done out [] u).1
      ≡ ok (record r { status = Tasks.done; output = out; error = none; finished_at = some end })
unfolding finish_values write_finish is_done is_listed is_empty
finished_row end t out u r small h =
    rw (le→ltb_false max_task_output (length out) small) at
      (task-record_task_finish end received t.id Tasks.done out [] u r
        (rw (le→ltb_false max_task_output (length out) small) refl) h).1
