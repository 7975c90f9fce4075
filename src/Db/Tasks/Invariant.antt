-- ===== src/Db/Tasks/Invariant.antt =====
-- What every table of tasks satisfies that was filled by the operations.
use edge_grid.Prelude.{
  ◌≤◌, ◌≡◌, ◌≢◌, refl, Bool, true, false, Text, [], ◌∷◌, List, none, length, arith, All, All-append,
  Bool-cases, inl, inr,
}
use edge_grid.Prelude.Int.{ℤ}
use edge_grid.Db.Tasks.{
  Role, TaskStatus, running, done, failed, interrupted, other, TaskRecord, Table, has_key, update,
  keep, has_row, is_done, is_listed, is_running, finish_values, write_finish, interrupt, survives,
  max_task_output, record_task_start, record_task_finish, reconcile_stale_tasks, prune_tasks,
}
use edge_grid.Db.Tasks.Keys.{
  KeysUnique, KeepsKey, append-KeysUnique, has_row-update, keep-KeysUnique,
}

-- A row: a listed status, an output of 64 KiB at most that only a finished task has, and a time of
-- the end that only a running task lacks.
pub record IsSound (r : TaskRecord) : Type 0 where
  pub listed : is_listed r.status ≡ true
  pub done_output : is_done r.status ≡ false → r.output ≡ []
  pub bounded : length r.output ≤ max_task_output
  pub ended : is_running r.status ≡ false → r.finished_at ≢ none

abbrev pub IsValid : Table → Type 0
IsValid t = KeysUnique t × All IsSound t

-- An update that keeps the keys and leaves sound rows.
update-IsValid :
    (q : TaskRecord → Bool) (f : TaskRecord → TaskRecord) (t : Table)
    → KeepsKey f
    → ((r : TaskRecord) → q r ≡ true → IsSound r → IsSound (f r))
    → IsValid t
    → IsValid (update q f t)
unfolding update
update-IsValid q f [] k s v = v
update-IsValid q f (r ∷ t) k s ((a, u), (b, w)) =
    let (u', w') = update-IsValid q f t k s (u, w) in
    elim (Bool-cases (q r)) [
      | inl e ↦ rw e (
        (rw (has_row-update q f (f r).role (f r).task_id t k) (rw ((k r).0, (k r).1) a), u'),
        (s r e b, w'),
      )
      | inr e ↦ rw e ((rw (has_row-update q f r.role r.task_id t k) a, u'), (b, w'))
    ]

keep-IsSound : (q : TaskRecord → Bool) (t : Table) → All IsSound t → All IsSound (keep q t)
unfolding keep
keep-IsSound q [] a = tt
keep-IsSound q (r ∷ t) (a, u) = elim (Bool-cases (q r)) [
  | inl e ↦ rw e (a, keep-IsSound q t u)
  | inr e ↦ rw e (keep-IsSound q t u)
]

-- What RecordTaskFinish makes of a row.
finish_values-IsSound :
    (status : TaskStatus) (output err_msg : Text) (now : ℤ) (r : TaskRecord)
    → is_listed (finish_values status output err_msg).status ≡ true
    → IsSound (write_finish now (finish_values status output err_msg) r)
unfolding finish_values is_done write_finish
finish_values-IsSound status output err_msg now r h = record {
  listed = h;
  done_output = λ e. ground arith;
  bounded = ground arith;
  ended = λ _ k. cc;
}

not_done : (s : TaskStatus) → is_running s ≡ true → is_done s ≡ false
unfolding is_running is_done
not_done running h = refl
not_done done h = cc
not_done failed h = refl
not_done interrupted h = refl
not_done (other s) h = refl

interrupt-IsSound :
    (now : ℤ) (r : TaskRecord) → is_running r.status ≡ true → IsSound r → IsSound (interrupt now r)
unfolding interrupt is_listed is_done
interrupt-IsSound now r h s = record {
  listed = refl;
  done_output = λ e. s.done_output (not_done r.status h);
  bounded = s.bounded;
  ended = λ _ k. cc;
}

pub record_task_start-IsValid :
    (fails : Bool) (now : ℤ) (role : Role) (task_id peer_id peer_hostname kind : Text) (t : Table)
    → IsValid t
    → IsValid (record_task_start fails now role task_id peer_id peer_hostname kind t).1
unfolding record_task_start is_listed is_done is_running
record_task_start-IsValid fails now role task_id peer_id peer_hostname kind t v =
    elim (Bool-cases fails) [
      | inl e ↦ rw e v
      | inr e ↦ elim (Bool-cases (has_row (has_key role task_id) t)) [
        | inl d ↦ rw (e, d) v
        | inr d ↦
            rw (e, d)
              (
                append-KeysUnique _ t v.0 d,
                All-append IsSound t _ v.1 (
                  record {
                    listed = refl;
                    done_output = λ _. refl;
                    bounded = omega arith;
                    ended = λ k. cc;
                  },
                  tt,
                ),
              )
      ]
    ]

pub record_task_finish-IsValid :
    (fails : Bool) (now : ℤ) (role : Role) (task_id : Text) (status : TaskStatus)
    (output err_msg : Text) (t : Table)
    → IsValid t
    → IsValid (record_task_finish fails now role task_id status output err_msg t).1
unfolding record_task_finish write_finish
record_task_finish-IsValid fails now role task_id status output err_msg t v =
    elim (Bool-cases (is_listed (finish_values status output err_msg).status)) [
      | inr bad ↦ ground (arith, bad, v)
      | inl good ↦
          let w =
            update-IsValid (has_key role task_id)
              (write_finish now (finish_values status output err_msg)) t (λ r. (refl, refl))
              (λ r _ _. finish_values-IsSound status output err_msg now r good) v in
          ground (arith, v, w)
    ]

pub reconcile_stale_tasks-IsValid :
    (fails : Bool) (now : ℤ) (t : Table) → IsValid t → IsValid (reconcile_stale_tasks fails now t).1
unfolding reconcile_stale_tasks interrupt
reconcile_stale_tasks-IsValid fails now t v =
    let w =
      update-IsValid (λ r. is_running r.status) (interrupt now) t (λ r. (refl, refl))
        (interrupt-IsSound now) v in
    ground (arith, v, w)

pub prune_tasks-IsValid :
    (fails : Bool) (cutoff : ℤ) (t : Table) → IsValid t → IsValid (prune_tasks fails cutoff t).1
unfolding prune_tasks
prune_tasks-IsValid fails cutoff t v =
    let w : IsValid (keep (survives cutoff) t) =
      (keep-KeysUnique (survives cutoff) t v.0, keep-IsSound (survives cutoff) t v.1) in
    ground (arith, v, w)

-- The calls that change the table, each with the outcome of its statement.
pub data Operation : Type 0 where
  start : Bool → ℤ → Role → Text → Text → Text → Text → Operation
  finish : Bool → ℤ → Role → Text → TaskStatus → Text → Text → Operation
  reconcile : Bool → ℤ → Operation
  prune : Bool → ℤ → Operation

unfoldable pub run : Operation → Table → Table
run (start fails now role id peer host kind) t =
    (record_task_start fails now role id peer host kind t).1
run (finish fails now role id status output e) t =
    (record_task_finish fails now role id status output e t).1
run (reconcile fails now) t = (reconcile_stale_tasks fails now t).1
run (prune fails cutoff) t = (prune_tasks fails cutoff t).1

unfoldable pub run_all : List Operation → Table → Table
run_all [] t = t
run_all (op ∷ ops) t = run_all ops (run op t)

run-IsValid : (op : Operation) (t : Table) → IsValid t → IsValid (run op t)
unfolding run
run-IsValid (start fails now role id peer host kind) t v =
    record_task_start-IsValid fails now role id peer host kind t v
run-IsValid (finish fails now role id status output e) t v =
    record_task_finish-IsValid fails now role id status output e t v
run-IsValid (reconcile fails now) t v = reconcile_stale_tasks-IsValid fails now t v
run-IsValid (prune fails cutoff) t v = prune_tasks-IsValid fails cutoff t v

-- Whatever calls are made on a table, in any order and with any of their statements failing, it
-- stays valid: one row at most for a task in a role, only listed statuses, an output of 64 KiB at
-- most and only on a finished task, and a time of the end on every row that is not running.
pub run_all-IsValid : (ops : List Operation) (t : Table) → IsValid t → IsValid (run_all ops t)
unfolding run_all
run_all-IsValid [] t v = v
run_all-IsValid (op ∷ ops) t v = run_all-IsValid ops (run op t) (run-IsValid op t v)
