-- ===== src/Db/Tasks/Lookup.antt =====
-- What a lookup of a task finds after each operation.
use edge_grid.Prelude.{
  ◌≡◌, refl, Bool, true, false, ◌||◌, not, Text, [], ◌∷◌, ◌++◌, Option, none, some, arith,
  Bool-cases, inl, inr, text_eq, if◌then◌else◌,
}
use edge_grid.Prelude.Int.{ℤ, ltb_ℤ}
use edge_grid.Prelude.Results.{ok, err}
use edge_grid.Db.Tasks.{
  Role, received, TaskStatus, running, TaskRecord, Table, has_key, is_for, find, update, keep,
  has_row, is_listed, is_running, finish_values, write_finish, interrupt, survives,
  record_task_start, record_task_finish, reconcile_stale_tasks, prune_tasks, task,
  received_task_for, scan_task, task_not_found,
}
use edge_grid.Db.Tasks.Keys.{KeysUnique, KeepsKey, has_key-kept, has_key_iff, has_row-keep}

pub find_passes :
    (p : TaskRecord → Bool) (t : Table) (r : TaskRecord) → find p t ≡ some r → p r ≡ true
unfolding find
find_passes p [] r h = cc
find_passes p (x ∷ t) r h = elim (Bool-cases (p x)) [
  | inl e ↦ ground (arith, e, h)
  | inr e ↦ find_passes p t r (ground (arith, e, h))
]

find-keep :
    (p q : TaskRecord → Bool) (t : Table)
    → ((r : TaskRecord) → p r ≡ true → q r ≡ true)
    → find p (keep q t) ≡ find p t
unfolding find keep
find-keep p q [] h = refl
find-keep p q (x ∷ t) h = ground (arith, find-keep p q t h, h x)

find-update :
    (q : TaskRecord → Bool) (f : TaskRecord → TaskRecord) (role : Role) (id : Text) (t : Table)
    (r : TaskRecord)
    → KeepsKey f
    → find (has_key role id) t ≡ some r
    → find (has_key role id) (update q f t) ≡ some (if q r then f r else r)
unfolding find update
find-update q f role id [] r k h = cc
find-update q f role id (x ∷ t) r k h =
    ground (arith, find-update q f role id t r k, has_key-kept f role id x k, h)

has_row-find : (p : TaskRecord → Bool) (t : Table) → has_row p t ≡ false → find p t ≡ none
unfolding find has_row
has_row-find p [] h = refl
has_row-find p (x ∷ t) h = ground (arith, has_row-find p t, h)

find-has_row :
    (p : TaskRecord → Bool) (t : Table) (r : TaskRecord) → find p t ≡ some r → has_row p t ≡ true
unfolding find has_row
find-has_row p [] r h = cc
find-has_row p (x ∷ t) r h = ground (arith, find-has_row p t r, h)

find-append :
    (p : TaskRecord → Bool) (t : Table) (r : TaskRecord)
    → has_row p t ≡ false
    → p r ≡ true
    → find p (t ++ (r ∷ [])) ≡ some r
unfolding find has_row
find-append p [] r h e = ground (arith, e)
find-append p (x ∷ t) r h e = ground (arith, find-append p t r, h, e)

scan_task-ok : (o : Option TaskRecord) (r : TaskRecord) → scan_task false o ≡ ok r → o ≡ some r
unfolding scan_task
scan_task-ok none r h = cc
scan_task-ok (some x) r h = cc

-- A task that has no row yet can be started, and then looked up: as running, with nothing else in its
-- row.
pub task-record_task_start :
    (now : ℤ) (role : Role) (task_id peer_id peer_hostname kind : Text) (t : Table)
    → has_row (has_key role task_id) t ≡ false
    → let (result, u) = record_task_start false now role task_id peer_id peer_hostname kind t in
      (result ≡ ok tt)
      × (task false role task_id u
          ≡ ok (record {
            task_id = task_id;
            role = role;
            peer_id = peer_id;
            peer_hostname = peer_hostname;
            kind = kind;
            status = running;
            output = [];
            error = none;
            started_at = now;
            finished_at = none;
          }))
unfolding record_task_start task scan_task
task-record_task_start now role task_id peer_id peer_hostname kind t e = rw e (
  refl,
  rw (
      find-append (has_key role task_id) t
        (record {
          task_id = task_id;
          role = role;
          peer_id = peer_id;
          peer_hostname = peer_hostname;
          kind = kind;
          status = running;
          output = [];
          error = none;
          started_at = now;
          finished_at = none;
        })
        e ((has_key_iff role task_id _).1 (refl, refl))),
)

-- A task that is there can be finished with a listed status, and then looked up with what
-- RecordTaskFinish stored, the rest of its row unchanged, if the statements go through.
pub task-record_task_finish :
    (now : ℤ) (role : Role) (task_id : Text) (status : TaskStatus) (output err_msg : Text)
    (t : Table) (r : TaskRecord)
    → is_listed (finish_values status output err_msg).status ≡ true
    → task false role task_id t ≡ ok r
    → let (result, u) = record_task_finish false now role task_id status output err_msg t in
      (result ≡ ok tt)
      × (task false role task_id u ≡ ok (write_finish now (finish_values status output err_msg) r))
unfolding record_task_finish task scan_task write_finish
task-record_task_finish now role task_id status output err_msg t r l h =
    let there = scan_task-ok (find (has_key role task_id) t) r h in
    let write = write_finish now (finish_values status output err_msg) in
    let key = (has_key_iff role task_id r).1 in
    rw (find-has_row (has_key role task_id) t r there, l)
      (
        refl,
        rw (
          find-update (has_key role task_id) write role task_id t r (λ r. (refl, refl)) there,
          find_passes (has_key role task_id) t r there,
        ),
      )

-- An answer to a result request is the requester's own row; it is the same as if no other peer had
-- ever sent a task here.
pub received_task_for_own :
    (fails : Bool) (task_id requester_id : Text) (t : Table)
    → received_task_for fails task_id requester_id t
      ≡ received_task_for fails task_id requester_id (keep (λ r. text_eq r.peer_id requester_id) t)
unfolding received_task_for is_for
received_task_for_own fails task_id requester_id t = rw (
    find-keep (is_for task_id requester_id) (λ r. text_eq r.peer_id requester_id) t
      (λ r h. ground (arith, h)))

-- A ReconcileStaleTasks that goes through makes a running task interrupted, with the error "node
-- restarted" and the time of the end; the others are as they were.
pub task-reconcile_stale_tasks :
    (now : ℤ) (role : Role) (task_id : Text) (t : Table) (r : TaskRecord)
    → task false role task_id t ≡ ok r
    → task false role task_id (reconcile_stale_tasks false now t).1
      ≡ ok (if is_running r.status then interrupt now r else r)
unfolding task scan_task reconcile_stale_tasks interrupt
task-reconcile_stale_tasks now role task_id t r h = rw (
    find-update (λ r. is_running r.status) (interrupt now) role task_id t r (λ r. (refl, refl))
      (scan_task-ok (find (has_key role task_id) t) r h))

find-keep_same :
    (q : TaskRecord → Bool) (role : Role) (id : Text) (t : Table) (r : TaskRecord)
    → find (has_key role id) t ≡ some r
    → q r ≡ true
    → find (has_key role id) (keep q t) ≡ some r
unfolding find keep
find-keep_same q role id [] r h e = cc
find-keep_same q role id (x ∷ t) r h e = elim (Bool-cases (has_key role id x)) [
  | inl k ↦
      let same : x ≡ r = ground (arith, k, h) in
      let kept : q x ≡ true = cc (same, e) in ground (arith, k, kept, same)
  | inr k ↦ ground (arith, k, h, find-keep_same q role id t r, e)
]

find-keep_gone :
    (q : TaskRecord → Bool) (role : Role) (id : Text) (t : Table) (r : TaskRecord)
    → KeysUnique t
    → find (has_key role id) t ≡ some r
    → q r ≡ false
    → find (has_key role id) (keep q t) ≡ none
unfolding find keep
find-keep_gone q role id [] r u h e = cc
find-keep_gone q role id (x ∷ t) r (a, u) h e = elim (Bool-cases (has_key role id x)) [
  | inl k ↦
      let same : x ≡ r = ground (arith, k, h) in
      let gone : q x ≡ false = cc (same, e) in
      let (i, j) = (has_key_iff role id x).0 k in
      rw gone (
        has_row-find (has_key role id) (keep q t)
          (has_row-keep (has_key role id) q t (rw (i, j) at a)))
  | inr k ↦ ground (arith, k, h, find-keep_gone q role id t r u, e)
]

-- After a PruneTasks that goes through, on a table with one row at most for each key, a task that
-- is running or started at the cutoff or later is still found, the others are not.
pub task-prune_tasks :
    (cutoff : ℤ) (role : Role) (task_id : Text) (t : Table) (r : TaskRecord)
    → KeysUnique t
    → task false role task_id t ≡ ok r
    → task false role task_id (prune_tasks false cutoff t).1 ≡ (
        if is_running r.status || not (ltb_ℤ r.started_at cutoff) then ok r else err task_not_found)
unfolding task scan_task prune_tasks survives
task-prune_tasks cutoff role task_id t r u h =
    let there = scan_task-ok (find (has_key role task_id) t) r h in
    elim (Bool-cases (survives cutoff r)) [
      | inl e ↦ rw (find-keep_same (survives cutoff) role task_id t r there e) (ground (arith, e))
      | inr e ↦ rw (find-keep_gone (survives cutoff) role task_id t r u there e) (ground (arith, e))
    ]

find_for_gone :
    (id requester : Text) (t : Table)
    → has_row (has_key received id) t ≡ false
    → find (is_for id requester) t ≡ none
unfolding has_row find is_for
find_for_gone id requester [] h = refl
find_for_gone id requester (x ∷ t) h = ground (arith, find_for_gone id requester t, h)

find_for :
    (id requester : Text) (t : Table) (r : TaskRecord)
    → KeysUnique t
    → find (has_key received id) t ≡ some r
    → find (is_for id requester) t ≡ (if text_eq r.peer_id requester then some r else none)
unfolding find is_for
find_for id requester [] r u h = cc
find_for id requester (x ∷ t) r (a, u) h = elim (Bool-cases (has_key received id x)) [
  | inl k ↦
      let same : x ≡ r = ground (arith, k, h) in
      let (i, j) = (has_key_iff received id x).0 k in
      let rest = find_for_gone id requester t (rw (i, j) at a) in rw (k, rest, ← same) refl
  | inr k ↦ rw k (find_for id requester t r u (ground (arith, k, h)))
]

scan_if :
    (b : Bool) (r : TaskRecord)
    → scan_task false (if b then some r else none) ≡ (if b then ok r else err task_not_found)
unfolding scan_task
scan_if true r = refl
scan_if false r = refl

-- In a table with one row at most for each key, a received task is answered to the peer of its
-- row, and to any other as one that is not there, if the statement goes through.
pub received_task_for-row :
    (task_id requester_id : Text) (t : Table) (r : TaskRecord)
    → KeysUnique t
    → task false received task_id t ≡ ok r
    → received_task_for false task_id requester_id t
      ≡ (if text_eq r.peer_id requester_id then ok r else err task_not_found)
unfolding task received_task_for
received_task_for-row task_id requester_id t r u h =
    rw (find_for task_id requester_id t r u (scan_task-ok (find (has_key received task_id) t) r h))
      (scan_if (text_eq r.peer_id requester_id) r)
