-- ===== src/Db/Tasks.antt =====
-- internal/db/tasks.go: one row for each task, at both ends.
pub mod Keys
pub mod Invariant
pub mod Lookup
use edge_grid.Prelude.{
  ℕ, Bool, true, false, not, ◌&&◌, Text, List, [], ◌∷◌, ◌++◌, Option, none, some, length, ltb,
  codes, show, is_empty, text_eq, if◌then◌else◌,
}
use edge_grid.Prelude.Int.{ℤ, ltb_ℤ}
use edge_grid.Prelude.Results.{Result, ok, err}
use edge_grid.Proc.{Proc}

pub data Role : Type 0 where
  sent received : Role

-- The strings of TaskStatus; `other` is any string that the table's CHECK refuses.
pub data TaskStatus : Type 0 where
  running done failed interrupted : TaskStatus
  other : Text → TaskStatus

-- 64 << 10
abbrev pub max_task_output : ℕ
max_task_output = 65_536

-- A statement that SQLite could not carry out, or that its constraints refused, or ErrTaskNotFound.
pub data DbError : Type 0 where
  statement_failed constraint_failed task_not_found : DbError

-- One row of the table tasks. NULL is `none`; an output that is NULL reads back as no bytes.
pub record TaskRecord : Type 0 where
  pub task_id : Text
  pub role : Role
  pub peer_id : Text
  pub peer_hostname : Text
  pub kind : Text
  pub status : TaskStatus
  pub output : Text
  pub error : Option Text
  pub started_at : ℤ
  pub finished_at : Option ℤ

abbrev pub Table : Type 0
Table = List TaskRecord

unfoldable pub same_role : Role → Role → Bool
same_role sent sent = true
same_role received received = true
same_role _ _ = false

unfoldable pub is_running : TaskStatus → Bool
is_running running = true
is_running _ = false

unfoldable pub is_done : TaskStatus → Bool
is_done done = true
is_done _ = false

-- CHECK (status IN ('running', 'done', 'failed', 'interrupted'))
unfoldable pub is_listed : TaskStatus → Bool
is_listed (other s) = false
is_listed _ = true

-- WHERE task_id = ? AND role = ?
unfoldable pub has_key : Role → Text → TaskRecord → Bool
has_key role id r = text_eq r.task_id id && same_role r.role role

-- QueryRow: the first row that passes.
unfoldable pub find : (TaskRecord → Bool) → Table → Option TaskRecord
find p [] = none
find p (r ∷ rs) = let rest = find p rs in if p r then some r else rest

-- UPDATE … WHERE
unfoldable pub update : (TaskRecord → Bool) → (TaskRecord → TaskRecord) → Table → Table
update p f [] = []
update p f (r ∷ rs) = (if p r then f r else r) ∷ update p f rs

-- What DELETE … WHERE leaves: the rows that pass.
unfoldable pub keep : (TaskRecord → Bool) → Table → Table
keep p [] = []
keep p (r ∷ rs) = let rest = keep p rs in if p r then r ∷ rest else rest

unfoldable pub has_row : (TaskRecord → Bool) → Table → Bool
has_row p [] = false
has_row p (r ∷ rs) = let rest = has_row p rs in if p r then true else rest

-- RecordTaskStart: the primary key (task_id, role) refuses a second row of a task in a role.
unfoldable pub record_task_start :
    Bool → ℤ → Role → Text → Text → Text → Text → Proc Table DbError (Unit {0})
record_task_start fails now role task_id peer_id peer_hostname kind t =
    if fails
    then (err statement_failed, t)
    else if has_row (has_key role task_id) t
    then (err constraint_failed, t)
    else (
      ok tt,
      t
          ++ (record {
            task_id = task_id;
            role = role;
            peer_id = peer_id;
            peer_hostname = peer_hostname;
            kind = kind;
            status = running;
            output = [];
            error = none;
            started_at = now;
            finished_at = none;
          }
              ∷ []),
    )

-- What RecordTaskFinish is about to write: status, output and error.
pub record Finish : Type 0 where
  pub status : TaskStatus
  pub output : Text
  pub error : Option Text

-- `errVal`
null_if_empty : Text → Option Text
unfolding is_empty
null_if_empty s = if is_empty s then none else some s

unfoldable pub finish_values : TaskStatus → Text → Text → Finish
unfolding null_if_empty is_done
finish_values status output err_msg =
    if is_done status && ltb max_task_output (length output)
    then record {
      status = failed;
      output = [];
      error = null_if_empty (codes "output exceeded " ++ (show max_task_output ++ codes " bytes"));
    }
    else record {
      status = status;
      output = if is_done status then output else [];
      error = null_if_empty err_msg;
    }

unfoldable pub write_finish : ℤ → Finish → TaskRecord → TaskRecord
write_finish now f r = record r {
  status = f.status;
  output = f.output;
  error = f.error;
  finished_at = some now;
}

unfoldable pub record_task_finish :
    Bool → ℤ → Role → Text → TaskStatus → Text → Text → Proc Table DbError (Unit {0})
record_task_finish fails now role task_id status output err_msg t =
    let f = finish_values status output err_msg in
    if fails
    then (err statement_failed, t)
    else if not (has_row (has_key role task_id) t)
    then (err task_not_found, t)
    else if not (is_listed f.status)
    then (err constraint_failed, t)
    else (ok tt, update (has_key role task_id) (write_finish now f) t)

scan_task : Bool → Option TaskRecord → Result DbError TaskRecord
scan_task true row = err statement_failed
scan_task false none = err task_not_found
scan_task false (some r) = ok r

unfoldable pub task : Bool → Role → Text → Table → Result DbError TaskRecord
unfolding scan_task
task fails role task_id t = scan_task fails (find (has_key role task_id) t)

-- ReceivedTaskFor: WHERE task_id = ? AND role = ? AND peer_id = ?
unfoldable pub is_for : Text → Text → TaskRecord → Bool
is_for task_id requester_id r = has_key received task_id r && text_eq r.peer_id requester_id

unfoldable pub received_task_for : Bool → Text → Text → Table → Result DbError TaskRecord
unfolding scan_task
received_task_for fails task_id requester_id t =
    scan_task fails (find (is_for task_id requester_id) t)

unfoldable pub interrupt : ℤ → TaskRecord → TaskRecord
interrupt now r = record r {
  status = interrupted;
  error = some (codes "node restarted");
  finished_at = some now;
}

unfoldable pub reconcile_stale_tasks : Bool → ℤ → Proc Table DbError (Unit {0})
unfolding is_running
reconcile_stale_tasks fails now t =
    if fails
    then (err statement_failed, t)
    else (ok tt, update (λ r. is_running r.status) (interrupt now) t)

-- NOT (started_at < ? AND status != 'running')
unfoldable pub survives : ℤ → TaskRecord → Bool
unfolding is_running
survives cutoff r = not (ltb_ℤ r.started_at cutoff && not (is_running r.status))

unfoldable pub prune_tasks : Bool → ℤ → Proc Table DbError (Unit {0})
prune_tasks fails cutoff t =
    if fails then (err statement_failed, t) else (ok tt, keep (survives cutoff) t)
