-- ===== src/Node/Tasks.antt =====
-- internal/node/task_slot.go, task_receive.go and task_result.go: a node that runs offered tasks, one
-- at a time, and answers for their results.
pub mod Slot
pub mod Row
pub mod Answer
use edge_grid.Prelude.{
  ℕ, Bool, true, false, not, Text, List, [], ◌∷◌, ◌++◌, Option, none, some, codes, is_empty,
  if◌then◌else◌,
}
use edge_grid.Prelude.Int.{ℤ}
use edge_grid.Prelude.Results.{Result, ok, err}
use edge_grid.Proc.{Proc}
use edge_grid.Net.{Conn}
use edge_grid.Json.{Codec}
use edge_grid.Db.Tasks
use edge_grid.Db.Tasks.{
  Table, DbError, TaskRecord, TaskStatus, sent, received, record_task_start, record_task_finish,
  received_task_for, prune_tasks,
}
use edge_grid.Task.{
  Task, Uuids, ResultStatus, ResultResponse, running, done, failed, interrupted, unknown, other,
}
use edge_grid.Task.Offer.{Error, Worker, process_task}
use edge_grid.Task.Outcome.{unknown_response, response_err}

-- TaskSlot.busy, and the database where the node has one.
pub record TaskNode : Type 0 where
  pub busy : Bool
  pub history : Option Table

-- TryClaim and Release
unfoldable pub try_claim : TaskNode → Bool × TaskNode
try_claim n = if n.busy then (false, n) else (true, record n { busy = true })

unfoldable pub release : TaskNode → TaskNode
release n = record n { busy = false }

-- finishTask: an error of the database is only logged.
finish_in : Bool → ℤ → Text → TaskStatus → Text → Text → Option Table → Option Table
finish_in fails now id status out msg none = none
finish_in fails now id status out msg (some t) =
    some (record_task_finish fails now received id status out msg t).1

unfoldable pub finish_task : Bool → ℤ → Text → TaskStatus → Text → Text → TaskNode → TaskNode
unfolding finish_in
finish_task fails now id status out msg n = record n {
  history = finish_in fails now id status out msg n.history;
}

-- Who offers: the StableID that Tailscale attributes, empty where there is none, and a label.
pub record Offerer : Type 0 where
  pub stable_id : Text
  pub label : Text

-- Who is what WhoIs knows of the peer, a StableID and a ComputedName; the label falls back on the
-- peer's own hello.
unfoldable pub offerer : Option (Text × Text) → Text → Offerer
offerer none node_id = record { stable_id = []; label = node_id }
offerer (some (id, name)) node_id = record {
  stable_id = id;
  label = if is_empty name then node_id else name;
}

-- What accept reads and sets: the node, and the variable `claimed`.
pub record Accepting : Type 0 where
  pub node : TaskNode
  pub claimed : Option Task

-- The last steps of accept, from the slot on, with the result of RecordTaskStart.
recorded : Result DbError (Unit {0}) × Table → Task → Proc Accepting Text (Unit {0})
unfolding release
recorded (ok _, u) t s =
    (ok tt, record { node = record s.node { history = some u }; claimed = some t })
recorded (err e, u) t s = (
  err (codes "this node can't record results"),
  record s { node = release (record s.node { history = some u }) },
)

claim_and_record : Bool → ℤ → Offerer → Task → Option Table → Proc Accepting Text (Unit {0})
unfolding recorded try_claim
claim_and_record fails now peer t none s = (err (codes "this node can't record results"), s)
claim_and_record fails now peer t (some table) s =
    let (free, node) = try_claim s.node in
    if free
    then recorded (record_task_start fails now received t.id peer.stable_id peer.label t.kind table)
        t (record s { node = node })
    else (err (codes "this node is already running a task"), s)

-- The closure `accept` of receiveTask. `allows` is what checkTaskAccept says of the peer, and `fails`
-- and `now` are the database's outcome and the clock; `quote` is strconv.Quote, for %q.
unfoldable pub accept_task :
    (Text → Text)
    → Bool
    → (Text → Bool)
    → Bool
    → ℤ
    → Offerer
    → Task
    → Proc Accepting Text (Unit {0})
unfolding claim_and_record
accept_task quote allows supports fails now peer t s =
    if not allows
    then (err (codes "this node is not accepting tasks from you"), s)
    else if not (supports t.kind)
    then (err (codes "this node cannot run task kind " ++ quote t.kind), s)
    else claim_and_record fails now peer t s.node.history s

-- After ProcessTask: an offer that failed gives its slot back, one that went through prunes.
undo_claim : Bool → ℤ → Option Task → TaskNode → TaskNode
unfolding release finish_task
undo_claim fails now none n = n
undo_claim fails now (some t) n =
    finish_task fails now t.id Tasks.failed [] (codes "verdict not delivered") (release n)

prune_in : Bool → ℤ → Option Table → Option Table
prune_in fails cutoff none = none
prune_in fails cutoff (some t) = some (prune_tasks fails cutoff t).1

unfoldable pub after_offer : Bool → ℤ → ℤ → Result Error Task → Accepting → TaskNode
unfolding undo_claim prune_in
after_offer fails now cutoff (ok t) s = record s.node {
  history = prune_in fails cutoff s.node.history;
}
after_offer fails now cutoff (err e) s = undo_claim fails now s.claimed s.node

-- receiveTask up to the start of the run: the task to run, or an error. `start_fails` and
-- `later_fails` are the outcomes of RecordTaskStart and of what follows it, and `cutoff` is a
-- week before now.
unfoldable pub receive_task :
    Codec Task
    → Uuids
    → (Text → Text)
    → Bool
    → (Text → Bool)
    → Bool
    → Bool
    → ℤ
    → ℤ
    → Offerer
    → Conn
    → TaskNode
    → Result Error Task × Conn × TaskNode
receive_task json uuids quote allows supports start_fails later_fails now cutoff peer c n =
    let (r, w) =
      process_task json uuids (accept_task quote allows supports start_fails now peer)
        (record { conn = c; policy = record { node = n; claimed = none } }) in
    (r, w.conn, after_offer later_fails now cutoff r w.policy)

-- How Executor.Run ends: the output, or an error and whether the node was shutting down.
pub data RunEnd : Type 0 where
  output : Text → RunEnd
  run_failed : Text → Bool → RunEnd

-- The goroutine of receiveTask, from the end of the run on.
unfoldable pub end_run : Bool → ℤ → Text → RunEnd → TaskNode → TaskNode
end_run fails now id (output out) n = release (finish_task fails now id Tasks.done out [] n)
end_run fails now id (run_failed msg stopping) n =
    release
      (finish_task fails now id (if stopping then Tasks.interrupted else Tasks.failed) [] msg n)

-- task.ResultStatus(rec.Status)
unfoldable pub result_status : TaskStatus → ResultStatus
result_status Tasks.running = running
result_status Tasks.done = done
result_status Tasks.failed = failed
result_status Tasks.interrupted = interrupted
result_status (Tasks.other s) = other s

-- errMsg.String: NULL reads as the empty text.
text_or_empty : Option Text → Text
text_or_empty none = []
text_or_empty (some s) = s

answer_row : Result DbError TaskRecord → ResultResponse
unfolding text_or_empty result_status
answer_row (err e) = unknown_response
answer_row (ok r) = record {
  status = result_status r.status;
  output = r.output;
  error = text_or_empty r.error;
}

lookup_in : Bool → Text → Text → Option Table → ResultResponse
unfolding answer_row
lookup_in fails task_id requester none = unknown_response
lookup_in fails task_id requester (some t) =
    if is_empty requester
    then unknown_response
    else answer_row (received_task_for fails task_id requester t)

-- lookupResult, the lookup behind receiveResult.
unfoldable pub lookup_result : Bool → Text → Text → TaskNode → ResultResponse
unfolding lookup_in
lookup_result fails task_id requester n = lookup_in fails task_id requester n.history
