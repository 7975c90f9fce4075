-- ===== src/Node/Dispatch.antt =====
-- internal/node/task_dispatch.go and task_await.go: giving a task to a peer, and waiting for its result.
pub mod First
pub mod Await
use edge_grid.Prelude.{
  ℕ, zero, suc, ◌+◌, ◌*◌, Bool, true, false, not, ◌&&◌, Text, List, [], ◌∷◌, ◌++◌, Option, none,
  some, min, leb, codes, if◌then◌else◌,
}
use edge_grid.Prelude.Int.{ℤ}
use edge_grid.Prelude.Results.{Result, ok, err}
use edge_grid.Proc.{Proc, continue}
use edge_grid.Net.{Conn}
use edge_grid.Json.{Codec}
use edge_grid.Db.Tasks
use edge_grid.Db.Tasks.{Table, sent, record_task_start, record_task_finish}
use edge_grid.Discovery.Hello.{Hello, HelloError, exchange_as_dialer}
use edge_grid.Discovery.Members.{Peer}
use edge_grid.Task.{
  Task, ResultStatus, ResultResponse, running, done, failed, interrupted, unknown, other,
}
use edge_grid.Task.Offer.{Error, offer}
use edge_grid.Task.Outcome.{finished, response_err}

-- Why a peer was skipped.
pub data Skipped : Type 0 where
  dial_failed : Skipped
  greeting_failed : HelloError → Skipped
  not_accepted : Error → Skipped

-- recordSentTask
unfoldable pub record_sent_task : Bool → ℤ → Task → Peer → Option Table → Option Table
record_sent_task fails now t peer none = none
record_sent_task fails now t peer (some table) =
    some (record_task_start fails now sent t.id peer.id peer.hostname t.kind table).1

module _ (hellos : Codec Hello) (tasks : Codec Task) (self : Hello) (t : Task) where
  greeted : Result HelloError Hello × Conn → Result Skipped (Unit {0})
  greeted (err e, c) = err (greeting_failed e)
  greeted (ok h, c) = elim (offer tasks t c).0 [ ok _ ↦ ok tt | err e ↦ err (not_accepted e) ]

  -- One round of the loop, on the connection that Dial gives, none for its error.
  unfoldable pub attempt : Option Conn → Result Skipped (Unit {0})
  unfolding greeted
  attempt none = err dial_failed
  attempt (some c) = greeted (exchange_as_dialer hellos true self c)

  -- The loop of DispatchTask: the peer that accepted, or what every peer was skipped for.
  unfoldable pub dispatch_task : (Peer → Option Conn) → List Peer → Result (List Skipped) Peer
  dispatch_task dial [] = err []
  dispatch_task dial (p ∷ ps) =
      let rest = dispatch_task dial ps in
      elim (attempt (dial p)) [
        | ok _ ↦ ok p
        | err e ↦ elim rest [ ok q ↦ ok q | err es ↦ err (e ∷ es) ]
      ]

-- One poll: how long it took, and its answer, or none for an error.
pub record Poll : Type 0 where
  pub took : ℕ
  pub answer : Option ResultResponse

-- pollPlan, in milliseconds
pub record PollPlan : Type 0 where
  pub first : ℕ
  pub max : ℕ
  pub give_up : ℕ

abbrev pub default_poll_plan : PollPlan
default_poll_plan = record { first = 1000; max = 10_000; give_up = 600_000 }

-- `timed_out` with whether there was a failed poll, or the caller's own cancellation. `stuck` is no
-- error of the program: the model's loop ran out of fuel.
pub data AwaitError : Type 0 where
  timed_out : Bool → AwaitError
  cancelled : AwaitError
  stuck : AwaitError

-- When the context ends: the plan's limit, or before it if the caller cancels.
unfoldable pub context_end : PollPlan → Option ℕ → ℕ
context_end plan none = plan.give_up
context_end plan (some c) = min c plan.give_up

gave_up : Bool → Bool → AwaitError
gave_up true by_caller = timed_out true
gave_up false true = cancelled
gave_up false false = timed_out false

unfoldable pub is_finished : Option ResultResponse → Bool
is_finished none = false
is_finished (some r) = finished r.status

failed_poll : Option ResultResponse → Bool
failed_poll none = true
failed_poll (some r) = false

or_zero : Option ResultResponse → ResultResponse
or_zero none = record { status = other []; output = []; error = [] }
or_zero (some r) = r

-- The loop of awaitResult, with fuel, the number of the poll, the time, the next wait and whether a poll
-- failed. `ends` is when the context ends; at the same moment it wins over the timer.
unfoldable pub await_loop :
    (ℕ → Poll) → ℕ → Bool → ℕ → ℕ → ℕ → ℕ → ℕ → Bool → Result AwaitError ResultResponse
unfolding gave_up failed_poll or_zero
await_loop polls ends by_caller longest zero i now wait last_err = err stuck
await_loop polls ends by_caller longest (suc fuel) i now wait last_err =
    let p = polls i in
    let later = now + p.took + wait in
    let rest =
      await_loop polls ends by_caller longest fuel (suc i) later (min (wait * 2) longest)
        (if failed_poll p.answer then true else last_err) in
    if is_finished p.answer
    then ok (or_zero p.answer)
    else if leb ends later
    then err (gave_up (if failed_poll p.answer then true else last_err) by_caller)
    else rest

before_limit : PollPlan → Option ℕ → Bool
before_limit plan none = false
before_limit plan (some c) = not (leb plan.give_up c)

-- awaitResult; a wait of a millisecond at least makes one round more than milliseconds enough.
unfoldable pub await_result : PollPlan → Option ℕ → (ℕ → Poll) → Result AwaitError ResultResponse
unfolding before_limit
await_result plan cancel polls =
    let ends = context_end plan cancel in
    await_loop polls ends (before_limit plan cancel) plan.max (suc ends) 0 0 plan.first false

-- db.TaskStatus(resp.Status)
task_status : ResultStatus → Tasks.TaskStatus
task_status running = Tasks.running
task_status done = Tasks.done
task_status failed = Tasks.failed
task_status interrupted = Tasks.interrupted
task_status unknown = Tasks.other (codes "unknown")
task_status (other s) = Tasks.other s

text_of : Option Text → Text
text_of none = []
text_of (some s) = s

sent_status : ResultResponse → ResultStatus → Tasks.TaskStatus × Text
unfolding task_status text_of
sent_status r unknown = (Tasks.failed, text_of (response_err r))
sent_status r s = (task_status s, r.error)

-- recordSentResult: the status and the error that it stores on the sent row, and the table after it.
unfoldable pub stored_status : ResultResponse → Tasks.TaskStatus × Text
unfolding sent_status
stored_status r = sent_status r r.status

unfoldable pub record_sent_result : Bool → ℤ → Text → ResultResponse → Option Table → Option Table
record_sent_result fails now id r none = none
record_sent_result fails now id r (some t) =
    let (status, msg) = stored_status r in
    some (record_task_finish fails now sent id status r.output msg t).1
