-- ===== src/Examples/Work.antt =====
-- A task dispatched, awaited and run, and the tables of a database (internal/node, internal/executor,
-- internal/db).
use edge_grid.Prelude.{
  ℕ, ◌≡◌, ◌≢◌, refl, true, false, Text, List, [], ◌∷◌, ◌++◌, codes, Option, some, none, length,
  arith, text_eq, All, ltb, if◌then◌else◌, ◌==◌,
}
use edge_grid.Prelude.Int.{pos}
use edge_grid.Prelude.Results.{ok, err}
use edge_grid.Json.{Codec}
use edge_grid.Net.{Conn, receiving}
use edge_grid.Blob.Wire.RoundTrip.{frame_of}
use edge_grid.Task.{Task, ResultResponse, running, done}
use edge_grid.Task.Outcome.{finished}
use edge_grid.Discovery.Hello.{Hello, intent_task}
use edge_grid.Discovery.Hello.Exchange.{hello_frame}
use edge_grid.Discovery.Members.{Peer}
use edge_grid.Node.Dispatch.{
  Poll, PollPlan, default_poll_plan, stuck, await_result, attempt, dispatch_task,
}
use edge_grid.Node.Dispatch.First.{Fails, IsTaken, dispatch_task-first}
use edge_grid.Node.Dispatch.Await.{await_result-ne-stuck, await_result-finished}
use edge_grid.Db.Migrate.{
  Schema, Database, TxEnd, committed, commit_fails, migrate, migrations, schema_version,
}
use edge_grid.Db.Migrate.Versions.{Consistent, migrate-Consistent}
use edge_grid.Db.Transfers
use edge_grid.Db.Transfers.Recorded.{
  IsConfirmed, start, finish, reconcile, run_all, run_all-IsConfirmed,
}
use edge_grid.Executor.{
  Definition, Executor, bare_run, new, supports, supported_by, find_kind, max_output,
  output_exceeded,
}
use edge_grid.Executor.Capped.{concat, bare_run-whole}

abbrev known : {A : Type 0} → A → Text → Codec A
known a body = record {
  marshal = λ _. some body;
  unmarshal = λ s. if text_eq s body then some a else none;
}

abbrev job : Task
job = record {
  id = codes "7f3c";
  kind = codes "bash";
  requirements = record { cpu_cores = pos 1; memory_mb = pos 64; gpu = false };
  input = codes "echo hi";
}

abbrev self : Hello
self = record { node_id = codes "n1"; intent = intent_task }

abbrev peer : Text → Peer
peer id = record {
  id = id;
  hostname = id;
  dns_name = [];
  ip = codes "100.64.0.1";
  online = true;
  last_seen = pos 0;
  cur_addr = [];
  relay = [];
  peer_relay = [];
}

-- The first peer is not there, the second accepts.
abbrev dial : Peer → Option Conn
dial p =
    if text_eq p.id (codes "n2")
    then some (receiving (hello_frame (codes "h") ++ frame_of none))
    else none

abbrev peers : List Peer
peers = peer (codes "n9") ∷ peer (codes "n2") ∷ peer (codes "n3") ∷ []

given :
    dispatch_task (known self (codes "h")) (known job (codes "{}")) self job dial peers
    ≡ ok (peer (codes "n2"))
unfolding dispatch_task attempt text_eq edge_grid.Discovery.Hello.exchange_as_dialer
    edge_grid.Discovery.Hello.write_hello edge_grid.Net.write edge_grid.Discovery.Hello.read_hello
    edge_grid.Net.read_full edge_grid.Net.put_u32 edge_grid.Blob.Wire.verdict_frame
    edge_grid.Net.put_u16 edge_grid.Net.u32 edge_grid.Task.Offer.offer
    edge_grid.Task.Offer.write_task edge_grid.Blob.Wire.read_verdict edge_grid.Net.u16
given = refl

dispatch_task-first_example :
    (before : List Peer) × (after : List Peer) × (peers ≡ before ++ (peer (codes "n2") ∷ after))
    × All (Fails (known self (codes "h")) (known job (codes "{}")) self job dial) before
    × IsTaken (known self (codes "h")) (known job (codes "{}")) self job (dial (peer (codes "n2")))
dispatch_task-first_example =
    dispatch_task-first (known self (codes "h")) (known job (codes "{}")) self job dial peers
      (peer (codes "n2")) given

abbrev answer : ResultResponse
answer = record { status = done; output = codes "hi"; error = [] }

-- The peer is away, then busy, then done.
abbrev polls : ℕ → Poll
polls i = if i == 0 then record { took = 5; answer = none } else record {
  took = 5;
  answer = some (if i == 1 then record answer { status = running } else answer);
}

await_result-ne-stuck_example : await_result default_poll_plan (some 4000) polls ≢ err stuck
await_result-ne-stuck_example =
    await_result-ne-stuck default_poll_plan (some 4000) polls (omega arith) (omega arith)

abbrev short_plan : PollPlan
short_plan = record { first = 2; max = 4; give_up = 40 }

collected : await_result short_plan none polls ≡ ok answer
unfolding await_result edge_grid.Node.Dispatch.await_loop edge_grid.Node.Dispatch.is_finished
    edge_grid.Node.Dispatch.context_end finished
collected = refl

await_result-finished_example :
    (j : ℕ) × ((polls j).answer ≡ some answer) × (finished answer.status ≡ true)
await_result-finished_example = await_result-finished short_plan none polls answer collected

abbrev fresh : Database
fresh = record { version = 0; applied = [] }

-- The second transaction fails.
abbrev half : ℕ → TxEnd
half v = if v == 0 then committed else commit_fails

migrate-Consistent_example : Consistent (migrate true half fresh).1
migrate-Consistent_example = migrate-Consistent true half fresh refl

upgraded : migrate true (λ v. committed) fresh ≡ (ok tt, (migrate true (λ v. committed) fresh).1)
unfolding migrate edge_grid.Db.Migrate.migrate_loop
upgraded = refl

run_all-IsConfirmed_example : All IsConfirmed (
    run_all
      (start false (pos 1) Transfers.inbound (codes "n1") (codes "a") (codes "f") (pos 9)
        ∷ finish false (pos 2) 1 Transfers.failed (codes "cut") (codes "e3b0")
        ∷ reconcile false (pos 3)
        ∷ [])
      [])
run_all-IsConfirmed_example =
    run_all-IsConfirmed
      (start false (pos 1) Transfers.inbound (codes "n1") (codes "a") (codes "f") (pos 9)
        ∷ finish false (pos 2) 1 Transfers.failed (codes "cut") (codes "e3b0")
        ∷ reconcile false (pos 3)
        ∷ [])
      [] tt

bare_run-whole_example : bare_run (codes "he" ∷ codes "llo" ∷ []) true ≡ (
    if ltb max_output (length (concat (codes "he" ∷ codes "llo" ∷ [])))
    then err output_exceeded
    else ok (concat (codes "he" ∷ codes "llo" ∷ [])))
bare_run-whole_example = bare_run-whole (codes "he" ∷ codes "llo" ∷ [])

abbrev shell : Definition
shell = record {
  kind = codes "bash";
  runtime = codes "bare";
  artifacts = [];
  entrypoint = codes "/bin/sh" ∷ [];
}

abbrev registry : Executor
registry = record { defs = shell ∷ []; runtimes = codes "bare" ∷ [] }

taken : new (shell ∷ []) (codes "bare" ∷ []) ≡ ok registry
unfolding new edge_grid.Executor.add_definitions edge_grid.Executor.validate find_kind
taken = refl
