-- ===== src/Examples/Records.antt =====
-- A table with one running and one finished task (internal/db).
use edge_grid.Prelude.{◌≡◌, refl, true, false, List, [], ◌∷◌, codes, some, none, text_eq}
use edge_grid.Prelude.Int.{pos}
use edge_grid.Prelude.Results.{ok}
use edge_grid.Db.Tasks.{
  TaskRecord, Table, sent, received, running, done, failed, record_task_start, task,
  received_task_for, has_row, has_key, is_listed, finish_values, keep, same_role, find,
}
use edge_grid.Db.Tasks.Keys.{KeysUnique}
use edge_grid.Db.Tasks.Invariant.{
  IsValid, Operation, start, finish, reconcile, prune, run_all, run_all-IsValid,
}
use edge_grid.Db.Tasks.Lookup.{task-record_task_start, received_task_for_own}

abbrev asked : TaskRecord
asked = record {
  task_id = codes "a1";
  role = received;
  peer_id = codes "nPeer";
  peer_hostname = codes "alpha";
  kind = codes "bash";
  status = running;
  output = [];
  error = none;
  started_at = pos 100;
  finished_at = none;
}

abbrev ended : TaskRecord
ended = record asked {
  task_id = codes "b2";
  status = done;
  output = codes "hi";
  finished_at = some (pos 90);
  started_at = pos 80;
}

abbrev table : Table
table = ended ∷ asked ∷ []

-- Another table that operations make from an empty one, with a duplicate start and an output that is
-- too long for its status.
abbrev calls : List Operation
calls =
    start false (pos 1) received (codes "a1") (codes "nPeer") (codes "alpha") (codes "bash")
    ∷ start false (pos 2) received (codes "a1") (codes "nOther") (codes "beta") (codes "bash")
    ∷ finish false (pos 3) received (codes "a1") failed (codes "lost") (codes "exit status 1")
    ∷ reconcile false (pos 4)
    ∷ prune false (pos 5)
    ∷ []

run_all-IsValid_example : IsValid (run_all calls [])
run_all-IsValid_example = run_all-IsValid calls [] (tt, tt)

not_there : has_row (has_key sent (codes "a1")) table ≡ false
unfolding has_row has_key text_eq same_role
not_there = refl

there : task false received (codes "a1") table ≡ ok asked
unfolding task find has_key text_eq same_role
there = refl

done_listed : is_listed (finish_values done (codes "ok") []).status ≡ true
unfolding is_listed finish_values
done_listed = refl

unique : KeysUnique table
unfolding has_row has_key text_eq same_role
unique = (refl, (refl, tt))

task-record_task_start_example :
    let (result, u) =
      record_task_start false
        (pos 7)
        sent
        (codes "a1")
        (codes "nExec")
        (codes "gamma")
        (codes "bash")
        table in
    (result ≡ ok tt)
    × (task false sent (codes "a1") u
        ≡ ok (record {
          task_id = codes "a1";
          role = sent;
          peer_id = codes "nExec";
          peer_hostname = codes "gamma";
          kind = codes "bash";
          status = running;
          output = [];
          error = none;
          started_at = pos 7;
          finished_at = none;
        }))
task-record_task_start_example =
    task-record_task_start (pos 7) sent (codes "a1") (codes "nExec") (codes "gamma") (codes "bash")
      table not_there

received_task_for_own_example :
    received_task_for false (codes "a1") (codes "nOther") table
    ≡ received_task_for false
        (codes "a1")
        (codes "nOther")
        (keep (λ r. text_eq r.peer_id (codes "nOther")) table)
received_task_for_own_example = received_task_for_own false (codes "a1") (codes "nOther") table
