-- ===== src/Examples/Exchange.antt =====
-- One task offered and its result asked for (internal/task).
use edge_grid.Prelude.{
  ◌≡◌, ◌↔◌, refl, true, false, Text, [], codes, text_eq, some, none, if◌then◌else◌, arith, is_empty,
}
use edge_grid.Prelude.Int.{pos}
use edge_grid.Prelude.Results.{ok, err}
use edge_grid.Proc.{Proc}
use edge_grid.Json.{Codec}
use edge_grid.Blob.Wire.RoundTrip.{conn}
use edge_grid.Task.{Task, Uuids, ResultRequest, ResultResponse, done}
use edge_grid.Task.Offer.{validate, write_task, offer, process_task}
use edge_grid.Task.Offer.Agreement.{decide, worker, offer_agrees}
use edge_grid.Task.Outcome.{ask_result, serve_result, status_valid, answer_for}
use edge_grid.Task.Outcome.Exchange.{result_frame, ask-serve}

abbrev known : {A : Type 0} → A → Text → Codec A
known a body = record {
  marshal = λ _. some body;
  unmarshal = λ s. if text_eq s body then some a else none;
}

-- A stand-in for uuid.Parse, which takes every text that is not empty.
abbrev uuids : Uuids
uuids = record {
  parse_error = λ s. if is_empty s then some (codes "invalid UUID length: 0") else none;
}

abbrev job : Task
job = record {
  id = codes "7f3c";
  kind = codes "bash";
  requirements = record { cpu_cores = pos 1; memory_mb = pos 64; gpu = false };
  input = codes "echo hi";
}

abbrev body : Text
body = codes "{}"

decoded : (known job body).unmarshal body ≡ some job
unfolding text_eq
decoded = refl

-- The policy remembers the last task's kind.
refuse_all : Task → Proc Text Text (Unit {0})
refuse_all t s = (err (codes "busy"), t.kind)

offer_agrees_example :
    let sent = (write_task (known job body) job (conn [] [] [])).1.outgoing in
    let (r, w) =
      process_task
        (known job body)
        uuids
        refuse_all
        (worker (known job body) uuids refuse_all sent [] []) in
    let (o, c) = offer (known job body) job (conn w.conn.outgoing [] []) in
    let (decided, _, after) = decide refuse_all job (validate uuids job) [] in
    (r ≡ decided) × (w.policy ≡ after) × (c.outgoing ≡ sent) × ((o ≡ ok tt) ↔ (r ≡ ok job))
offer_agrees_example =
    offer_agrees (known job body) uuids refuse_all job body [] refl decoded (omega arith)

abbrev request : ResultRequest
request = record { task_id = codes "7f3c" }

abbrev response : ResultResponse
response = record { status = done; output = codes "hi"; error = [] }

request_decoded : (known request body).unmarshal body ≡ some request
unfolding text_eq
request_decoded = refl

response_decoded : (known response body).unmarshal body ≡ some response
unfolding text_eq
response_decoded = refl

done_valid : status_valid done ≡ true
unfolding status_valid
done_valid = refl

ask-serve_example :
    (serve_result
        (known request body)
        (known response body)
        uuids
        (λ id. response)
        (conn (result_frame body) [] [])
      ≡ (ok tt, conn [] (result_frame body) []))
    × (ask_result
          (known request body)
          (known response body)
          (codes "7f3c")
          (conn (result_frame body) [] [])
        ≡ (ok response, conn [] (result_frame body) []))
unfolding answer_for is_empty
ask-serve_example =
    ask-serve (known request body) (known response body) uuids (λ id. response) (codes "7f3c") body
      body refl request_decoded (omega arith) refl response_decoded (omega arith) done_valid
