-- ===== src/Task/Outcome.antt =====
-- internal/task/result.go: asking the executing node how a task went.
pub mod Exchange
use edge_grid.Prelude.{
  ℕ, ◌%◌, ◌^◌, Bool, true, false, not, Text, List, [], ◌∷◌, ◌++◌, drop, length, Option, none, some,
  ltb, ◌==◌, codes,
}
use edge_grid.Prelude.Results.{Result, ok, err, or_fail}
use edge_grid.Proc.{Proc, pure, lift, refuse_when, ◌>>=◌, ◌>>◌}
use edge_grid.Net.{Conn, read_full, write, first, put_u32, u32}
use edge_grid.Json.{Codec}
use edge_grid.Task.{
  Uuids, ResultStatus, ResultRequest, ResultResponse, running, done, failed, interrupted, unknown,
  other, result_wire_version, max_result_size,
}

pub data ResultError : Type 0 where
  encode write_failed read_header read_body decode : ResultError
  frame_too_big too_long unsupported_version : ℕ → ResultError
  unknown_status : Text → ResultError

unfoldable pub status_valid : ResultStatus → Bool
status_valid (other s) = false
status_valid _ = true

-- Finished: any status but running.
unfoldable pub finished : ResultStatus → Bool
finished running = false
finished _ = true

abbrev pub status_text : ResultStatus → Text
status_text running = codes "running"
status_text done = codes "done"
status_text failed = codes "failed"
status_text interrupted = codes "interrupted"
status_text unknown = codes "unknown"
status_text (other s) = s

-- ResultResponse.Err: none is nil, otherwise the error's text.
err_as : ResultStatus → Text → Option Text
err_as done e = none
err_as unknown e = some (codes "the executing node has no record of this task")
err_as running e = some (codes "task is still running")
err_as s e = some (codes "task " ++ (status_text s ++ (codes ": " ++ e)))

unfoldable pub response_err : ResultResponse → Option Text
unfolding err_as
response_err r = err_as r.status r.error

module _ {A : Type 0} (json : Codec A) where
  unfoldable pub write_result_frame : A → Proc Conn ResultError (Unit {0})
  write_result_frame v = do
    body ← lift (or_fail (json.marshal v) encode)
    refuse_when (ltb max_result_size (length body)) (frame_too_big (length body))
    write ((result_wire_version ∷ put_u32 (length body % 2 ^ 32)) ++ body) write_failed

  unfoldable pub read_result_frame : Proc Conn ResultError A
  read_result_frame = do
    hdr ← read_full 5 read_header
    refuse_when (not (first hdr == result_wire_version)) (unsupported_version (first hdr))
    refuse_when (ltb max_result_size (u32 (drop 1 hdr))) (too_long (u32 (drop 1 hdr)))
    body ← read_full (u32 (drop 1 hdr)) read_body
    lift (or_fail (json.unmarshal body) decode)

abbrev pub unknown_response : ResultResponse
unknown_response = record { status = unknown; output = []; error = [] }

-- A malformed ID is answered as unknown, without a lookup.
unfoldable pub answer_for : Option Text → (Text → ResultResponse) → Text → ResultResponse
answer_for none lookup task_id = lookup task_id
answer_for (some e) lookup task_id = unknown_response

module _ (requests : Codec ResultRequest) (responses : Codec ResultResponse) where
  unfoldable pub ask_result : Text → Proc Conn ResultError ResultResponse
  ask_result task_id = do
    write_result_frame requests (record { task_id = task_id })
    resp ← read_result_frame responses
    refuse_when (not (status_valid resp.status)) (unknown_status (status_text resp.status))
    pure resp

  unfoldable pub serve_result : Uuids → (Text → ResultResponse) → Proc Conn ResultError (Unit {0})
  serve_result uuids lookup = do
    req ← read_result_frame requests
    write_result_frame responses (answer_for (uuids.parse_error req.task_id) lookup req.task_id)
