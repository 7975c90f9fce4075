-- ===== src/Task/Outcome/Exchange.antt =====
-- What a result exchange leads to at the two ends.
use edge_grid.Prelude.{
  suc, ◌%◌, ◌^◌, ◌≤◌, ◌≡◌, refl, ap, true, Text, List, [], ◌∷◌, ◌++◌, some, length, arith,
  append-nil, append_assoc, le→ltb_false,
}
use edge_grid.Prelude.Results.{ok}
use edge_grid.Net.{WriteOutcome, put_u32}
use edge_grid.Net.Laws.{read_full-append, write_ok, length-put_u32, u32-put_u32_small}
use edge_grid.Json.{Codec}
use edge_grid.Blob.Wire.RoundTrip.{conn}
use edge_grid.Task.{Uuids, ResultRequest, ResultResponse, result_wire_version, max_result_size}
use edge_grid.Task.Outcome.{
  write_result_frame, read_result_frame, ask_result, serve_result, answer_for, status_valid,
}

abbrev pub result_frame : Text → Text
result_frame body = (result_wire_version ∷ put_u32 (length body % 2 ^ 32)) ++ body

module _ {A : Type 0} (json : Codec A) (v : A) (body : Text)
    (fits : length body ≤ max_result_size) where
  pub write_result_frame_ok :
      json.marshal v ≡ some body
      → (inc out : Text)
      → write_result_frame json v (conn inc out [])
        ≡ (ok tt, conn inc (out ++ result_frame body) [])
  unfolding write_result_frame
  write_result_frame_ok h inc out = rw (h, le→ltb_false _ _ fits, write_ok)

  pub read_result_frame-frame :
      json.unmarshal body ≡ some v
      → (rest out : Text) (ws : List WriteOutcome)
      → read_result_frame json (conn (result_frame body ++ rest) out ws) ≡ (ok v, conn rest out ws)
  unfolding read_result_frame
  read_result_frame-frame h rest out ws =
      let hdr = result_wire_version ∷ put_u32 (length body % 2 ^ 32) in
      rw
        (
          append_assoc hdr body rest,
          read_full-append 5 _ hdr (body ++ rest) out ws (ap suc (length-put_u32 _)),
          u32-put_u32_small (length body) (omega arith),
        )
        (rw (le→ltb_false _ _ fits, read_full-append (length body) _ body rest out ws refl, h))

-- The dispatcher gets the answer that the executing node looked up: its request goes over, the
-- node answers once, as unknown without a lookup if the ID is malformed, and AskResult returns
-- that answer. The bodies must fit their limit, decode to what was encoded, and hold a known
-- status, and no write fails.
pub ask-serve :
    (requests : Codec ResultRequest) (responses : Codec ResultResponse) (uuids : Uuids)
    (lookup : Text → ResultResponse) (task_id asked answer : Text)
    → let resp = answer_for (uuids.parse_error task_id) lookup task_id in
      requests.marshal (record { task_id = task_id }) ≡ some asked
      → requests.unmarshal asked ≡ some (record { task_id = task_id })
      → length asked ≤ max_result_size
      → responses.marshal resp ≡ some answer
      → responses.unmarshal answer ≡ some resp
      → length answer ≤ max_result_size
      → status_valid resp.status ≡ true
      → (serve_result requests responses uuids lookup (conn (result_frame asked) [] [])
          ≡ (ok tt, conn [] (result_frame answer) []))
        × (ask_result requests responses task_id (conn (result_frame answer) [] [])
            ≡ (ok resp, conn [] (result_frame asked) []))
unfolding ask_result serve_result
ask-serve requests responses uuids lookup task_id asked answer me ud fits me' ud' fits' known =
    let resp = answer_for (uuids.parse_error task_id) lookup task_id in
    let req : ResultRequest = record { task_id = task_id } in
    (
      rw (
        rw append-nil at (read_result_frame-frame requests req asked fits ud [] [] []),
        write_result_frame_ok responses resp answer fits' me' [] [],
      ),
      rw (
        write_result_frame_ok requests req asked fits me (result_frame answer) [],
        rw append-nil at
            (read_result_frame-frame responses resp answer fits' ud' [] (result_frame asked) []),
        known,
      ),
    )
