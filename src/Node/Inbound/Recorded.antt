-- ===== src/Node/Inbound/Recorded.antt =====
-- What receiveBlob writes into the history.
use edge_grid.Prelude.{
  ℕ, suc, ◌≡◌, refl, ap, ◌∙◌, Bool, true, false, Text, [], ◌∷◌, ◌++◌, ◌⊎◌, inl, inr, Option, none,
  some, is_empty, Bool-cases, if◌then◌else◌,
}
use edge_grid.Prelude.Int.{ℤ}
use edge_grid.Prelude.Results.{Result, ok, err}
use edge_grid.Proc.{Proc}
use edge_grid.Net.{Conn}
use edge_grid.Json.{Codec}
use edge_grid.Blob.{Manifest}
use edge_grid.Blob.SafeName.{safe_name}
use edge_grid.Blob.Validate.{Invalid, validate}
use edge_grid.Blob.Wire.{Error, read_manifest, invalid}
use edge_grid.Blob.Receive.{Receiver, receive}
use edge_grid.Blob.Receive.Judged.{Judged, receive-Judged}
use edge_grid.Db.Transfers
use edge_grid.Db.Transfers.{
  TransferRow, Rows, Status, done, refused, failed, in_progress, last_id, update, record_start,
  record_finish, finish_row,
}
use edge_grid.Node.Accept.{Refusal, check_accept}
use edge_grid.Node.Inbox.{Names, InboxError, reserve_inbox_file}
use edge_grid.Node.Transfers.{
  Registry, start, inbound, record_transfer_start, record_transfer_finish, finish_status,
  error_text as text_of,
}
use edge_grid.Node.Transfers.Settled.{new_row, start-row, finish-row}
use edge_grid.Node.Inbound.{
  WhoIs, Outside, Accepting, BlobNode, Finished, accept, decide, recorded, reserved, after_receive,
  receive_blob, stable_id_of, label_of, unasked,
}

is_refusal : Result Refusal (Unit {0}) → Bool
is_refusal (ok _) = false
is_refusal (err e) = true

reserved-keeps :
    (r : Result InboxError Text × Names) (s : Accepting)
    → ((reserved r s).1.row ≡ s.row)
      × ((reserved r s).1.history ≡ s.history)
      × ((reserved r s).1.refused ≡ s.refused)
unfolding reserved
reserved-keeps (ok path, names) s = (refl, refl, refl)
reserved-keeps (err e, names) s = (refl, refl, refl)

decide-keeps :
    (parse_time : Text → Option ℤ) (o : Outside) (m : Manifest) (v : Result Refusal (Unit {0}))
    (s : Accepting)
    → s.refused ≡ false
    → ((decide parse_time o m v s).1.row ≡ s.row)
      × ((decide parse_time o m v s).1.history ≡ s.history)
      × ((decide parse_time o m v s).1.refused ≡ is_refusal v)
unfolding decide is_refusal
decide-keeps parse_time o m (err e) s h = (refl, refl, refl)
decide-keeps parse_time o m (ok _) s h = elim (Bool-cases o.makes_inbox) [
  | inr b ↦ rw b (refl, refl, h)
  | inl b ↦
      let (x, y, z) = reserved-keeps (reserve_inbox_file o.opens (safe_name m.name) s.names) s in
      rw b (x, y, z ∙ h)
]

-- What the status of a transfer is to be, by the policy's decision and the end of Receive.
abbrev pub status_of : Result Refusal (Unit {0}) → Result Error Manifest → Status
status_of v (ok m) = done
status_of (ok _) (err e) = failed
status_of (err _) (err e) = refused

abbrev pub hash_of : Result Error Manifest → Text
hash_of (ok m) = m.sha256
hash_of (err e) = []

module _ (json : Codec Manifest) (sha256_hex : Text → Text) (parse_time : Text → Option ℤ)
    (error_text : Error → Text) (o : Outside) where
  abbrev pub error_of : Result Error Manifest → Option Text
  error_of (ok m) = none
  error_of (err e) = if is_empty (error_text e) then none else some (error_text e)

  -- The row that a transfer of the manifest m from this peer is to have.
  abbrev pub final_row : Option WhoIs → Text → Rows → Manifest → Result Error Manifest → TransferRow
  final_row who claimed t m r = record {
    id = suc (last_id t);
    direction = Transfers.inbound;
    peer_id = stable_id_of who;
    peer_hostname = label_of who claimed;
    file_name = m.name;
    file_size = m.size;
    sha256 = hash_of r;
    status =
        status_of (check_accept parse_time o.acl o.override o.space (stable_id_of who) m.size) r;
    error = error_of r;
    started_at = o.started_at;
    finished_at = some o.finished_at;
  }

  -- What a transfer leaves in the history: no row, if no manifest could be read or the one that arrived
  -- is invalid, and else one of the manifest that arrived.
  abbrev pub Leaves : Option WhoIs → Text → Rows → Result Error Manifest → Finished → Type 0
  Leaves who claimed t offered f =
      ((e : Error) × (offered ≡ err e) × (f.result ≡ some (err e)) × (f.node.history ≡ some t))
      ⊎ (((m : Manifest) × (v : Invalid) × (offered ≡ ok m)
            × (validate m ≡ err v)
            × (f.result ≡ some (err (invalid v)))
            × (f.node.history ≡ some t))
          ⊎ ((m : Manifest) × (offered ≡ ok m)
              × (validate m ≡ ok tt)
              × (r : Result Error Manifest) × (f.result ≡ some r)
              × ((r ≡ ok m) ⊎ ((e : Error) × (r ≡ err e)))
              × (f.node.history ≡ some (t ++ (final_row who claimed t m r ∷ [])))))

  module _ (who : Option WhoIs) (claimed : Text) (n : BlobNode) (t : Rows)
      (old : n.history ≡ some t) (starts : o.start_fails ≡ false)
      (finishes : o.finish_fails ≡ false) where
    abbrev callback : Manifest → Proc Accepting Text Text
    callback = accept parse_time o (stable_id_of who) (label_of who claimed)

    -- The row before the outcome is known.
    abbrev first_row : Manifest → TransferRow
    first_row m =
        new_row o.started_at Transfers.inbound (stable_id_of who) (label_of who claimed) m.name
          m.size t

    asked :
        (m : Manifest)
        → ((callback m (unasked n)).1.row ≡ some (suc (last_id t)))
          × ((callback m (unasked n)).1.history ≡ some (t ++ (first_row m ∷ [])))
          × ((callback m (unasked n)).1.refused
              ≡ is_refusal
                  (check_accept parse_time o.acl o.override o.space (stable_id_of who) m.size))
    unfolding accept recorded unasked
    asked m =
        let v = check_accept parse_time o.acl o.override o.space (stable_id_of who) m.size in
        let started =
          record_transfer_start o.start_fails o.started_at Transfers.inbound (stable_id_of who)
            (label_of who claimed) m.name m.size n.history in
        let (x, y, z) = decide-keeps parse_time o m v (recorded started (unasked n)) refl in
        let row =
          start-row o.start_fails o.started_at Transfers.inbound (stable_id_of who)
            (label_of who claimed) m.name m.size n.history t starts old in
        (
          x ∙ ap (λ (z : Option ℕ × Option Rows). z.0) row,
          y ∙ ap (λ (z : Option ℕ × Option Rows). z.1) row,
          z,
        )

    failed_row :
        (m : Manifest) (e : Error) (v : Result Refusal (Unit {0}))
        → finish_row o.finished_at
            (finish_status (some (error_text e)) (is_refusal v))
            (text_of (some (error_text e)))
            []
            (first_row m)
          ≡ record (final_row who claimed t m (err e)) { status = status_of v (err e) }
    unfolding finish_row finish_status is_refusal text_of
    failed_row m e (ok _) = refl
    failed_row m e (err _) = refl

    done_row :
        (m w : Manifest) (b : Bool)
        → finish_row o.finished_at (finish_status none b) (text_of none) w.sha256 (first_row m)
          ≡ final_row who claimed t m (ok w)
    unfolding finish_row finish_status text_of is_empty
    done_row m w b = refl

    -- The end of a transfer whose manifest m the policy was asked about.
    finished :
        (m : Manifest) (a : Accepting) (e : Option Text) (sha256 : Text)
        → a ≡ (callback m (unasked n)).1
        → record_transfer_finish o.finish_fails o.finished_at a.row e a.refused sha256 a.history
          ≡ some (
              t
              ++ (finish_row o.finished_at
                    (finish_status e (
                      is_refusal (
                        check_accept parse_time o.acl o.override o.space
                          (stable_id_of who)
                          m.size)))
                    (text_of e)
                    sha256
                    (first_row m)
                  ∷ []))
    finished m a e sha256 h =
        let (x, y, z) = asked m in
        rw h (
          rw x (
            rw y (
              rw z (
                finish-row o.finish_fails o.finished_at e _ sha256 t (first_row m) finishes refl))))

    after_receive-Leaves :
        (p : ℕ) (r : Registry) (offered : Result Error Manifest)
        (q : Result Error Manifest × Receiver Accepting)
        → Judged callback (unasked n) offered q
        → Leaves who claimed t offered (after_receive json sha256_hex parse_time error_text o p r q)
    unfolding after_receive unasked record_transfer_finish
    after_receive-Leaves p r offered (err e, s) (inl (x, read, bad, same)) =
        inl (x, read, ap some bad, rw same old)
    after_receive-Leaves p r offered (err e, s) (inr (inl (m, v, read, checked, bad, same))) =
        inr (inl (m, v, read, checked, ap some bad, rw same old))
    after_receive-Leaves p r offered (err e, s) (inr (inr (m, read, checked, same, _))) = inr (
        inr (
          m,
          read,
          checked,
          err e,
          refl,
          inr (e, refl),
          finished m s.policy (some (error_text e)) [] same
              ∙ ap (λ (x : TransferRow). some (t ++ (x ∷ []))) (failed_row m e _),
        ))
    after_receive-Leaves p r offered (ok w, s) (inl (_, _, bad, _)) = absurd cc
    after_receive-Leaves p r offered (ok w, s) (inr (inl (_, _, _, _, bad, _))) = absurd cc
    after_receive-Leaves p r offered (ok w, s) (inr (inr (m, read, checked, same, returned))) =
        inr (
          inr (
            m,
            read,
            checked,
            ok w,
            refl,
            inl (ap ok (returned w refl)),
            finished m s.policy none w.sha256 same
                ∙ ap (λ (x : TransferRow). some (t ++ (x ∷ []))) (done_row m w _),
          ))

    -- With a history and statements that go through, a transfer leaves no row exactly where no manifest
    -- can be read or the one that was read is invalid, and the result is that error; for every
    -- other it leaves exactly one row behind those before it, which is settled: of the manifest that was
    -- read and the peer that WhoIs names, done with the manifest's hash if Receive returned it, and
    -- otherwise with the error's text, refused if the policy refused and failed if not.
    pub receive_blob-recorded :
        (conn : Conn)
        → o.sets_deadline ≡ true
        → Leaves who claimed t
            (read_manifest json conn).0
            (receive_blob json sha256_hex parse_time error_text o who claimed conn n)
    unfolding receive_blob accept
    receive_blob-recorded conn d =
        let s : Receiver Accepting = record {
          conn = conn;
          policy = unasked n;
          file = none;
          reports = [];
        } in
        rw d (
          after_receive-Leaves (suc n.registry.created)
            (start inbound (label_of who claimed) n.registry) (read_manifest json conn).0
            (receive json sha256_hex o.disk callback s)
            (receive-Judged callback (unasked n) json sha256_hex o.disk s refl))
