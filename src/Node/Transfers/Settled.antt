-- ===== src/Node/Transfers/Settled.antt =====
-- The row of a transfer, from recordTransferStart to recordTransferFinish.
use edge_grid.Prelude.{
  ℕ, suc, ◌<◌, ◌≡◌, refl, ap, Bool, false, Text, [], ◌∷◌, ◌++◌, Option, none, some, ◌==◌, arith,
}
use edge_grid.Prelude.Int.{ℤ}
use edge_grid.Db.Transfers.{
  Direction, TransferRow, Rows, in_progress, last_id, update, record_start, record_finish,
  finish_row,
}
use edge_grid.Node.Transfers.{
  record_transfer_start, record_transfer_finish, finish_status, error_text,
}

-- A row as it is inserted behind a table.
abbrev pub new_row : ℤ → Direction → Text → Text → Text → ℤ → Rows → TransferRow
new_row now direction id label name size t = record {
  id = suc (last_id t);
  direction = direction;
  peer_id = id;
  peer_hostname = label;
  file_name = name;
  file_size = size;
  sha256 = [];
  status = in_progress;
  error = none;
  started_at = now;
  finished_at = none;
}

-- Only the row behind a table has an id above those of the table.
update_last :
    (k : ℕ) (f : TransferRow → TransferRow) (t : Rows) (r : TransferRow)
    → last_id t < k
    → r.id ≡ k
    → update (λ q. q.id == k) f (t ++ (r ∷ [])) ≡ t ++ (f r ∷ [])
unfolding update last_id
update_last k f [] r h e = ground arith
update_last k f (q ∷ t) r h e = ground (arith, update_last k f t r)

pub start-row :
    (fails : Bool) (now : ℤ) (direction : Direction) (id label name : Text) (size : ℤ)
    (h : Option Rows) (t : Rows)
    → fails ≡ false
    → h ≡ some t
    → record_transfer_start fails now direction id label name size h
      ≡ (some (suc (last_id t)), some (t ++ (new_row now direction id label name size t ∷ [])))
unfolding record_transfer_start record_start
start-row fails now direction id label name size none t e h = absurd cc
start-row fails now direction id label name size (some u) t e h =
    let same : u ≡ t = cc h in rw e (rw same refl)

pub finish-row :
    (fails : Bool) (now : ℤ) (e : Option Text) (was_refused : Bool) (sha256 : Text) (t : Rows)
    (r : TransferRow)
    → fails ≡ false
    → r.id ≡ suc (last_id t)
    → record_transfer_finish fails now
        (some (suc (last_id t)))
        e
        was_refused
        sha256
        (some (t ++ (r ∷ [])))
      ≡ some (t ++ (finish_row now (finish_status e was_refused) (error_text e) sha256 r ∷ []))
unfolding record_transfer_finish record_finish
finish-row fails now e was_refused sha256 t r h k =
    rw h (ap some (update_last (suc (last_id t)) _ t r (omega arith) k))
