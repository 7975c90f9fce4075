-- ===== src/Db/Transfers.antt =====
-- internal/db/transfers.go and query.go: one row for each file sent or received.
pub mod Recorded
pub mod Totals
use edge_grid.Prelude.{
  ℕ, suc, ◌+◌, Bool, true, false, not, ◌&&◌, Text, List, [], ◌∷◌, ◌++◌, Option, none, some, max,
  ◌==◌, is_empty, if◌then◌else◌, take,
}
use edge_grid.Prelude.Int.{ℤ, ltb_ℤ, add64}
use edge_grid.Prelude.Results.{Result, ok, err}
use edge_grid.Proc.{Proc}

pub data Direction : Type 0 where
  outbound inbound : Direction

pub data Status : Type 0 where
  in_progress done failed refused interrupted : Status

pub data TransferError : Type 0 where
  statement_failed : TransferError

-- A row of the table transfers; NULL is `none`.
pub record TransferRow : Type 0 where
  pub id : ℕ
  pub direction : Direction
  pub peer_id : Text
  pub peer_hostname : Text
  pub file_name : Text
  pub file_size : ℤ
  pub sha256 : Text
  pub status : Status
  pub error : Option Text
  pub started_at : ℤ
  pub finished_at : Option ℤ

abbrev pub Rows : Type 0
Rows = List TransferRow

unfoldable pub is_in_progress : Status → Bool
is_in_progress in_progress = true
is_in_progress _ = false

unfoldable pub is_done : Status → Bool
is_done done = true
is_done _ = false

-- The largest rowid, 0 for an empty table. SQLite gives a new row the one after it.
unfoldable pub last_id : Rows → ℕ
last_id [] = 0
last_id (r ∷ rs) = max r.id (last_id rs)

unfoldable pub update : (TransferRow → Bool) → (TransferRow → TransferRow) → Rows → Rows
update p f [] = []
update p f (r ∷ rs) = (if p r then f r else r) ∷ update p f rs

-- RecordStart; it returns LastInsertId.
unfoldable pub record_start :
    Bool → ℤ → Direction → Text → Text → Text → ℤ → Proc Rows TransferError ℕ
record_start fails now direction peer_id peer_hostname file_name file_size t =
    if fails then (err statement_failed, t) else (
      ok (suc (last_id t)),
      t
          ++ (record {
            id = suc (last_id t);
            direction = direction;
            peer_id = peer_id;
            peer_hostname = peer_hostname;
            file_name = file_name;
            file_size = file_size;
            sha256 = [];
            status = in_progress;
            error = none;
            started_at = now;
            finished_at = none;
          }
              ∷ []),
    )

null_if_empty : Text → Option Text
unfolding is_empty
null_if_empty s = if is_empty s then none else some s

unfoldable pub finish_row : ℤ → Status → Text → Text → TransferRow → TransferRow
unfolding null_if_empty is_done
finish_row now status err_msg sha256 r = record r {
  status = status;
  error = null_if_empty err_msg;
  sha256 = if is_done status then sha256 else [];
  finished_at = some now;
}

-- RecordFinish: no error where no row has the id.
unfoldable pub record_finish :
    Bool → ℤ → ℕ → Status → Text → Text → Proc Rows TransferError (Unit {0})
record_finish fails now id status err_msg sha256 t =
    if fails
    then (err statement_failed, t)
    else (ok tt, update (λ r. r.id == id) (finish_row now status err_msg sha256) t)

unfoldable pub interrupt_row : ℤ → TransferRow → TransferRow
interrupt_row now r = record r { status = interrupted; finished_at = some now }

unfoldable pub reconcile_stale_transfers : Bool → ℤ → Proc Rows TransferError (Unit {0})
unfolding is_in_progress
reconcile_stale_transfers fails now t =
    if fails
    then (err statement_failed, t)
    else (ok tt, update (λ r. is_in_progress r.status) (interrupt_row now) t)

-- ORDER BY started_at DESC; rows of one second stand in the order of the table.
unfoldable pub insert_newest : TransferRow → Rows → Rows
insert_newest r [] = r ∷ []
insert_newest r (q ∷ qs) =
    let rest = insert_newest r qs in
    if ltb_ℤ r.started_at q.started_at then q ∷ rest else r ∷ q ∷ qs

unfoldable pub newest_first : Rows → Rows
newest_first [] = []
newest_first (r ∷ rs) = insert_newest r (newest_first rs)

-- RecentTransfers, on a statement that goes through.
unfoldable pub recent_transfers : ℕ → Rows → Rows
recent_transfers limit t = take limit (newest_first t)
