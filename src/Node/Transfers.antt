-- ===== src/Node/Transfers.antt =====
-- internal/node/transfers.go: the transfers that a node has in flight, and what it records of them.
pub mod Steps
pub mod Listing
pub mod Drained
pub mod Settled
use edge_grid.Prelude.{
  ℕ, zero, suc, ◌+◌, ◌%◌, ◌^◌, ◌≡◌, refl, Bool, true, false, Text, List, [], ◌∷◌, ◌++◌, Option,
  none, some, ltb, ◌==◌, if◌then◌else◌,
}
use edge_grid.Prelude.Int.{ℤ, pos}
use edge_grid.Prelude.Results.{Result, ok, err}
use edge_grid.Blob.{Progress}
use edge_grid.Db.Transfers
use edge_grid.Db.Transfers.{Rows, Status, done, failed, refused, record_start, record_finish}

-- conn.SetDeadline's argument, in nanoseconds.
unfoldable pub refresh_deadline : ℕ → ℕ → ℕ → ℕ → ℕ
refresh_deadline now began idle ceiling =
    let next = now + idle in
    let ceiling_at = began + ceiling in if ltb ceiling_at next then ceiling_at else next

pub data Direction : Type 0 where
  outbound inbound : Direction

-- The live entry. `pointer` stands for the object itself: the n-th to be made. Its id wraps at 2 ^ 64.
pub record Entry : Type 0 where
  pub pointer : ℕ
  pub id : ℕ
  pub direction : Direction
  pub peer : Text
  pub progress : Progress
  pub is_done : Bool
  pub error : Option Text

abbrev pub no_progress : Progress
no_progress = record {
  chunks_done = 0;
  chunks_total = 0;
  bytes_done = pos 0;
  bytes_total = pos 0;
  verifying = false;
}

-- `created` counts the objects made so far, so that nextID is `created % 2 ^ 64`.
pub record Registry : Type 0 where
  pub created : ℕ
  pub items : List Entry

unfoldable pub new_entry : Direction → Text → ℕ → Entry
new_entry direction peer n = record {
  pointer = n;
  id = n % 2 ^ 64;
  direction = direction;
  peer = peer;
  progress = no_progress;
  is_done = false;
  error = none;
}

-- registry.start
unfoldable pub start : Direction → Text → Registry → Registry
start direction peer r = record r {
  created = suc r.created;
  items = r.items ++ (new_entry direction peer (suc r.created) ∷ []);
}

-- A store through the pointer. One to an object that is no longer listed is seen by nobody.
unfoldable pub store : ℕ → (Entry → Entry) → List Entry → List Entry
store p f [] = []
store p f (t ∷ ts) = (if t.pointer == p then f t else t) ∷ store p f ts

unfoldable pub on_entry : ℕ → (Entry → Entry) → Registry → Registry
on_entry p f r = record r { items = store p f r.items }

-- The five stores of progressFunc, one after the other.
pub data Store : Type 0 where
  chunks_done chunks_total : ℕ → Store
  bytes_done bytes_total : ℤ → Store
  verifying : Bool → Store

unfoldable pub put : Store → Progress → Progress
put (chunks_done n) p = record p { chunks_done = n }
put (chunks_total n) p = record p { chunks_total = n }
put (bytes_done n) p = record p { bytes_done = n }
put (bytes_total n) p = record p { bytes_total = n }
put (verifying b) p = record p { verifying = b }

unfoldable pub stores_of : Progress → List Store
stores_of p =
    chunks_done p.chunks_done
    ∷ chunks_total p.chunks_total
    ∷ bytes_done p.bytes_done
    ∷ bytes_total p.bytes_total
    ∷ verifying p.verifying
    ∷ []

unfoldable pub put_in : Store → Entry → Entry
put_in s t = record t { progress = put s t.progress }

unfoldable pub put_all : ℕ → List Store → Registry → Registry
put_all p [] r = r
put_all p (s ∷ ss) r = put_all p ss (on_entry p (put_in s) r)

-- progressFunc, at one call.
unfoldable pub report : ℕ → Progress → Registry → Registry
report p progress r = put_all p (stores_of progress) r

unfoldable pub set_error : Option Text → Entry → Entry
set_error e t = record t { error = e }

unfoldable pub set_done : Entry → Entry
set_done t = record t { is_done = true }

-- registry.finish, but for the timer that it starts.
unfoldable pub finish : ℕ → Option Text → Registry → Registry
finish p e r = on_entry p set_done (on_entry p (set_error e) r)

unfoldable pub remove : ℕ → List Entry → List Entry
remove p [] = []
remove p (t ∷ ts) = let rest = remove p ts in if t.pointer == p then ts else t ∷ rest

-- What the timer of finish does when it fires.
unfoldable pub expire : ℕ → Registry → Registry
expire p r = record r { items = remove p r.items }

-- Transfer and registry.snapshot; the times are left out.
pub record Transfer : Type 0 where
  pub id : ℕ
  pub direction : Direction
  pub peer : Text
  pub progress : Progress
  pub is_done : Bool
  pub error : Option Text

unfoldable pub snapshot_of : Entry → Transfer
snapshot_of t = record {
  id = t.id;
  direction = t.direction;
  peer = t.peer;
  progress = t.progress;
  is_done = t.is_done;
  error = t.error;
}

unfoldable pub snapshot : List Entry → List Transfer
snapshot [] = []
snapshot (t ∷ ts) = snapshot_of t ∷ snapshot ts

started_row : Result Transfers.TransferError ℕ × Rows → Option ℕ × Option Rows
started_row (ok id, u) = (some id, some u)
started_row (err e, u) = (none, some u)

-- recordTransferStart, on a history that may be missing: the id of the row, if there is one.
unfoldable pub record_transfer_start :
    Bool → ℤ → Transfers.Direction → Text → Text → Text → ℤ → Option Rows → Option ℕ × Option Rows
unfolding started_row
record_transfer_start fails now direction peer_id peer_hostname name size none = (none, none)
record_transfer_start fails now direction peer_id peer_hostname name size (some t) =
    started_row (record_start fails now direction peer_id peer_hostname name size t)

unfoldable pub finish_status : Option Text → Bool → Status
finish_status none was_refused = done
finish_status (some e) was_refused = if was_refused then refused else failed

unfoldable pub error_text : Option Text → Text
error_text none = []
error_text (some e) = e

-- recordTransferFinish; `row` is what recordTransferStart returned.
unfoldable pub record_transfer_finish :
    Bool → ℤ → Option ℕ → Option Text → Bool → Text → Option Rows → Option Rows
unfolding error_text
record_transfer_finish fails now none e was_refused sha256 h = h
record_transfer_finish fails now (some id) e was_refused sha256 none = none
record_transfer_finish fails now (some id) e was_refused sha256 (some t) =
    some (record_finish fails now id (finish_status e was_refused) (error_text e) sha256 t).1
