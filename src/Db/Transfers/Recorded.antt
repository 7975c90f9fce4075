-- ===== src/Db/Transfers/Recorded.antt =====
-- What the rows of the table transfers say.
use edge_grid.Prelude.{
  ℕ, ◌≡◌, refl, Bool, true, false, Text, List, [], ◌∷◌, ◌==◌, All, All-append, Bool-cases, inl, inr,
}
use edge_grid.Prelude.Int.{ℤ}
use edge_grid.Db.Transfers.{
  Direction, Status, TransferRow, Rows, is_done, is_in_progress, update, record_start, finish_row,
  record_finish, interrupt_row, reconcile_stale_transfers, in_progress, done, failed, refused,
  interrupted,
}

-- A hash stands only on a transfer that is done, since it means "confirmed".
abbrev pub IsConfirmed : TransferRow → Type 0
IsConfirmed r = is_done r.status ≡ false → r.sha256 ≡ []

update-All :
    (P : TransferRow → Type 0) (q : TransferRow → Bool) (f : TransferRow → TransferRow) (t : Rows)
    → ((r : TransferRow) → q r ≡ true → P r → P (f r))
    → All P t
    → All P (update q f t)
unfolding update
update-All P q f [] s a = tt
update-All P q f (r ∷ t) s (a, u) = elim (Bool-cases (q r)) [
  | inl e ↦ rw e (s r e a, update-All P q f t s u)
  | inr e ↦ rw e (a, update-All P q f t s u)
]

not_done : (s : Status) → is_in_progress s ≡ true → is_done s ≡ false
unfolding is_in_progress is_done
not_done in_progress h = refl
not_done done h = cc
not_done failed h = cc
not_done refused h = cc
not_done interrupted h = cc

-- The calls that change the table, each with the outcome of its statement.
pub data Operation : Type 0 where
  start : Bool → ℤ → Direction → Text → Text → Text → ℤ → Operation
  finish : Bool → ℤ → ℕ → Status → Text → Text → Operation
  reconcile : Bool → ℤ → Operation

unfoldable pub run : Operation → Rows → Rows
run (start fails now d peer host name size) t = (record_start fails now d peer host name size t).1
run (finish fails now id status e sha256) t = (record_finish fails now id status e sha256 t).1
run (reconcile fails now) t = (reconcile_stale_transfers fails now t).1

unfoldable pub run_all : List Operation → Rows → Rows
run_all [] t = t
run_all (op ∷ ops) t = run_all ops (run op t)

run-IsConfirmed : (op : Operation) (t : Rows) → All IsConfirmed t → All IsConfirmed (run op t)
unfolding run record_start record_finish reconcile_stale_transfers finish_row interrupt_row
run-IsConfirmed (start true now d peer host name size) t a = a
run-IsConfirmed (start false now d peer host name size) t a =
    All-append IsConfirmed t _ a (λ _. refl, tt)
run-IsConfirmed (finish true now id status e sha256) t a = a
run-IsConfirmed (finish false now id status e sha256) t a =
    update-All IsConfirmed (λ r. r.id == id) (finish_row now status e sha256) t
      (λ r h c k. rw k refl) a
run-IsConfirmed (reconcile true now) t a = a
run-IsConfirmed (reconcile false now) t a =
    update-All IsConfirmed (λ r. is_in_progress r.status) (interrupt_row now) t
      (λ r h c k. c (not_done r.status h)) a

-- Whatever calls are made, in any order and with any of their statements failing, only a transfer that
-- is done has a hash.
pub run_all-IsConfirmed :
    (ops : List Operation) (t : Rows) → All IsConfirmed t → All IsConfirmed (run_all ops t)
unfolding run_all
run_all-IsConfirmed [] t a = a
run_all-IsConfirmed (op ∷ ops) t a = run_all-IsConfirmed ops (run op t) (run-IsConfirmed op t a)

-- After ReconcileStaleTransfers no transfer is in progress.
pub reconcile-settles :
    (now : ℤ) (t : Rows)
    → All (λ r. is_in_progress r.status ≡ false) (reconcile_stale_transfers false now t).1
unfolding reconcile_stale_transfers update interrupt_row is_in_progress
reconcile-settles now [] = tt
reconcile-settles now (r ∷ t) = elim (Bool-cases (is_in_progress r.status)) [
  | inl e ↦ rw e (refl, reconcile-settles now t)
  | inr e ↦ rw e (e, reconcile-settles now t)
]
