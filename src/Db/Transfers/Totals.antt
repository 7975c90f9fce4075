-- ===== src/Db/Transfers/Totals.antt =====
-- Totals of internal/db/query.go: what was sent and what was received, and in how much time.
use edge_grid.Prelude.{
  ℕ, zero, suc, ◌+◌, ◌≡◌, refl, ap, Bool, true, false, not, ◌&&◌, Text, [], ◌∷◌, ◌++◌, Option, none,
  some, ◌==◌, if◌then◌else◌, All, Bool-cases, inl, inr,
}
use edge_grid.Prelude.Int.{ℤ, pos, negsuc, ltb_ℤ, add64}
use edge_grid.Db.Transfers.{
  Direction, outbound, inbound, Status, TransferRow, Rows, is_done, is_in_progress, update,
  record_start, record_finish, finish_row, interrupt_row, reconcile_stale_transfers,
}

-- SUM and COUNT of one direction. The throughput is the ratio of bytes and secs, 0 where secs is not
-- positive.
pub record Sum : Type 0 where
  pub bytes : ℤ
  pub count : ℕ
  pub secs : ℤ

pub record Totals : Type 0 where
  pub sent : Sum
  pub received : Sum

is_negative : ℤ → Bool
is_negative x = ltb_ℤ x (pos 0)

same_sign : ℤ → ℤ → Bool
unfolding is_negative
same_sign a b = if is_negative a then is_negative b else not (is_negative b)

-- SQLite's SUM of integers, which ends in an error where it passes 64 bits.
checked_add : ℤ → ℤ → Option ℤ
unfolding same_sign
checked_add a b = let c = add64 a b in if same_sign a b && not (same_sign a c) then none else some c

negated : ℤ → ℤ
negated (pos zero) = pos 0
negated (pos (suc n)) = negsuc n
negated (negsuc n) = pos (suc n)

-- finished_at - started_at, none for NULL, which SUM skips.
elapsed : Option ℤ → ℤ → Option ℤ
unfolding negated
elapsed none started = none
elapsed (some finished) started = some (add64 finished (negated started))

plus : Option ℤ → Option ℤ → Option ℤ
unfolding checked_add
plus (some a) (some b) = checked_add a b
plus _ _ = none

plus_secs : Option ℤ → Option ℤ → Option ℤ
unfolding plus
plus_secs sum none = sum
plus_secs sum (some secs) = plus sum (some secs)

is_direction : Direction → Direction → Bool
is_direction outbound outbound = true
is_direction inbound inbound = true
is_direction _ _ = false

-- WHERE status = 'done', and one group of GROUP BY direction.
counts : Direction → TransferRow → Bool
unfolding is_direction
counts d r = is_done r.status && is_direction d r.direction

-- The rows are added from the last to the first.
unfoldable pub sum_bytes : Direction → Rows → Option ℤ
unfolding counts plus
sum_bytes d [] = some (pos 0)
sum_bytes d (r ∷ rs) =
    let rest = sum_bytes d rs in if counts d r then plus rest (some r.file_size) else rest

unfoldable pub sum_secs : Direction → Rows → Option ℤ
unfolding counts plus_secs elapsed
sum_secs d [] = some (pos 0)
sum_secs d (r ∷ rs) =
    let rest = sum_secs d rs in
    if counts d r then plus_secs rest (elapsed r.finished_at r.started_at) else rest

unfoldable pub count_rows : Direction → Rows → ℕ
unfolding counts
count_rows d [] = 0
count_rows d (r ∷ rs) = (if counts d r then 1 else 0) + count_rows d rs

sum_of : Option ℤ → ℕ → Option ℤ → Option Sum
sum_of (some bytes) n (some secs) = some (record { bytes = bytes; count = n; secs = secs })
sum_of _ n _ = none

unfoldable pub group : Direction → Rows → Option Sum
unfolding sum_of
group d t = sum_of (sum_bytes d t) (count_rows d t) (sum_secs d t)

both : Option Sum → Option Sum → Option Totals
both (some a) (some b) = some (record { sent = a; received = b })
both _ _ = none

-- Totals, none for an error. `fails` is the statement's own.
unfoldable pub totals : Bool → Rows → Option Totals
unfolding both
totals fails t = if fails then none else both (group outbound t) (group inbound t)

-- Two tables of which each group has the same sums.
SameSums : Rows → Rows → Type 0
SameSums t u =
    (d : Direction)
    → (sum_bytes d t ≡ sum_bytes d u)
      × (sum_secs d t ≡ sum_secs d u)
      × (count_rows d t ≡ count_rows d u)

totals-SameSums : (fails : Bool) (t u : Rows) → SameSums t u → totals fails t ≡ totals fails u
unfolding totals group SameSums
totals-SameSums fails t u h =
    let (a, b, c) = h outbound in let (x, y, z) = h inbound in rw (a, b, c, x, y, z) refl

-- A row that does not count changes nothing.
append_open :
    (d : Direction) (r : TransferRow) (t : Rows)
    → is_done r.status ≡ false
    → (sum_bytes d (t ++ (r ∷ [])) ≡ sum_bytes d t)
      × (sum_secs d (t ++ (r ∷ [])) ≡ sum_secs d t)
      × (count_rows d (t ++ (r ∷ [])) ≡ count_rows d t)
unfolding sum_bytes sum_secs count_rows counts
append_open d r [] h = rw h (refl, refl, refl)
append_open d r (q ∷ t) h = let (a, b, c) = append_open d r t h in rw (a, b, c) (refl, refl, refl)

-- Neither do rows that do not count before and after a change.
update_open :
    (d : Direction) (p : TransferRow → Bool) (f : TransferRow → TransferRow) (t : Rows)
    → All
        (λ (r : TransferRow).
          p r ≡ true → (is_done r.status ≡ false) × (is_done (f r).status ≡ false))
        t
    → (sum_bytes d (update p f t) ≡ sum_bytes d t)
      × (sum_secs d (update p f t) ≡ sum_secs d t)
      × (count_rows d (update p f t) ≡ count_rows d t)
unfolding sum_bytes sum_secs count_rows counts update
update_open d p f [] h = (refl, refl, refl)
update_open d p f (r ∷ t) (h, hs) =
    let (a, b, c) = update_open d p f t hs in
    elim (Bool-cases (p r)) [
      | inr e ↦ rw (e, a, b, c) (refl, refl, refl)
      | inl e ↦ let (x, y) = h e in rw (e, x, y) (a, b, ap (λ (n : ℕ). 0 + n) c)
    ]

in_progress_open : (s : Status) → is_in_progress s ≡ true → is_done s ≡ false
unfolding is_in_progress is_done
in_progress_open Status.in_progress h = refl
in_progress_open Status.done h = absurd cc
in_progress_open Status.failed h = refl
in_progress_open Status.refused h = refl
in_progress_open Status.interrupted h = refl

stale :
    (now : ℤ) (t : Rows)
    → All
        (λ (r : TransferRow).
          is_in_progress r.status ≡ true
          → (is_done r.status ≡ false) × (is_done (interrupt_row now r).status ≡ false))
        t
unfolding interrupt_row is_done
stale now [] = tt
stale now (r ∷ t) = (λ h. (in_progress_open r.status h, refl), stale now t)

unsettled :
    (now : ℤ) (id : ℕ) (s : Status) (e x : Text) (t : Rows)
    → is_done s ≡ false
    → All (λ (r : TransferRow). (r.id == id) ≡ true → is_done r.status ≡ false) t
    → All
        (λ (r : TransferRow).
          (r.id == id) ≡ true
          → (is_done r.status ≡ false) × (is_done (finish_row now s e x r).status ≡ false))
        t
unfolding finish_row
unsettled now id s e x [] h a = tt
unsettled now id s e x (r ∷ t) h (a, as') = (λ k. (a k, h), unsettled now id s e x t h as')

-- Only a transfer that is confirmed counts: its start, a reconciliation after a crash, and the end of
-- one that is not done, where its id stands for no row that is done, leave the totals, whether the
-- statements go through or fail.
pub totals-confirmed :
    (fails f : Bool) (now : ℤ) (t : Rows) (d : Direction) (peer_id host name : Text) (size : ℤ)
    (id : ℕ) (s : Status) (e sha256 : Text)
    → is_done s ≡ false
    → All (λ (r : TransferRow). (r.id == id) ≡ true → is_done r.status ≡ false) t
    → (totals f (record_start fails now d peer_id host name size t).1 ≡ totals f t)
      × (totals f (reconcile_stale_transfers fails now t).1 ≡ totals f t)
      × (totals f (record_finish fails now id s e sha256 t).1 ≡ totals f t)
unfolding record_start reconcile_stale_transfers record_finish SameSums is_done
totals-confirmed true f now t d i h n size id s e x k a = (refl, refl, refl)
totals-confirmed false f now t d i h n size id s e x k a = (
  totals-SameSums f _ t (λ c. append_open c _ t refl),
  totals-SameSums f _ t
      (λ c. update_open c (λ r. is_in_progress r.status) (interrupt_row now) t (stale now t)),
  totals-SameSums f _ t (λ c.
      update_open c (λ r. r.id == id) (finish_row now s e x) t (unsettled now id s e x t k a)),
)
