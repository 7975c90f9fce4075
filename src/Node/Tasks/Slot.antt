-- ===== src/Node/Tasks/Slot.antt =====
-- The slot of a node, under offers and runs.
use edge_grid.Prelude.{
  ◌≡◌, refl, sym, subst, ◌⊎◌, inl, inr, Bool, true, false, ◌||◌, Text, Option, none, some, codes,
  Bool-cases, arith,
}
use edge_grid.Prelude.Int.{ℤ}
use edge_grid.Prelude.Results.{Result, ok, err}
use edge_grid.Net.{Conn}
use edge_grid.Json.{Codec}
use edge_grid.Db.Tasks.{Table, DbError, received, record_task_start}
use edge_grid.Task.{Task, Uuids}
use edge_grid.Task.Offer.{Error, Worker, process_task}
use edge_grid.Task.Offer.Asked.{Follows, process_task-Asked}
use edge_grid.Node.Tasks.{
  TaskNode, Offerer, Accepting, accept_task, claim_and_record, recorded, try_claim, release,
  finish_task, undo_claim, after_offer, receive_task,
}

abbrev pub is_ok : {E A : Type 0} → Result E A → Bool
is_ok (ok a) = true
is_ok (err e) = false

module _ (quote : Text → Text) (allows : Bool) (supports : Text → Bool) (start_fails : Bool)
    (now : ℤ) (peer : Offerer) (t : Task) (n : TaskNode) where
  abbrev fresh : Accepting
  fresh = record { node = n; claimed = none }

  abbrev started : Table → Result DbError (Unit {0}) × Table
  started table =
      record_task_start start_fails now received t.id peer.stable_id peer.label t.kind table

  -- A refusal leaves the node as it was. Acceptance found the slot free and took it, and recorded a
  -- row for the task.
  abbrev pub Answered : Result Text (Unit {0}) × Accepting → Type 0
  Answered (a, s) =
      ((e : Text) × (a ≡ err e) × (s.claimed ≡ none) × (s.node.busy ≡ n.busy))
      ⊎ ((a ≡ ok tt)
          × (n.busy ≡ false)
          × (s.node.busy ≡ true)
          × (s.claimed ≡ some t)
          × ((table : Table) × (n.history ≡ some table)
              × ((started table).0 ≡ ok tt)
              × (s.node.history ≡ some (started table).1)))

  recorded-Answered :
      (table : Table)
      → n.busy ≡ false
      → n.history ≡ some table
      → (p : Result DbError (Unit {0}) × Table) → p ≡ started table
      → Answered (recorded p t (record { node = record n { busy = true }; claimed = none }))
  unfolding recorded release
  recorded-Answered table b h (ok _, u) e = inr (refl, b, refl, refl, (table, h, cc e, cc e))
  recorded-Answered table b h (err x, u) e = inl (_, refl, refl, cc b)

  slot_taken :
      (table : Table)
      → n.busy ≡ true
      → claim_and_record start_fails now peer t (some table) fresh
        ≡ (err (codes "this node is already running a task"), fresh)
  unfolding claim_and_record try_claim
  slot_taken table b = rw b refl

  slot_free :
      (table : Table)
      → n.busy ≡ false
      → claim_and_record start_fails now peer t (some table) fresh
        ≡ recorded (started table) t (record { node = record n { busy = true }; claimed = none })
  unfolding claim_and_record try_claim
  slot_free table b = rw b refl

  claim-Answered :
      (h : Option Table)
      → n.history ≡ h
      → Answered (claim_and_record start_fails now peer t h fresh)
  unfolding claim_and_record
  claim-Answered none e = inl (_, refl, refl, refl)
  claim-Answered (some table) e = elim (Bool-cases n.busy) [
    | inl b ↦ subst Answered (sym (slot_taken table b)) (inl (_, refl, refl, refl))
    | inr b ↦
        subst Answered (sym (slot_free table b)) (recorded-Answered table b e (started table) refl)
  ]

  pub accept_task-Answered :
      Answered (accept_task quote allows supports start_fails now peer t fresh)
  unfolding accept_task
  accept_task-Answered = elim (Bool-cases allows) [
    | inr b ↦ rw b (inl (_, refl, refl, refl))
    | inl b ↦ elim (Bool-cases (supports t.kind)) [
      | inr c ↦ rw (b, c) (inl (_, refl, refl, refl))
      | inl c ↦ rw (b, c) (claim-Answered n.history refl)
    ]
  ]

or_false : (b : Bool) → b ≡ (b || false)
or_false true = refl
or_false false = refl

busy-undo_claim :
    (fails : Bool) (now : ℤ) (c : Option Task) (t : Task) (n : TaskNode)
    → c ≡ some t
    → (undo_claim fails now c n).busy ≡ false
unfolding undo_claim finish_task release
busy-undo_claim fails now none t n h = cc
busy-undo_claim fails now (some x) t n h = refl

same-undo_claim :
    (fails : Bool) (now : ℤ) (c : Option Task) (n : TaskNode)
    → c ≡ none
    → undo_claim fails now c n ≡ n
unfolding undo_claim
same-undo_claim fails now none n h = refl
same-undo_claim fails now (some x) n h = cc

module _ (json : Codec Task) (uuids : Uuids) (quote : Text → Text) (allows : Bool)
    (supports : Text → Bool) (start_fails later_fails : Bool) (now cutoff : ℤ)
    (peer : Offerer) where
  busy-asked :
      (t : Task) (n : TaskNode) (r : Result Error Task) (a : Result Text (Unit {0})) (s : Accepting)
      → Answered quote allows supports start_fails now peer t n (a, s)
      → Follows a t r
      → (after_offer later_fails now cutoff r s).busy ≡ (n.busy || is_ok r)
  unfolding after_offer
  busy-asked t n (ok x) (ok _) s (inl (e, h, c, b)) f = absurd cc
  busy-asked t n (ok x) (err e) s k (e', h) = absurd cc
  busy-asked t n (ok x) (ok _) s (inr (h, b, b', c, rest)) f = cc (b, b')
  busy-asked t n (err x) (ok _) s (inl (e, h, c, b)) f = absurd cc
  busy-asked t n (err x) (ok _) s (inr (h, b, b', c, rest)) f =
      rw (b, busy-undo_claim later_fails now s.claimed t s.node c) refl
  busy-asked t n (err x) (err e) s (inl (e', h, c, b)) f =
      rw (same-undo_claim later_fails now s.claimed s.node c) (ground (arith, b))
  busy-asked t n (err x) (err e) s (inr (h, b, b', c, rest)) f = absurd cc

  -- After an offer, whatever the peer sent and however the network and the database fail, the slot is
  -- taken exactly if it was taken before or the offered task is to run now.
  pub busy-receive_task :
      (c : Conn) (n : TaskNode)
      → let (r, d, m) =
          receive_task json uuids quote allows supports start_fails later_fails now cutoff peer c
            n in
        m.busy ≡ (n.busy || is_ok r)
  unfolding receive_task after_offer undo_claim
  busy-receive_task c n =
      let accept = accept_task quote allows supports start_fails now peer in
      let w : Worker Accepting = record {
        conn = c;
        policy = record { node = n; claimed = none };
      } in
      elim (process_task-Asked json uuids accept w) [
        | inl (e, h, same) ↦ rw (h, same) (or_false n.busy)
        | inr (t, same, follows) ↦ rw same (
            busy-asked t n (process_task json uuids accept w).0 (accept t w.policy).0
              (accept t w.policy).1
              (accept_task-Answered quote allows supports start_fails now peer t n) follows)
      ]
