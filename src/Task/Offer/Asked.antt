-- ===== src/Task/Offer/Asked.antt =====
-- How ProcessTask uses the policy that it is given.
use edge_grid.Prelude.{◌≡◌, refl, ◌⊎◌, inl, inr, Text, none, arith}
use edge_grid.Prelude.Results.{Result, ok, err, map_err}
use edge_grid.Proc.{Proc, pure, wrap, continue, ◌>>◌}
use edge_grid.Net.{Conn}
use edge_grid.Json.{Codec}
use edge_grid.Blob.Wire
use edge_grid.Task.{Task, Uuids}
use edge_grid.Task.Offer.{
  InvalidTask, Error, Worker, verdict, unsupported_version, validate, read_task, refuse, unread,
  read_offer, generate_id, encode, write_failed, read_header, read_body, decode, too_long, invalid,
  refused, check_task, answered, ask, on_conn, process_task,
}

-- The result of an offer whose policy answered.
abbrev pub Follows : Result Text (Unit {0}) → Task → Result Error Task → Type 0
Follows (ok _) t r = (r ≡ ok t) ⊎ ((e : Error) × (r ≡ err e))
Follows (err reason) t r = (e : Error) × (r ≡ err e)

module _ {S : Type 0} (json : Codec Task) (uuids : Uuids)
    (accept : Task → Proc S Text (Unit {0})) where
  -- The policy was not asked, and the offer failed; or it was asked about one task.
  abbrev pub Asked : S → Result Error Task × Worker S → Type 0
  Asked p out =
      ((e : Error) × (out.0 ≡ err e) × (out.1.policy ≡ p))
      ⊎ ((t : Task) × (out.1.policy ≡ (accept t p).1) × Follows (accept t p).0 t out.0)

  sent_off :
      (t : Task) (p : S) (r : Result Wire.Error (Unit {0}) × Conn)
      → let out : Result Error Task × Worker S =
          continue (map_err verdict r.0, record { conn = r.1; policy = p }) (λ _. pure t) in
        (out.1.policy ≡ p) × Follows (ok tt) t out.0
  sent_off t p (ok _, c) = (refl, inl refl)
  sent_off t p (err e, c) = (refl, inr (verdict e, refl))

  after_ask :
      (t : Task) (c : Conn) (a : Result Text (Unit {0}) × S)
      → let out : Result Error Task × Worker S =
          continue
            (answered a.0 (record { conn = c; policy = a.1 }))
            (λ _. on_conn (wrap verdict (Wire.write_verdict none)) >> pure t) in
        (out.1.policy ≡ a.1) × Follows a.0 t out.0
  unfolding answered refuse
  after_ask t c (ok _, p) = sent_off t p (Wire.write_verdict none c)
  after_ask t c (err reason, p) = (refl, (refused reason, refl))

  after_check :
      (t : Task) (c : Conn) (p : S) (v : Result InvalidTask (Unit {0}))
      → Asked p (
          continue
            (check_task v (record { conn = c; policy = p }))
            (λ _. ask accept t >> (on_conn (wrap verdict (Wire.write_verdict none)) >> pure t)))
  unfolding check_task refuse ask
  after_check t c p (ok _) =
      let (same, follows) = after_ask t c (accept t p) in inr (t, same, follows)
  after_check t c p (err e) = inl (invalid e, refl, refl)

  -- An offer that could not be read.
  unread_err :
      (e : Error) (w : Worker S)
      → (e' : Error) × ((unread (err e) w).0 ≡ err e') × ((unread (err e) w).1.policy ≡ w.policy)
  unfolding unread refuse
  unread_err generate_id w = (_, refl, refl)
  unread_err encode w = (_, refl, refl)
  unread_err write_failed w = (_, refl, refl)
  unread_err read_header w = (_, refl, refl)
  unread_err read_body w = (_, refl, refl)
  unread_err decode w = (_, refl, refl)
  unread_err (unsupported_version v) w = (_, refl, refl)
  unread_err (too_long n) w = (_, refl, refl)
  unread_err (verdict e) w = (_, refl, refl)
  unread_err (invalid e) w = (_, refl, refl)
  unread_err (refused s) w = (_, refl, refl)

  after_read :
      (r : Result Error Task) (c : Conn) (p : S)
      → Asked p (
          continue (unread r (record { conn = c; policy = p })) (λ t.
            check_task (validate uuids t)
            >> (ask accept t >> (on_conn (wrap verdict (Wire.write_verdict none)) >> pure t))))
  unfolding unread
  after_read (ok t) c p = after_check t c p (validate uuids t)
  after_read (err e) c p =
      let (e', a, b) = unread_err e (record { conn = c; policy = p }) in
      inl (e', ground (arith, a), ground (arith, a, b))

  -- ProcessTask asks its policy about one task at most, and returns a task only if the policy
  -- accepted that task; the policy's state is the one that its answer left.
  pub process_task-Asked : (w : Worker S) → Asked w.policy (process_task json uuids accept w)
  unfolding process_task read_offer
  process_task-Asked w = after_read (read_task json w.conn).0 (read_task json w.conn).1 w.policy
