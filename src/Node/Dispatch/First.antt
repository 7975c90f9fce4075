-- ===== src/Node/Dispatch/First.antt =====
-- Which peer a task goes to.
use edge_grid.Prelude.{
  suc, ◌≡◌, ap, subst, true, List, [], ◌∷◌, ◌++◌, Option, none, some, ◌⊎◌, All, length, inl, inr,
  refl, arith,
}
use edge_grid.Prelude.Results.{ok, err, Result-cases}
use edge_grid.Net.{Conn}
use edge_grid.Json.{Codec}
use edge_grid.Discovery.Hello.{Hello, HelloError, exchange_as_dialer}
use edge_grid.Discovery.Members.{Peer}
use edge_grid.Task.{Task}
use edge_grid.Task.Offer.{Error, offer}
use edge_grid.Node.Dispatch.{Skipped, greeted, attempt, dispatch_task}

module _ (hellos : Codec Hello) (tasks : Codec Task) (self : Hello) (t : Task) where
  -- Dial reached the peer, the greeting went well, and Offer on the same connection was accepted.
  abbrev pub IsTaken : Option Conn → Type 0
  IsTaken d =
      (c : Conn) × (d ≡ some c)
      × (h : Hello) × (after : Conn) × (exchange_as_dialer hellos true self c ≡ (ok h, after))
      × ((offer tasks t after).0 ≡ ok tt)

  -- Dial, the greeting or Offer failed.
  abbrev pub IsRefused : Option Conn → Type 0
  IsRefused d =
      (d ≡ none)
      ⊎ ((c : Conn) × (d ≡ some c)
          × (((e : HelloError) × (after : Conn) × (exchange_as_dialer hellos true self c
                  ≡ (err e, after)))
              ⊎ ((h : Hello) × (after : Conn) × (exchange_as_dialer hellos true self c
                    ≡ (ok h, after))
                  × (e : Error) × ((offer tasks t after).0 ≡ err e))))

  taken : (d : Option Conn) → attempt hellos tasks self t d ≡ ok tt → IsTaken d
  unfolding attempt greeted
  taken none h = absurd cc
  taken (some c) h =
      let c1 = (exchange_as_dialer hellos true self c).1 in
      elim (Result-cases (exchange_as_dialer hellos true self c).0) [
        | inr (e, bad) ↦ absurd (cc (bad, h))
        | inl (r, good) ↦ elim (Result-cases (offer tasks t c1).0) [
          | inr (e, failed) ↦ absurd (cc (good, failed, h))
          | inl (_, well) ↦ (c, refl, r, c1, ap (λ x. (x, c1)) good, well)
        ]
      ]

  refused : (d : Option Conn) (e : Skipped) → attempt hellos tasks self t d ≡ err e → IsRefused d
  unfolding attempt greeted
  refused none e h = inl refl
  refused (some c) e h =
      let c1 = (exchange_as_dialer hellos true self c).1 in
      elim (Result-cases (exchange_as_dialer hellos true self c).0) [
        | inr (x, bad) ↦ inr (c, refl, inl (x, c1, ap (λ y. (y, c1)) bad))
        | inl (r, good) ↦ elim (Result-cases (offer tasks t c1).0) [
          | inr (x, failed) ↦ inr (c, refl, inr (r, c1, ap (λ y. (y, c1)) good, x, failed))
          | inl (_, well) ↦ absurd (cc (good, well, h))
        ]
      ]

module _ (hellos : Codec Hello) (tasks : Codec Task) (self : Hello) (t : Task)
    (dial : Peer → Option Conn) where
  abbrev pub Fails : Peer → Type 0
  Fails p = IsRefused hellos tasks self t (dial p)

  -- DispatchTask returns the first peer, in the order given, that was dialled, whose answer to the hello
  -- was taken and whose answer to Offer, on the same connection, was an acceptance; at each peer before it
  -- the dial, the greeting or Offer failed.
  pub dispatch_task-first :
      (ps : List Peer) (q : Peer)
      → dispatch_task hellos tasks self t dial ps ≡ ok q
      → (before : List Peer) × (after : List Peer) × (ps ≡ before ++ (q ∷ after))
        × All Fails before
        × IsTaken hellos tasks self t (dial q)
  unfolding dispatch_task
  dispatch_task-first [] q h = absurd cc
  dispatch_task-first (p ∷ ps) q h = elim (Result-cases (attempt hellos tasks self t (dial p))) [
    | inl (_, good) ↦
        let same : p ≡ q = cc (good, h) in
        (
          [],
          ps,
          ap (λ (r : Peer). r ∷ ps) same,
          tt,
          taken hellos tasks self t (dial q)
              (subst (λ (r : Peer). attempt hellos tasks self t (dial r) ≡ ok tt) same good),
        )
    | inr (e, bad) ↦ elim (Result-cases (dispatch_task hellos tasks self t dial ps)) [
      | inr (es, none_left) ↦ absurd (cc (bad, none_left, h))
      | inl (r, found) ↦
          let same : r ≡ q = cc (bad, found, h) in
          let (before, after, split, failed, good) =
            dispatch_task-first ps q
              (subst (λ (x : Peer). dispatch_task hellos tasks self t dial ps ≡ ok x) same found) in
          (
            p ∷ before,
            after,
            ap (λ (xs : List Peer). p ∷ xs) split,
            (refused hellos tasks self t (dial p) e bad, failed),
            good,
          )
    ]
  ]

  -- If no peer accepts, every attempt failed, and there is one error for each peer.
  pub dispatch_task-none :
      (ps : List Peer) (es : List Skipped)
      → dispatch_task hellos tasks self t dial ps ≡ err es
      → All Fails ps × (length es ≡ length ps)
  unfolding dispatch_task
  dispatch_task-none [] es h = (tt, ground (arith, h))
  dispatch_task-none (p ∷ ps) es h = elim (Result-cases (attempt hellos tasks self t (dial p))) [
    | inl (_, good) ↦ absurd (cc (good, h))
    | inr (e, bad) ↦ elim (Result-cases (dispatch_task hellos tasks self t dial ps)) [
      | inl (r, found) ↦ absurd (cc (bad, found, h))
      | inr (rest, none_left) ↦
          let (failed, count) = dispatch_task-none ps rest none_left in
          let same : e ∷ rest ≡ es = cc (bad, none_left, h) in
          (
            (refused hellos tasks self t (dial p) e bad, failed),
            subst (λ (xs : List Skipped). length xs ≡ suc (length ps)) same (omega (arith, count)),
          )
    ]
  ]
