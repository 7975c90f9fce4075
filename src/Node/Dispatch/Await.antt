-- ===== src/Node/Dispatch/Await.antt =====
-- How the polling of awaitResult ends.
use edge_grid.Prelude.{
  ℕ, zero, suc, ◌+◌, ◌*◌, ◌≤◌, ◌<◌, ◌≡◌, ◌≢◌, ap, subst, Bool, true, false, Option, none, some, min,
  leb, arith, Bool-cases, inl, inr, if◌then◌else◌,
}
use edge_grid.Prelude.Results.{Result, ok, err}
use edge_grid.Task.{ResultResponse}
use edge_grid.Task.Outcome.{finished}
use edge_grid.Node.Dispatch.{
  Poll, PollPlan, AwaitError, stuck, gave_up, is_finished, failed_poll, or_zero, await_loop,
  await_result, context_end, before_limit,
}

gave_up-ne-stuck : (a b : Bool) → gave_up a b ≢ stuck
unfolding gave_up
gave_up-ne-stuck true b h = cc
gave_up-ne-stuck false true h = cc
gave_up-ne-stuck false false h = cc

loop-ne-stuck :
    (polls : ℕ → Poll) (ends : ℕ) (by_caller : Bool) (longest fuel i now wait : ℕ) (last_err : Bool)
    → 1 ≤ wait
    → 1 ≤ longest
    → now ≤ ends
    → ends < now + fuel
    → await_loop polls ends by_caller longest fuel i now wait last_err ≢ err stuck
unfolding await_loop
loop-ne-stuck polls ends by_caller longest zero i now wait last_err w l n f h = omega (arith, n, f)
loop-ne-stuck polls ends by_caller longest (suc fuel) i now wait last_err w l n f h =
    let p = polls i in
    let e = if failed_poll p.answer then true else last_err in
    elim (Bool-cases (is_finished p.answer)) [
      | inl a ↦ absurd (ground (arith, a, h))
      | inr a ↦ elim (Bool-cases (leb ends (now + p.took + wait))) [
        | inl b ↦ gave_up-ne-stuck e by_caller (inner (ground (arith, a, b, h)))
        | inr b ↦
            loop-ne-stuck polls ends by_caller longest fuel (suc i) (now + p.took + wait)
              (min (wait * 2) longest) e (omega arith) l (ground (arith, b)) (omega arith)
              (ground (arith, a, b, h))
      ]
    ]
  where
    inner : {x y : AwaitError} → ◌≡◌ {A = Result AwaitError ResultResponse} (err x) (err y) → x ≡ y
    inner k = cc k

-- The polling ends, whatever the peer and the caller do, if the first and the longest wait of the
-- plan are a millisecond at least.
pub await_result-ne-stuck :
    (plan : PollPlan) (cancel : Option ℕ) (polls : ℕ → Poll)
    → 1 ≤ plan.first
    → 1 ≤ plan.max
    → await_result plan cancel polls ≢ err stuck
unfolding await_result
await_result-ne-stuck plan cancel polls w l =
    let ends = context_end plan cancel in
    loop-ne-stuck polls ends (before_limit plan cancel) plan.max (suc ends) 0 0 plan.first false w l
      (omega arith) (omega arith)

loop-ok :
    (polls : ℕ → Poll) (ends : ℕ) (by_caller : Bool) (longest fuel i now wait : ℕ) (last_err : Bool)
    (r : ResultResponse)
    → await_loop polls ends by_caller longest fuel i now wait last_err ≡ ok r
    → (j : ℕ) × ((polls j).answer ≡ some r) × (finished r.status ≡ true)
unfolding await_loop is_finished or_zero
loop-ok polls ends by_caller longest zero i now wait last_err r h = absurd cc
loop-ok polls ends by_caller longest (suc fuel) i now wait last_err r h =
    let p = polls i in
    elim (Bool-cases (is_finished p.answer)) [
      | inl a ↦ let (answer, done) = taken p.answer a (ground (arith, a, h)) in (i, answer, done)
      | inr a ↦ elim (Bool-cases (leb ends (now + p.took + wait))) [
        | inl b ↦ absurd (ground (arith, a, b, h))
        | inr b ↦
            loop-ok polls ends by_caller longest fuel (suc i) (now + p.took + wait)
              (min (wait * 2) longest) (if failed_poll p.answer then true else last_err) r
              (ground (arith, a, b, h))
      ]
    ]
  where
    taken :
        (answer : Option ResultResponse)
        → is_finished answer ≡ true
        → or_zero answer ≡ r
        → (answer ≡ some r) × (finished r.status ≡ true)
    taken none a k = cc
    taken (some x) a k = (ap some k, subst (λ (y : ResultResponse). finished y.status ≡ true) k a)

-- What the polling returns without an error is a finished answer of the peer to one of its polls.
pub await_result-finished :
    (plan : PollPlan) (cancel : Option ℕ) (polls : ℕ → Poll) (r : ResultResponse)
    → await_result plan cancel polls ≡ ok r
    → (j : ℕ) × ((polls j).answer ≡ some r) × (finished r.status ≡ true)
unfolding await_result
await_result-finished plan cancel polls r h =
    let ends = context_end plan cancel in
    loop-ok polls ends (before_limit plan cancel) plan.max (suc ends) 0 0 plan.first false r h
