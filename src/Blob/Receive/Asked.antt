-- ===== src/Blob/Receive/Asked.antt =====
-- How Receive uses the policy that it is given (internal/blob/chunk.go).
use edge_grid.Prelude.{
  ℕ, zero, suc, ◌≡◌, refl, ap, ◌∙◌, Bool, not, ◌&&◌, Text, List, ◌⊎◌, inl, inr, none, Bool-cases,
  arith,
}
use edge_grid.Prelude.Int.{ℤ, pos, ltb_ℤ}
use edge_grid.Prelude.Results.{Result, ok, err}
use edge_grid.Proc.{Proc, lift, pure, continue, continue-eq-ok, refuse_when, ◌>>=◌, ◌>>◌}
use edge_grid.Json.{Codec}
use edge_grid.Net.{Conn}
use edge_grid.Blob.{Manifest, Progress}
use edge_grid.Blob.Validate.{Invalid, validate}
use edge_grid.Blob.Wire.{Error, read_manifest, write_verdict}
use edge_grid.Blob.Receive.{
  Outcomes, Receiver, receive_chunks, receive_file, receive, ask, answered, verify_whole,
  write_file, report, set_file, check_manifest, on_conn, refuse,
}
use edge_grid.Blob.Receive.Safety.{receive_file-ok}

module _ {S : Type 0} where
  -- The policy's state comes out as it went in.
  record Keeps {A : Type 0} (f : Proc (Receiver S) Error A) : Type 0 where
    kept : (s : Receiver S) → (f s).1.policy ≡ s.policy

  continue-policy :
      {A B : Type 0} (p : Result Error A × Receiver S) (f : A → Proc (Receiver S) Error B)
      → ((a : A) → Keeps (f a))
      → (continue p f).1.policy ≡ p.1.policy
  continue-policy (ok a, s) f k = (k a).kept s
  continue-policy (err e, s) f k = refl

  Keeps->>= :
      {A B : Type 0} {m : Proc (Receiver S) Error A} {f : A → Proc (Receiver S) Error B}
      → Keeps m
      → ((a : A) → Keeps (f a))
      → Keeps (m >>= f)
  Keeps->>= {m} {f} k l = record { kept = λ s. continue-policy (m s) f l ∙ k.kept s }

  Keeps-on_conn : {A : Type 0} (m : Proc Conn Error A) → Keeps (on_conn m)
  Keeps-on_conn m = record { kept = λ s. refl }

  Keeps-lift : {A : Type 0} (r : Result Error A) → Keeps (lift r)
  Keeps-lift r = record { kept = λ s. refl }

  Keeps-pure : {A : Type 0} (a : A) → Keeps (pure a)
  Keeps-pure a = record { kept = λ s. refl }

  Keeps-refuse_when : (b : Bool) (e : Error) → Keeps (refuse_when b e)
  Keeps-refuse_when b e = record { kept = λ s. refl }

  Keeps-report : (p : Progress) → Keeps (report p)
  unfolding report
  Keeps-report p = record { kept = λ s. refl }

  Keeps-set_file : (path contents : Text) → Keeps (set_file path contents)
  unfolding set_file
  Keeps-set_file path contents = record { kept = λ s. refl }

  Keeps-write_file :
      (disk : Outcomes) (path : Text) (index : ℕ) (offset : ℤ) (bytes : Text)
      → Keeps (write_file disk path index offset bytes)
  unfolding write_file
  Keeps-write_file disk path index offset bytes = record {
    kept = λ s. elim (Bool-cases (disk.writes index && not (ltb_ℤ offset (pos 0)))) [
      | inl e ↦ rw e refl
      | inr e ↦ rw e refl
    ];
  }

  Keeps-verify_whole :
      (sha256_hex : Text → Text) (disk : Outcomes) (m : Manifest) (path : Text)
      → Keeps (verify_whole sha256_hex disk m path)
  unfolding verify_whole
  Keeps-verify_whole sha256_hex disk m path = record { kept = λ s. ground arith }

  ruleset keeping = (
    Keeps->>=, Keeps-on_conn, Keeps-lift, Keeps-pure, Keeps-refuse_when, Keeps-report,
    Keeps-set_file, Keeps-write_file, Keeps-verify_whole,
  )

  module _ (sha256_hex : Text → Text) (disk : Outcomes) (m : Manifest) (path : Text) where
    Keeps-receive_chunks :
        (left i : ℕ) (seen : List ℕ) (got : ℤ)
        → Keeps (receive_chunks sha256_hex disk m path left i seen got)
    unfolding receive_chunks
    Keeps-receive_chunks zero i seen got = Keeps-pure got
    Keeps-receive_chunks (suc left) i seen got = search (keeping, Keeps-receive_chunks left)

    Keeps-receive_file : Keeps (receive_file sha256_hex disk m path)
    unfolding receive_file
    Keeps-receive_file = search (keeping, Keeps-receive_chunks) depth 20

  Keeps-check_manifest : (m : Manifest) (v : Result Invalid (Unit {0})) → Keeps (check_manifest m v)
  unfolding check_manifest refuse
  Keeps-check_manifest m (ok _) = record { kept = λ s. refl }
  Keeps-check_manifest m (err e) = record { kept = λ s. refl }

  Keeps-answered : (a : Result Text Text) → Keeps (answered a)
  unfolding answered refuse
  Keeps-answered (ok path) = record { kept = λ s. refl }
  Keeps-answered (err reason) = record { kept = λ s. refl }

-- How a run of Receive ended: without a question to the policy, or after the one question about the
-- manifest that it returns if it succeeds.
abbrev pub Asked :
    {S : Type 0} → (Manifest → Proc S Text Text) → S → Result Error Manifest × Receiver S → Type 0
Asked accept p q =
    ((e : Error) × (q.0 ≡ err e) × (q.1.policy ≡ p))
    ⊎ ((m : Manifest) × (q.1.policy ≡ (accept m p).1) × ((n : Manifest) → q.0 ≡ ok n → n ≡ m))

module _ {S : Type 0} (accept : Manifest → Proc S Text Text) (p : S) where
  continue-Asked :
      {A : Type 0} (q : Result Error A × Receiver S) (f : A → Proc (Receiver S) Error Manifest)
      → q.1.policy ≡ p
      → ((a : A) (s : Receiver S) → s.policy ≡ p → Asked accept p (f a s))
      → Asked accept p (continue q f)
  continue-Asked (ok a, s) f h k = k a s h
  continue-Asked (err e, s) f h k = inl (e, refl, h)

  module _ (json : Codec Manifest) (sha256_hex : Text → Text) (disk : Outcomes) where
    -- From the verdict on.
    confirmed : Manifest → Text → Proc (Receiver S) Error Manifest
    confirmed m path = on_conn (write_verdict none) >> receive_file sha256_hex disk m path

    Keeps-confirmed : (m : Manifest) (path : Text) → Keeps (confirmed m path)
    unfolding confirmed
    Keeps-confirmed m path =
        Keeps->>= (Keeps-on_conn (write_verdict none))
          (λ _. Keeps-receive_file sha256_hex disk m path)

    ask-policy : (m : Manifest) (s : Receiver S) → (ask accept m s).1.policy ≡ (accept m s.policy).1
    unfolding ask
    ask-policy m s = (Keeps-answered (accept m s.policy).0).kept _

    asked-returns :
        (m n : Manifest) (s : Receiver S)
        → (continue (ask accept m s) (confirmed m)).0 ≡ ok n
        → n ≡ m
    unfolding confirmed
    asked-returns m n s h =
        let q = continue (ask accept m s) (confirmed m) in
        let whole : q ≡ (ok n, q.1) = λ i. (h i, q.1) in
        let (path, t, e, r) = continue-eq-ok (ask accept m s) (confirmed m) whole in
        let (_, u, e', r') = continue-eq-ok (on_conn (write_verdict none) t) _ r in
        (receive_file-ok sha256_hex disk m path u q.1 n r').0

    -- From the question on.
    abbrev pub after_check : Manifest → Proc (Receiver S) Error Manifest
    after_check m = do
      path ← ask accept m
      on_conn (write_verdict none)
      receive_file sha256_hex disk m path

    pub asked_once :
        (m : Manifest) (s : Receiver S)
        → s.policy ≡ p
        → ((after_check m s).1.policy ≡ (accept m p).1)
          × ((n : Manifest) → (after_check m s).0 ≡ ok n → n ≡ m)
    unfolding confirmed
    asked_once m s h = (
      continue-policy (ask accept m s) (confirmed m) (Keeps-confirmed m)
          ∙ (ask-policy m s ∙ ap (λ (x : S). (accept m x).1) h),
      λ n e. asked-returns m n s e,
    )

    pub receive-Asked :
        (s : Receiver S) → s.policy ≡ p → Asked accept p (receive json sha256_hex disk accept s)
    unfolding receive
    receive-Asked s h = continue-Asked (on_conn (read_manifest json) s) _ h (λ m t e.
        continue-Asked (check_manifest m (validate m) t) _
          ((Keeps-check_manifest m (validate m)).kept t ∙ e)
          (λ _ u e'. let (kept, same) = asked_once m u e' in inr (m, kept, same)))
