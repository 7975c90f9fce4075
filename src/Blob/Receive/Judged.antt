-- ===== src/Blob/Receive/Judged.antt =====
-- How far Receive comes with the manifest that arrives.
use edge_grid.Prelude.{◌≡◌, refl, Text, ◌⊎◌, inl, inr}
use edge_grid.Prelude.Results.{Result, ok, err}
use edge_grid.Proc.{Proc, continue}
use edge_grid.Json.{Codec}
use edge_grid.Blob.{Manifest}
use edge_grid.Blob.Validate.{Invalid, validate}
use edge_grid.Blob.Wire.{Error, read_manifest, invalid}
use edge_grid.Blob.Receive.{Outcomes, Receiver, receive, check_manifest, refuse}
use edge_grid.Blob.Receive.Asked.{asked_once, after_check}

-- A run of Receive on what ReadManifest returned: it failed to read, it refused the manifest as invalid,
-- or it asked the policy about the manifest, and returns that one if it succeeds.
abbrev pub Judged :
    {S : Type 0}
    → (Manifest → Proc S Text Text)
    → S
    → Result Error Manifest
    → Result Error Manifest × Receiver S
    → Type 0
Judged accept p offered q =
    ((e : Error) × (offered ≡ err e) × (q.0 ≡ err e) × (q.1.policy ≡ p))
    ⊎ (((m : Manifest) × (v : Invalid) × (offered ≡ ok m)
          × (validate m ≡ err v)
          × (q.0 ≡ err (invalid v))
          × (q.1.policy ≡ p))
        ⊎ ((m : Manifest) × (offered ≡ ok m)
            × (validate m ≡ ok tt)
            × (q.1.policy ≡ (accept m p).1)
            × ((n : Manifest) → q.0 ≡ ok n → n ≡ m)))

module _ {S : Type 0} (accept : Manifest → Proc S Text Text) (p : S) (json : Codec Manifest)
    (sha256_hex : Text → Text) (disk : Outcomes) where
  -- From the manifest on.
  judged : Manifest → Result Invalid (Unit {0}) → Proc (Receiver S) Error Manifest
  unfolding check_manifest
  judged m v s = continue (check_manifest m v s) (λ _. after_check accept p json sha256_hex disk m)

  judged-Judged :
      (m : Manifest) (v : Result Invalid (Unit {0})) (t : Receiver S)
      → validate m ≡ v
      → t.policy ≡ p
      → Judged accept p (ok m) (judged m v t)
  unfolding judged check_manifest refuse
  judged-Judged m (err e) t d h = inr (inl (m, e, refl, d, refl, h))
  judged-Judged m (ok _) t d h =
      let (kept, same) = asked_once accept p json sha256_hex disk m t h in
      inr (inr (m, refl, d, kept, same))

  read-Judged :
      (r : Result Error Manifest) (t : Receiver S)
      → t.policy ≡ p
      → Judged accept p r (continue (r, t) (λ m. judged m (validate m)))
  read-Judged (err e) t h = inl (e, refl, refl, h)
  read-Judged (ok m) t h = judged-Judged m (validate m) t refl h

  pub receive-Judged :
      (s : Receiver S)
      → s.policy ≡ p
      → Judged accept p (read_manifest json s.conn).0 (receive json sha256_hex disk accept s)
  unfolding receive judged
  receive-Judged s h = read-Judged (read_manifest json s.conn).0 _ h
