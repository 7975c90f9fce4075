-- ===== src/Node/Inbox/Reserved.antt =====
-- The name that reserveInboxFile reserves.
use edge_grid.Prelude.{
  ℕ, zero, suc, ◌+◌, ◌<◌, ◌≡◌, refl, sym, Bool, false, Text, ◌∷◌, codes, Bool-cases, inl, inr,
  is_empty, if◌then◌else◌, arith,
}
use edge_grid.Prelude.Results.{Result, ok, err}
use edge_grid.Node.Inbox.{Names, InboxError, has_name, candidate, reserve_loop, reserve_inbox_file}

loop-fresh :
    (opens : ℕ → Bool) (name : Text) (left n : ℕ) (names after : Names) (path : Text)
    → reserve_loop opens name left n names ≡ (ok path, after)
    → (k : ℕ) × (k < n + left)
      × (path ≡ candidate name k)
      × (has_name path names ≡ false)
      × (after ≡ path ∷ names)
unfolding reserve_loop
loop-fresh opens name zero n names after path h = absurd cc
loop-fresh opens name (suc left) n names after path h =
    elim (Bool-cases (has_name (candidate name n) names)) [
      | inl e ↦
          let (k, bound, named, free, grown) =
            loop-fresh opens name left (suc n) names after path (ground (arith, e, h)) in
          (k, omega (arith, bound), named, free, grown)
      | inr e ↦ elim (Bool-cases (opens n)) [
        | inr b ↦ absurd (ground (arith, e, b, h))
        | inl b ↦
            let got : ◌≡◌ {A = Result InboxError Text × Names}
                (ok (candidate name n), candidate name n ∷ names) (ok path, after) =
              ground (arith, e, b, h) in
            let same : candidate name n ≡ path = cc got in
            (n, omega arith, sym same, rw same at e, cc (got, same))
      ]
    ]

-- A name that a received file gets is one of its 1000 candidates and was free: no file of the
-- inbox is written over, and the inbox has that one name more.
pub reserve_inbox_file-fresh :
    (opens : ℕ → Bool) (name : Text) (names after : Names) (path : Text)
    → reserve_inbox_file opens name names ≡ (ok path, after)
    → (k : ℕ) × (k < 1000)
      × (path ≡ candidate (if is_empty name then codes "blob" else name) k)
      × (has_name path names ≡ false)
      × (after ≡ path ∷ names)
unfolding reserve_inbox_file
reserve_inbox_file-fresh opens name names after path h =
    loop-fresh opens (if is_empty name then codes "blob" else name) 1000 0 names after path h

loop-failed :
    (opens : ℕ → Bool) (name : Text) (left n : ℕ) (names : Names) (e : InboxError)
    → (reserve_loop opens name left n names).0 ≡ err e
    → (reserve_loop opens name left n names).1 ≡ names
unfolding reserve_loop
loop-failed opens name zero n names e h = refl
loop-failed opens name (suc left) n names e h =
    elim (Bool-cases (has_name (candidate name n) names)) [
      | inl a ↦ rw a (loop-failed opens name left (suc n) names e (rw a at h))
      | inr a ↦ elim (Bool-cases (opens n)) [
        | inl b ↦ absurd (ground (arith, a, b, h))
        | inr b ↦ rw a (rw b refl)
      ]
    ]

-- Where no name is given out, the inbox is as it was.
pub reserve_inbox_file-failed :
    (opens : ℕ → Bool) (name : Text) (names : Names) (e : InboxError)
    → (reserve_inbox_file opens name names).0 ≡ err e
    → (reserve_inbox_file opens name names).1 ≡ names
unfolding reserve_inbox_file
reserve_inbox_file-failed opens name names e h =
    loop-failed opens (if is_empty name then codes "blob" else name) 1000 0 names e h
