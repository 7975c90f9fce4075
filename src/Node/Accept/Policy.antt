-- ===== src/Node/Accept/Policy.antt =====
-- Whom a node lets in.
use edge_grid.Prelude.{
  ℕ, ◌+◌, ◌≤◌, ◌<◌, ◌^◌, ◌≡◌, ◌≢◌, ◌↔◌, ◌⊎◌, inl, inr, refl, Bool, true, false, Text, Option, none,
  some, arith, ltb_false→le, le→ltb_false, ◌%◌,
}
use edge_grid.Prelude.Int.{ℤ, pos, ltb_ℤ, bits64}
use edge_grid.Prelude.Results.{Result, ok, err}
use edge_grid.Node.Acl.{AclEntry, AclError, lookup, default_allows, valid_stable_id}
use edge_grid.Node.Accept.{
  Acl, Space, allowed, allowed_by, check_task_accept, check_accept, check_space, fits,
  max_blob_bytes, space_headroom, not_accepting_files,
}

-- A peer is let in by its own entry, or by the default where it has none. An entry that cannot be
-- read, or an ID that is no StableID, lets nobody in.
abbrev pub Permits : (Text → Option ℤ) → Acl → Text → Type 0
Permits parse_time acl id =
    ((entry : AclEntry) × (lookup parse_time acl.opens acl.reads id acl.files ≡ ok (some entry))
      × (entry.allow ≡ true))
    ⊎ ((lookup parse_time acl.opens acl.reads id acl.files ≡ ok none)
        × (default_allows acl.default ≡ true))

-- The free bytes are enough, or not known.
abbrev pub HasRoom : ℕ → Option ℕ → Type 0
HasRoom need none = Unit
HasRoom need (some n) = need ≤ n

module _ (parse_time : Text → Option ℤ) (acl : Acl) (id : Text) where
  allowed_by_iff :
      (default : Bool) (found : Result AclError (Option AclEntry))
      → (allowed_by default found ≡ true) ↔ (
          ((entry : AclEntry) × (found ≡ ok (some entry)) × (entry.allow ≡ true))
          ⊎ ((found ≡ ok none) × (default ≡ true)))
  unfolding allowed_by
  allowed_by_iff default (err e) =
      (λ h. cc, λ h. elim h [ inl (entry, a, b) ↦ cc | inr (a, b) ↦ cc ])
  allowed_by_iff default (ok none) =
      (λ h. inr (refl, h), λ h. elim h [ inl (entry, a, b) ↦ cc | inr (a, b) ↦ b ])
  allowed_by_iff default (ok (some e)) =
      (λ h. inl (e, refl, h), λ h. elim h [ inl (entry, a, b) ↦ cc | inr (a, b) ↦ cc ])

  allowed_iff : (allowed parse_time acl id ≡ true) ↔ Permits parse_time acl id
  unfolding allowed
  allowed_iff =
      allowed_by_iff (default_allows acl.default)
        (lookup parse_time acl.opens acl.reads id acl.files)

  -- The task policy accepts exactly the peers that the task ACL permits.
  pub check_task_accept_iff :
      (check_task_accept parse_time acl id ≡ ok tt) ↔ Permits parse_time acl id
  unfolding check_task_accept
  check_task_accept_iff = (λ h. allowed_iff.0 (ground (arith, h)), λ p. rw (allowed_iff.1 p) refl)

  fits_iff : (need : ℕ) (free : Option ℕ) → (fits need free ≡ ok tt) ↔ HasRoom need free
  unfolding fits
  fits_iff need none = (λ h. tt, λ h. refl)
  fits_iff need (some n) =
      (λ h. ltb_false→le n need (ground (arith, h)), λ h. rw (le→ltb_false n need h) refl)

  -- The file policy accepts exactly a file of at most the limit, from a peer that the file ACL
  -- permits, if the inbox can be made and its file system has room for the file and 256 MiB more
  -- or cannot say. The size and the 256 MiB must fit 64 bits.
  pub check_accept_iff :
      (override : Text) (space : Space) (size : ℕ)
      → size + space_headroom < 2 ^ 64
      → (check_accept parse_time acl override space id (pos size) ≡ ok tt) ↔ (
          Permits parse_time acl id
          × (ltb_ℤ (max_blob_bytes override) (pos size) ≡ false)
          × (space.inbox ≡ true)
          × HasRoom (size + space_headroom) space.free)
  unfolding check_accept check_space
  check_accept_iff override space size h = (
    λ e.
        let a : allowed parse_time acl id ≡ true = ground (arith, e) in
        let l : ltb_ℤ (max_blob_bytes override) (pos size) ≡ false = ground (arith, e, a) in
        let i : space.inbox ≡ true = ground (arith, e, a, l) in
        let f : fits (size + space_headroom) space.free ≡ ok tt = rw (a, l, i, whole) at e in
        (allowed_iff.0 a, l, i, (fits_iff (size + space_headroom) space.free).0 f),
    λ (p, l, i, f).
        rw (allowed_iff.1 p, l, i, whole) ((fits_iff (size + space_headroom) space.free).1 f),
  )
    where
      whole : (bits64 (pos size) + space_headroom) % 2 ^ 64 ≡ size + space_headroom
      whole = omega (arith, h)

-- No policy accepts a peer without a valid StableID, as one that Tailscale could not name.
pub unnamed_refused :
    (parse_time : Text → Option ℤ) (acl : Acl) (override : Text) (space : Space) (id : Text)
    (size : ℤ)
    → valid_stable_id id ≡ false
    → (check_task_accept parse_time acl id ≢ ok tt)
      × (check_accept parse_time acl override space id size ≡ err not_accepting_files)
unfolding check_task_accept check_accept allowed allowed_by lookup
unnamed_refused parse_time acl override space id size h = rw h (λ e. cc, refl)
