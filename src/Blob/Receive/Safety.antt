-- ===== src/Blob/Receive/Safety.antt =====
-- What a successful Receive guarantees, whatever the peer sends and however the disk behaves.
use edge_grid.Prelude.{
  ℕ, zero, suc, ◌≡◌, refl, subst, sym, ap, ◌∙◌, not, Text, List, [], ◌∷◌, some, none, length, arith,
  text_eq, text_eq_iff, ◌&&◌, Bool-cases, inl, inr,
}
use edge_grid.Prelude.Int.{ℤ, pos, pos_part, add64, ltb_ℤ}
use edge_grid.Prelude.Results.{Result, ok, err}
use edge_grid.Proc.{Proc, lift, continue-eq-ok, refuse_when}
use edge_grid.Disk.{write_at}
use edge_grid.Json.{Codec}
use edge_grid.Blob.{Manifest}
use edge_grid.Blob.Validate.{Invalid, validate}
use edge_grid.Blob.Wire.{Error, read_chunk, read_manifest, write_verdict}
use edge_grid.Blob.Receive.{
  Outcomes, Receiver, receive_chunks, receive_file, receive, ask, answered, verify_whole,
  write_file, report, set_file, check_frame, check_manifest, contents_of, on_conn, refuse,
}

module _ {S : Type 0} (sha256_hex : Text → Text) (disk : Outcomes) (m : Manifest)
    (path : Text) where
  -- The destination is open.
  abbrev Open : Receiver S → Type 0
  Open s = (t : Text) × (s.file ≡ some (path, t))

  write_file-Open :
      (index : ℕ) (offset : ℤ) (bytes : Text) (s t : Receiver S)
      → write_file disk path index offset bytes s ≡ (ok tt, t)
      → Open t
  unfolding write_file
  write_file-Open index offset bytes s t h =
      elim (Bool-cases (disk.writes index && not (ltb_ℤ offset (pos 0)))) [
        | inl b ↦
            let same : t ≡ record s {
              file = some (path, write_at (contents_of s.file) (pos_part offset) bytes);
            } =
              ground (arith, b, h) in
            (_, ap (λ (r : Receiver S). r.file) same)
        | inr b ↦ absurd (ground (arith, b, h))
      ]

  receive_chunks-Open :
      (left i : ℕ) (seen : List ℕ) (got total : ℤ) (s t : Receiver S)
      → Open s
      → receive_chunks sha256_hex disk m path left i seen got s ≡ (ok total, t)
      → Open t
  unfolding receive_chunks report
  receive_chunks-Open zero i seen got total s t (x, o) h =
      let same : t ≡ s = cc h in (x, ap (λ (r : Receiver S). r.file) same ∙ o)
  receive_chunks-Open (suc left) i seen got total s t o h =
      let ((index, bytes), u, e, r) = continue-eq-ok (on_conn read_chunk s) _ h in
      let (c, u', e', r') =
        continue-eq-ok (lift (check_frame sha256_hex m seen index bytes) u) _ r in
      let (_, u'', e'', r'') = continue-eq-ok (write_file disk path index c.offset bytes u') _ r' in
      receive_chunks-Open left (suc i) (index ∷ seen) (add64 got c.length) total _ t
        (write_file-Open index c.offset bytes u' u'' e'') r''

  verify_whole-ok :
      (s t : Receiver S)
      → verify_whole sha256_hex disk m path s ≡ (ok tt, t)
      → (t ≡ s) × (sha256_hex (contents_of s.file) ≡ m.sha256)
  unfolding verify_whole
  verify_whole-ok s t h = elim (Bool-cases disk.seeks) [
    | inr b ↦ absurd (ground (arith, b, h))
    | inl b ↦ elim (Bool-cases disk.rereads) [
      | inr c ↦ absurd (ground (arith, b, c, h))
      | inl c ↦ elim (Bool-cases (text_eq (sha256_hex (contents_of s.file)) m.sha256)) [
        | inr d ↦ absurd (ground (arith, b, c, d, h))
        | inl d ↦ (ground (arith, b, c, d, h), (text_eq_iff _ _).0 d)
      ]
    ]
  ]

  returned :
      (a b : Manifest) (s t : Receiver S)
      → ◌≡◌ {A = Result Error Manifest × Receiver S} (ok a, s) (ok b, t)
      → a ≡ b
  returned a b s t h = cc h

  -- A transfer that succeeds ended with the file's hash equal to the manifest's.
  pub receive_file-ok :
      (s t : Receiver S) (r : Manifest)
      → receive_file sha256_hex disk m path s ≡ (ok r, t)
      → (r ≡ m) × (x : Text) × (t.file ≡ some (path, x)) × (sha256_hex x ≡ m.sha256)
  unfolding receive_file report set_file contents_of
  receive_file-ok s t r h =
      let (_, a, ea, ra) = continue-eq-ok (refuse_when (not disk.creates) _ s) _ h in
      let (_, b, eb, rb) = continue-eq-ok (refuse_when (not disk.truncates) _ _) _ ra in
      let (got, d, ed, rd) =
        continue-eq-ok (receive_chunks sha256_hex disk m path (length m.chunks) 0 [] (pos 0) _) _
          rb in
      let (_, e, ee, re) = continue-eq-ok (refuse_when (not disk.syncs) _ _) _ rd in
      let (_, f, ef, rf) = continue-eq-ok (verify_whole sha256_hex disk m path e) _ re in
      let (x, at_path) = receive_chunks-Open (length m.chunks) 0 [] (pos 0) got _ d (_, refl) ed in
      let (same, hash) = verify_whole-ok e f ef in
      let e_file : e.file ≡ some (path, x) =
        sym (ap (λ (z : Result Error (Unit {0}) × Receiver S). z.1.file) ee) ∙ at_path in
      let t_file : t.file ≡ some (path, x) =
        sym (ap (λ (z : Result Error Manifest × Receiver S). z.1.file) rf)
        ∙ (ap (λ (z : Receiver S). z.file) same ∙ e_file) in
      (sym (returned m r f t rf), x, t_file, ap sha256_hex (sym (ap contents_of e_file)) ∙ hash)

module _ {S : Type 0} (json : Codec Manifest) (sha256_hex : Text → Text) (disk : Outcomes)
    (accept : Manifest → Proc S Text Text) where
  checked_ok :
      (m : Manifest) (v : Result Invalid (Unit {0})) (s t : Receiver S)
      → check_manifest m v s ≡ (ok tt, t)
      → (v ≡ ok tt) × (t.policy ≡ s.policy)
  unfolding check_manifest refuse
  checked_ok m (ok _) s t h = (refl, cc h)
  checked_ok m (err e) s t h = absurd cc

  answered_ok :
      (a : Result Text Text) (path : Text) (s t : Receiver S)
      → answered a s ≡ (ok path, t)
      → a ≡ ok path
  unfolding answered refuse
  answered_ok (ok x) path s t h = cc h
  answered_ok (err e) path s t h = absurd cc

  -- Whatever a peer sends and however the disk behaves: if Receive succeeds, it returns a manifest
  -- that Validate accepts and the policy answered with a path, and the file at that path has the hash
  -- that the manifest declares.
  pub receive-ok :
      (s t : Receiver S) (m : Manifest)
      → receive json sha256_hex disk accept s ≡ (ok m, t)
      → (validate m ≡ ok tt)
        × ((path : Text) × ((accept m s.policy).0 ≡ ok path)
            × ((x : Text) × (t.file ≡ some (path, x)) × (sha256_hex x ≡ m.sha256)))
  unfolding receive ask
  receive-ok s t m h =
      let (r, a, ea, ra) = continue-eq-ok (on_conn (read_manifest json) s) _ h in
      let (_, b, eb, rb) = continue-eq-ok (check_manifest r (validate r) a) _ ra in
      let (path, c, ec, rc) = continue-eq-ok (ask accept r b) _ rb in
      let (_, d, ed, rd) = continue-eq-ok (on_conn (write_verdict none) c) _ rc in
      let (same, x, file, hash) = receive_file-ok sha256_hex disk r path d t m rd in
      let (valid, kept) = checked_ok r (validate r) a b eb in
      let asked = answered_ok (accept r b.policy).0 path _ c ec in
      let policy : b.policy ≡ s.policy =
        kept ∙ sym (ap (λ (z : Result Error Manifest × Receiver S). z.1.policy) ea) in
      (
        subst (λ (y : Manifest). validate y ≡ ok tt) (sym same) valid,
        (
          path,
          subst (λ (y : Manifest). (accept y s.policy).0 ≡ ok path) (sym same)
              (subst (λ (p : S). (accept r p).0 ≡ ok path) policy asked),
          (x, file, hash ∙ ap (λ (y : Manifest). y.sha256) (sym same)),
        ),
      )
