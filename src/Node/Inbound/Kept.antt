-- ===== src/Node/Inbound/Kept.antt =====
-- What receiveBlob leaves in the inbox.
use edge_grid.Prelude.{
  ℕ, suc, ◌≡◌, refl, Bool, true, false, Text, [], ◌∷◌, ◌⊎◌, inl, inr, Option, none, some,
  Bool-cases, text_eq_self,
}
use edge_grid.Prelude.Int.{ℤ}
use edge_grid.Prelude.Results.{Result, ok, err}
use edge_grid.Proc.{Proc}
use edge_grid.Net.{Conn}
use edge_grid.Json.{Codec}
use edge_grid.Blob.{Manifest}
use edge_grid.Blob.Validate.{validate}
use edge_grid.Blob.SafeName.{safe_name}
use edge_grid.Blob.Wire.{Error}
use edge_grid.Blob.Receive.{Receiver, receive}
use edge_grid.Blob.Receive.Asked.{Asked, receive-Asked}
use edge_grid.Blob.Receive.Safety.{receive-ok}
use edge_grid.Node.Accept.{Refusal, check_accept}
use edge_grid.Node.Inbox.{Names, InboxError, has_name, reserve_inbox_file}
use edge_grid.Node.Inbox.Reserved.{reserve_inbox_file-fresh, reserve_inbox_file-failed}
use edge_grid.Node.Transfers.{Registry, start, inbound}
use edge_grid.Node.Inbound.{
  WhoIs, Outside, Accepting, BlobNode, Finished, accept, decide, recorded, reserved, remove_name,
  remove_dest, after_receive, receive_blob, stable_id_of, label_of, unasked,
}

-- The callback either answers with a name that was free, and takes it, or leaves the inbox alone.
Reserves : Names → Result Text Text × Accepting → Type 0
Reserves names q =
    ((path : Text) × (q.0 ≡ ok path)
      × (has_name path names ≡ false)
      × (q.1.names ≡ path ∷ names)
      × (q.1.dest ≡ some path))
    ⊎ ((e : Text) × (q.0 ≡ err e) × (q.1.names ≡ names) × (q.1.dest ≡ none))

reserved-Reserves :
    (r : Result InboxError Text × Names) (s : Accepting)
    → s.dest ≡ none
    → ((path : Text) → r.0 ≡ ok path → (has_name path s.names ≡ false) × (r.1 ≡ path ∷ s.names))
    → ((e : InboxError) → r.0 ≡ err e → r.1 ≡ s.names)
    → Reserves s.names (reserved r s)
unfolding reserved Reserves
reserved-Reserves (ok path, names) s d fresh kept =
    inl (path, refl, (fresh path refl).0, (fresh path refl).1, refl)
reserved-Reserves (err e, names) s d fresh kept = inr (_, refl, kept e refl, d)

decide-Reserves :
    (parse_time : Text → Option ℤ) (o : Outside) (m : Manifest) (v : Result Refusal (Unit {0}))
    (s : Accepting)
    → s.dest ≡ none
    → Reserves s.names (decide parse_time o m v s)
unfolding decide Reserves
decide-Reserves parse_time o m (err e) s d = inr (_, refl, refl, d)
decide-Reserves parse_time o m (ok _) s d = elim (Bool-cases o.makes_inbox) [
  | inr b ↦ rw b (inr (_, refl, refl, d))
  | inl b ↦ rw b (
      reserved-Reserves (reserve_inbox_file o.opens (safe_name m.name) s.names) s d
        (λ path h.
          let (k, bound, named, free, grown) =
            reserve_inbox_file-fresh o.opens (safe_name m.name) s.names _ path
              (λ i. (h i, (reserve_inbox_file o.opens (safe_name m.name) s.names).1)) in
          (free, grown))
        (λ e h. reserve_inbox_file-failed o.opens (safe_name m.name) s.names e h))
]

accept-Reserves :
    (parse_time : Text → Option ℤ) (o : Outside) (id label : Text) (m : Manifest) (n : BlobNode)
    → Reserves n.names (accept parse_time o id label m (unasked n))
unfolding accept recorded unasked
accept-Reserves parse_time o id label m n =
    decide-Reserves parse_time o m (check_accept parse_time o.acl o.override o.space id m.size) _
      refl

remove-fresh : (path : Text) (names : Names) → remove_name path (path ∷ names) ≡ names
unfolding remove_name
remove-fresh path names = rw (text_eq_self path) refl

-- What becomes of the name that a failed transfer had taken.
dest_removed :
    (names : Names) (q : Result Text Text × Accepting) (removes : Bool)
    → removes ≡ true
    → Reserves names q
    → remove_dest removes q.1.dest q.1.names ≡ names
unfolding Reserves remove_dest
dest_removed names q removes rm (inl (path, _, _, grown, dest)) =
    rw dest (rw grown (rw rm (remove-fresh path names)))
dest_removed names q removes rm (inr (_, _, same, dest)) = rw dest same

taken :
    (names : Names) (q : Result Text Text × Accepting) (path : Text)
    → Reserves names q
    → q.0 ≡ ok path
    → (has_name path names ≡ false) × (q.1.names ≡ path ∷ names)
unfolding Reserves
taken names q path (inl (path', e, free, grown, _)) h =
    let same : path' ≡ path = cc (e, h) in rw (← same) (free, grown)
taken names q path (inr (_, e, _, _)) h = absurd cc

accepted :
    (parse_time : Text → Option ℤ) (o : Outside) (m : Manifest) (v : Result Refusal (Unit {0}))
    (s : Accepting) (path : Text)
    → (decide parse_time o m v s).0 ≡ ok path
    → v ≡ ok tt
unfolding decide
accepted parse_time o m (ok _) s path h = refl
accepted parse_time o m (err e) s path h = absurd cc

module _ (json : Codec Manifest) (sha256_hex : Text → Text) (parse_time : Text → Option ℤ)
    (error_text : Error → Text) (o : Outside) where
  -- The file of the manifest m is in the inbox under a name that was free.
  abbrev pub Stores : Option WhoIs → BlobNode → Finished → Type 0
  Stores who n f =
      (m : Manifest) × (path : Text) × (x : Text) × (f.result ≡ some (ok m))
      × (validate m ≡ ok tt)
      × (check_accept parse_time o.acl o.override o.space (stable_id_of who) m.size ≡ ok tt)
      × (has_name path n.names ≡ false)
      × (f.node.names ≡ path ∷ n.names)
      × (f.file ≡ some (path, x))
      × (sha256_hex x ≡ m.sha256)

  -- The same of a run of Receive, with the answer of the callback.
  module _ (who : Option WhoIs) (claimed : Text) (n : BlobNode) (p : ℕ) (r : Registry) where
    abbrev callback : Manifest → Proc Accepting Text Text
    callback = accept parse_time o (stable_id_of who) (label_of who claimed)

    after_receive-kept :
        (q : Result Error Manifest × Receiver Accepting)
        → o.removes ≡ true
        → Asked callback (unasked n) q
        → ((m : Manifest) (t : Receiver Accepting)
            → q ≡ (ok m, t)
            → (validate m ≡ ok tt)
              × ((path : Text) × ((callback m (unasked n)).0 ≡ ok path)
                  × ((x : Text) × (t.file ≡ some (path, x)) × (sha256_hex x ≡ m.sha256))))
        → let f = after_receive json sha256_hex parse_time error_text o p r q in
          (((e : Error) × (f.result ≡ some (err e)) × (f.node.names ≡ n.names)) ⊎ Stores who n f)
    unfolding after_receive
    after_receive-kept (err e, s) rm (inl (_, _, same)) k =
        inl (e, refl, rw same (unfold remove_dest unasked in refl))
    after_receive-kept (err e, s) rm (inr (m, same, _)) k = inl (
      e,
      refl,
      rw same (
          dest_removed n.names _ o.removes rm
            (accept-Reserves parse_time o (stable_id_of who) (label_of who claimed) m n)),
    )
    after_receive-kept (ok m, s) rm (inl (_, bad, _)) k = absurd cc
    after_receive-kept (ok m, s) rm (inr (m', same, returned)) k =
        let same_m : m ≡ m' = returned m refl in
        let (valid, (path, answered, (x, file, hash))) = k m s refl in
        let (free, grown) =
          taken n.names _ path
            (accept-Reserves parse_time o (stable_id_of who) (label_of who claimed) m n) answered in
        inr (
          m,
          path,
          x,
          refl,
          valid,
          unfold accept in
              accepted parse_time o m (check_accept parse_time o.acl o.override o.space _ m.size) _
                path answered,
          free,
          rw same (rw (← same_m) grown),
          file,
          hash,
        )

  -- If a file that is to go can be removed: either Receive failed and the inbox holds what it held before,
  -- with no partial file, or it succeeded, the policy accepts the peer and the size, and the inbox
  -- has exactly one name more, that was free, with a content of the hash that the manifest declares.
  pub receive_blob-kept :
      (who : Option WhoIs) (claimed : Text) (conn : Conn) (n : BlobNode)
      → o.sets_deadline ≡ true
      → o.removes ≡ true
      → let f = receive_blob json sha256_hex parse_time error_text o who claimed conn n in
        (((e : Error) × (f.result ≡ some (err e)) × (f.node.names ≡ n.names)) ⊎ Stores who n f)
  unfolding receive_blob accept
  receive_blob-kept who claimed conn n d rm =
      let callback = accept parse_time o (stable_id_of who) (label_of who claimed) in
      let s : Receiver Accepting = record {
        conn = conn;
        policy = unasked n;
        file = none;
        reports = [];
      } in
      rw d (
        after_receive-kept who claimed n (suc n.registry.created)
          (start inbound (label_of who claimed) n.registry)
          (receive json sha256_hex o.disk callback s) rm
          (receive-Asked callback (unasked n) json sha256_hex o.disk s refl)
          (λ m t e. receive-ok json sha256_hex o.disk callback s t m e))
