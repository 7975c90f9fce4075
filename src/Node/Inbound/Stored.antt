-- ===== src/Node/Inbound/Stored.antt =====
-- receiveBlob where Receive goes through.
use edge_grid.Prelude.{
  ℕ, suc, ◌≡◌, refl, ap, true, not, Text, [], Option, none, some, if_false_intro,
}
use edge_grid.Prelude.Int.{ℤ}
use edge_grid.Prelude.Results.{Result, ok, err}
use edge_grid.Net.{Conn}
use edge_grid.Json.{Codec}
use edge_grid.Blob.{Manifest}
use edge_grid.Blob.SafeName.{safe_name}
use edge_grid.Blob.Wire.{Error}
use edge_grid.Blob.Wire.RoundTrip.{conn}
use edge_grid.Blob.Receive.{Receiver, receive}
use edge_grid.Blob.Receive.EndToEnd.{Delivered}
use edge_grid.Node.Accept.{Refusal, check_accept}
use edge_grid.Node.Inbox.{Names, InboxError, reserve_inbox_file}
use edge_grid.Node.Transfers.{Registry, start, inbound}
use edge_grid.Node.Inbound.{
  WhoIs, Outside, Accepting, BlobNode, Finished, accept, decide, recorded, reserved, after_receive,
  receive_blob, stable_id_of, label_of, unasked,
}

reserved_ok :
    (r : Result InboxError Text × Names) (s : Accepting) (path : Text) (names : Names)
    → r ≡ (ok path, names)
    → reserved r s ≡ (ok path, record s { names = names; dest = some path })
unfolding reserved
reserved_ok (ok x, ns) s path names h =
    λ i. (ok (path_of (h i).0), record s { names = (h i).1; dest = some (path_of (h i).0) })
  where
    path_of : Result InboxError Text → Text
    path_of (ok y) = y
    path_of (err e) = path
reserved_ok (err e, ns) s path names h = absurd cc

module _ (parse_time : Text → Option ℤ) (o : Outside) (m : Manifest) (path : Text) (names : Names)
    (n : BlobNode) (inbox : o.makes_inbox ≡ true)
    (free : reserve_inbox_file o.opens (safe_name m.name) n.names ≡ (ok path, names)) where
  decide_ok :
      (v : Result Refusal (Unit {0})) (s : Accepting)
      → v ≡ ok tt
      → s.names ≡ n.names
      → decide parse_time o m v s ≡ (ok path, record s { names = names; dest = some path })
  unfolding decide
  decide_ok (err e) s h k = absurd cc
  decide_ok (ok _) s h k =
      if_false_intro
        (λ (q : Result Text Text × Accepting).
          q ≡ (ok path, record s { names = names; dest = some path }))
        (not o.makes_inbox) _ _ (ap not inbox) (reserved_ok _ s path names (rw k free))

  -- The callback, where the policy lets the peer in and there is a free name.
  pub accept_ok :
      (id label : Text)
      → check_accept parse_time o.acl o.override o.space id m.size ≡ ok tt
      → (p : Accepting) × (accept parse_time o id label m (unasked n) ≡ (ok path, p))
        × (p.names ≡ names)
  unfolding accept recorded unasked
  accept_ok id label h =
      (_, decide_ok (check_accept parse_time o.acl o.override o.space id m.size) _ h refl, refl)

module _ (json : Codec Manifest) (sha256_hex : Text → Text) (parse_time : Text → Option ℤ)
    (error_text : Error → Text) (o : Outside) where
  -- The file, the names and the connection that a successful transfer leaves.
  abbrev pub Leaves : Manifest → Text → Text → Names → Text → Finished → Type 0
  Leaves m path s names out f =
      (f.result ≡ some (ok m))
      × (f.file ≡ some (path, s))
      × (f.node.names ≡ names)
      × (f.conn ≡ conn [] out [])

  after_receive-Leaves :
      (p : ℕ) (r : Registry) (m : Manifest) (path s out : Text) (a : Accepting)
      (q : Result Error Manifest × Receiver Accepting)
      → Delivered sha256_hex m path s q out a
      → Leaves m path s a.names out (after_receive json sha256_hex parse_time error_text o p r q)
  unfolding after_receive
  after_receive-Leaves p r m path s out a (ok x, t) (e, file, policy, sent) =
      (ap some e, file, ap (λ (b : Accepting). b.names) policy, sent)
  after_receive-Leaves p r m path s out a (err x, t) (e, file, policy, sent) = absurd cc

  pub receive_blob-Leaves :
      (who : Option WhoIs) (claimed : Text) (c : Conn) (n : BlobNode) (m : Manifest)
      (path s out : Text) (a : Accepting)
      → o.sets_deadline ≡ true
      → Delivered sha256_hex m path s
          (receive json sha256_hex o.disk
            (accept parse_time o (stable_id_of who) (label_of who claimed))
            (record { conn = c; policy = unasked n; file = none; reports = [] }))
          out
          a
      → Leaves m path s a.names out
          (receive_blob json sha256_hex parse_time error_text o who claimed c n)
  unfolding receive_blob
  receive_blob-Leaves who claimed c n m path s out a d h =
      if_false_intro (Leaves m path s a.names out) (not o.sets_deadline) _ _ (ap not d) (
        after_receive-Leaves (suc n.registry.created)
          (start inbound (label_of who claimed) n.registry) m path s out a _ h)
