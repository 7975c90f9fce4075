-- ===== src/Examples/Policy.antt =====
-- A stored decision, and who is let in by it (internal/node).
use edge_grid.Prelude.{
  ℕ, ◌<◌, if◌then◌else◌, ◌+◌, ◌≡◌, ◌≢◌, ◌↔◌, refl, true, false, Text, [], ◌∷◌, codes, Option, some,
  none, length, arith, text_eq, text_eq_iff, is_empty,
}
use edge_grid.Prelude.Int.{ℤ, pos, ltb_ℤ}
use edge_grid.Prelude.Path.{any}
use edge_grid.Prelude.Lines.{trim_space, trim_space_right, is_newline}
use edge_grid.Prelude.Results.{ok, err}
use edge_grid.Node.Acl.{
  lookup, set_entry, valid_stable_id, written, cut_at, replace_newlines, write_failed,
}
use edge_grid.Node.Acl.Stored.{lookup-set_entry}
use edge_grid.Node.Inbox.{has_name, candidate, reserve_inbox_file}
use edge_grid.Node.Accept.{Acl, Space, check_accept, max_blob_bytes, space_headroom}
use edge_grid.Node.Accept.Policy.{Permits, HasRoom, check_accept_iff}

-- A stand-in for time.Parse.
parse : Text → Option ℤ
parse s = some (pos (length s))

-- A hostname that tries to bring in a line of its own.
abbrev sly : Text
sly = codes "alpha\nallow=true"

abbrev stamp : Text
stamp = codes "2026-01-01T00:00:00Z"

abbrev acl : Acl
acl = record { files = []; default = codes "allow\n"; opens = true; reads = true }

abbrev disk : Space
disk = record { inbox = true; free = some 900_000_000 }

named : valid_stable_id (codes "n1") ≡ true
unfolding valid_stable_id is_empty
named = refl

no_newline : any is_newline stamp ≡ false
unfolding any
no_newline = refl

lookup-set_entry_example :
    let (r, gs) = set_entry true written true (codes "n1") sly false stamp [] in
    (r ≡ ok tt)
    × (lookup parse true true (codes "n1") gs
        ≡ ok (
            some (record {
              allow = false;
              hostname = trim_space (trim_space_right (replace_newlines sly));
              decided = parse (trim_space (trim_space_right stamp));
            })))
lookup-set_entry_example =
    lookup-set_entry parse (codes "n1") sly stamp false [] named no_newline (omega arith)
      (omega arith)

two_peers : codes "n2" ≢ codes "n1"
unfolding text_eq
two_peers e = let same : false ≡ true = (text_eq_iff (codes "n2") (codes "n1")).1 e in cc same

cut_short :
    set_entry true (cut_at 3) true (codes "n1") sly true stamp []
    ≡ (err write_failed, (set_entry true (cut_at 3) true (codes "n1") sly true stamp []).1)
unfolding set_entry valid_stable_id is_empty
cut_short = refl

check_accept_iff_example :
    (check_accept parse acl (codes "9000") disk (codes "n1") (pos 5000) ≡ ok tt) ↔ (
      Permits parse acl (codes "n1")
      × (ltb_ℤ (max_blob_bytes (codes "9000")) (pos 5000) ≡ false)
      × (disk.inbox ≡ true)
      × HasRoom (5000 + space_headroom) disk.free)
check_accept_iff_example =
    check_accept_iff parse acl (codes "n1") (codes "9000") disk 5000 (omega arith)

nobody : valid_stable_id [] ≡ false
unfolding valid_stable_id is_empty
nobody = refl

-- An inbox with a file of that name already.
reserved :
    reserve_inbox_file (λ n. true) (codes "a.txt") (codes "a.txt" ∷ [])
    ≡ (ok (codes "a (1).txt"), codes "a (1).txt" ∷ codes "a.txt" ∷ [])
unfolding reserve_inbox_file edge_grid.Node.Inbox.reserve_loop has_name text_eq candidate is_empty
    edge_grid.Node.Inbox.stem edge_grid.Node.Inbox.ext edge_grid.Prelude.show
reserved = refl
