-- ===== src/Node/Inbound.antt =====
-- receiveBlob of internal/node/blob_receive.go: an inbound file, from the policy to the history.
pub mod Kept
pub mod Recorded
pub mod Stored
use edge_grid.Prelude.{
  ℕ, zero, suc, ◌+◌, ◌%◌, ◌^◌, ◌≡◌, refl, Bool, true, false, not, Text, List, [], ◌∷◌, ◌++◌, Option,
  none, some, codes, show, is_empty, text_eq, if◌then◌else◌,
}
use edge_grid.Prelude.Int.{ℤ, pos, negsuc, bits64}
use edge_grid.Prelude.Results.{Result, ok, err}
use edge_grid.Proc.{Proc}
use edge_grid.Net.{Conn}
use edge_grid.Json.{Codec}
use edge_grid.Blob.{Manifest, Progress}
use edge_grid.Blob.SafeName.{safe_name}
use edge_grid.Blob.Wire.{Error}
use edge_grid.Blob.Receive.{Outcomes, Receiver, receive}
use edge_grid.Db.Transfers
use edge_grid.Db.Transfers.{Rows}
use edge_grid.Node.Accept.{
  Acl, Space, Refusal, check_accept, space_headroom, not_accepting_files, not_accepting_tasks,
  could_not_store, too_large, not_enough_space,
}
use edge_grid.Node.Inbox.{Names, InboxError, reserve_inbox_file}
use edge_grid.Node.Sizes.{format_bytes}
use edge_grid.Node.Transfers.{
  Registry, inbound, start, report, finish, record_transfer_start, record_transfer_finish,
}

-- What WhoIs says of a peer: Node.StableID and Node.ComputedName.
pub record WhoIs : Type 0 where
  pub stable_id : Text
  pub computed_name : Text

unfoldable pub stable_id_of : Option WhoIs → Text
stable_id_of none = []
stable_id_of (some w) = w.stable_id

computed_name_of : Option WhoIs → Text
computed_name_of none = []
computed_name_of (some w) = w.computed_name

-- The label of a peer: its name on the tailnet, or else the name that it claims.
unfoldable pub label_of : Option WhoIs → Text → Text
unfolding computed_name_of
label_of who claimed = if is_empty (computed_name_of who) then claimed else computed_name_of who

-- How the rest of the world turns out during one transfer; the times are seconds.
pub record Outside : Type 0 where
  pub acl : Acl
  pub override : Text  -- the file max_blob_bytes
  pub space : Space
  pub sets_deadline : Bool
  pub start_fails : Bool  -- the row's INSERT
  pub finish_fails : Bool  -- its UPDATE
  pub makes_inbox : Bool
  pub opens : ℕ → Bool  -- the n-th name tried in the inbox
  pub disk : Outcomes
  pub removes : Bool
  pub started_at : ℤ
  pub finished_at : ℤ

show_int : ℤ → Text
show_int (pos n) = show n
show_int (negsuc n) = b'-' ∷ show (suc n)

-- The text of a refusal, which the peer gets to see; `size` is the size that was offered.
unfoldable pub refusal_text : ℤ → Refusal → Text
unfolding show_int
refusal_text size not_accepting_files = codes "this node is not accepting files from you"
refusal_text size not_accepting_tasks = codes "this node is not accepting tasks from you"
refusal_text size could_not_store = codes "this node could not store the file"
refusal_text size (too_large n limit) =
    codes "file is "
    ++ (show_int n ++ (codes " bytes; this node accepts at most " ++ show_int limit))
refusal_text size (not_enough_space need free) =
    codes "not enough free space on this node: need "
    ++ (format_bytes need
        ++ (codes " (file "
            ++ (format_bytes (bits64 size)
                ++ (codes " plus "
                    ++ (format_bytes space_headroom
                        ++ (codes " spare), have " ++ format_bytes free))))))

-- The variables that the callback of receiveBlob changes, with the inbox and the history.
pub record Accepting : Type 0 where
  pub names : Names
  pub history : Option Rows
  pub row : Option ℕ
  pub dest : Option Text
  pub refused : Bool

reserved : Result InboxError Text × Names → Proc Accepting Text Text
reserved (ok path, names) s = (ok path, record s { names = names; dest = some path })
reserved (err e, names) s =
    (err (codes "this node could not store the file"), record s { names = names })

recorded : Option ℕ × Option Rows → Accepting → Accepting
recorded (row, history) s = record s { row = row; history = history }

module _ (parse_time : Text → Option ℤ) (o : Outside) where
  decide : Manifest → Result Refusal (Unit {0}) → Proc Accepting Text Text
  unfolding reserved
  decide m (err e) s = (err (refusal_text m.size e), record s { refused = true })
  decide m (ok _) s =
      if not o.makes_inbox
      then (err (codes "this node could not store the file"), s)
      else reserved (reserve_inbox_file o.opens (safe_name m.name) s.names) s

  -- The callback of receiveBlob, for a peer of this StableID and label. A path is a name in the inbox.
  unfoldable pub accept : Text → Text → Manifest → Proc Accepting Text Text
  unfolding decide recorded
  accept id label m s = decide m (check_accept parse_time o.acl o.override o.space id m.size) (
      recorded
        (record_transfer_start o.start_fails o.started_at Transfers.inbound id label m.name m.size
          s.history)
        s)

-- os.Remove of a name.
unfoldable pub remove_name : Text → Names → Names
remove_name name [] = []
remove_name name (n ∷ ns) =
    let rest = remove_name name ns in if text_eq n name then ns else n ∷ rest

remove_dest : Bool → Option Text → Names → Names
remove_dest removes none names = names
remove_dest removes (some path) names = if removes then remove_name path names else names

unfoldable pub report_all : ℕ → List Progress → Registry → Registry
report_all p [] r = r
report_all p (q ∷ qs) r = report_all p qs (report p q r)

-- The parts of the node that a transfer changes.
pub record BlobNode : Type 0 where
  pub names : Names
  pub history : Option Rows
  pub registry : Registry

pub record Finished : Type 0 where
  pub node : BlobNode
  pub conn : Conn
  pub result : Option (Result Error Manifest)  -- none where the deadline could not be set
  pub file : Option (Text × Text)  -- the destination as Receive left it

-- `dest`, `refused`, `historyID` and `haveHistory` before the callback.
unfoldable pub unasked : BlobNode → Accepting
unasked n = record {
  names = n.names;
  history = n.history;
  row = none;
  dest = none;
  refused = false;
}

module _ (json : Codec Manifest) (sha256_hex : Text → Text) (parse_time : Text → Option ℤ)
    (error_text : Error → Text) (o : Outside) where
  -- What follows the call of blob.Receive, of the transfer p.
  after_receive : ℕ → Registry → Result Error Manifest × Receiver Accepting → Finished
  unfolding remove_dest
  after_receive p r (ok m, s) = record {
    node = record {
      names = s.policy.names;
      history =
          record_transfer_finish o.finish_fails o.finished_at s.policy.row none s.policy.refused
            m.sha256 s.policy.history;
      registry = finish p none (report_all p s.reports r);
    };
    conn = s.conn;
    result = some (ok m);
    file = s.file;
  }
  after_receive p r (err e, s) = record {
    node = record {
      names = remove_dest o.removes s.policy.dest s.policy.names;
      history =
          record_transfer_finish o.finish_fails o.finished_at s.policy.row (some (error_text e))
            s.policy.refused [] s.policy.history;
      registry = finish p (some (error_text e)) (report_all p s.reports r);
    };
    conn = s.conn;
    result = some (err e);
    file = s.file;
  }

  unfoldable pub receive_blob : Option WhoIs → Text → Conn → BlobNode → Finished
  unfolding after_receive
  receive_blob who claimed conn n =
      if not o.sets_deadline
      then record { node = n; conn = conn; result = none; file = none }
      else after_receive (suc n.registry.created) (start inbound (label_of who claimed) n.registry)
          (receive json sha256_hex o.disk
            (accept parse_time o (stable_id_of who) (label_of who claimed))
            (record { conn = conn; policy = unasked n; file = none; reports = [] }))
