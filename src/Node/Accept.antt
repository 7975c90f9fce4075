-- ===== src/Node/Accept.antt =====
-- What a node answers to an offer: checkAccept of internal/node/acl.go, checkTaskAccept of
-- task_acl.go, and checkSpace of freespace.go.
pub mod Policy
use edge_grid.Prelude.{
  ℕ, zero, suc, ◌+◌, ◌-◌, ◌*◌, ◌^◌, ◌%◌, ◌≡◌, refl, Bool, true, false, not, ◌&&◌, Text, [], ◌∷◌,
  Option, none, some, codes, ltb, leb, ◌==◌, if◌then◌else◌,
}
use edge_grid.Prelude.Int.{ℤ, pos, negsuc, ltb_ℤ, bits64}
use edge_grid.Prelude.Lines.{trim_space}
use edge_grid.Prelude.Results.{Result, ok, err, refuse_if, ◌>>=◌, ◌>>◌}
use edge_grid.Node.Acl.{Files, AclEntry, AclError, lookup, default_allows}

-- The refusals that a peer gets to see; not_enough_space has the bytes needed and the bytes free.
pub data Refusal : Type 0 where
  not_accepting_files not_accepting_tasks could_not_store : Refusal
  too_large : ℤ → ℤ → Refusal
  not_enough_space : ℕ → ℕ → Refusal

-- One ACL of a node: its directory, the text of its default file (empty where it cannot be read), and
-- whether opening and reading an entry goes through.
pub record Acl : Type 0 where
  pub files : Files
  pub default : Text
  pub opens : Bool
  pub reads : Bool

-- The switch of checkAccept and checkTaskAccept.
allowed_by : Bool → Result AclError (Option AclEntry) → Bool
allowed_by default (err e) = false
allowed_by default (ok (some entry)) = entry.allow
allowed_by default (ok none) = default

unfoldable pub allowed : (Text → Option ℤ) → Acl → Text → Bool
unfolding allowed_by
allowed parse_time acl id =
    allowed_by (default_allows acl.default) (lookup parse_time acl.opens acl.reads id acl.files)

unfoldable pub check_task_accept : (Text → Option ℤ) → Acl → Text → Result Refusal (Unit {0})
check_task_accept parse_time acl id =
    if not (allowed parse_time acl id) then err not_accepting_tasks else ok tt

-- 256 << 20 and 10 << 30
abbrev pub space_headroom : ℕ
space_headroom = 268_435_456

abbrev pub default_max_blob_bytes : ℤ
default_max_blob_bytes = pos 10_737_418_240

-- The inbox's file system: whether the inbox can be made, and its free bytes where they can be read.
pub record Space : Type 0 where
  pub inbox : Bool
  pub free : Option ℕ

fits : ℕ → Option ℕ → Result Refusal (Unit {0})
fits need none = ok tt
fits need (some free) = if ltb free need then err (not_enough_space need free) else ok tt

unfoldable pub check_space : Space → ℤ → Result Refusal (Unit {0})
unfolding fits
check_space space size =
    if not space.inbox
    then err could_not_store
    else fits ((bits64 size + space_headroom) % 2 ^ 64) space.free

is_digit : ℕ → Bool
is_digit c = leb b'0' c && leb c b'9'

-- The number that the digits at the start of a text make, from the value of those before it.
scan_digits : ℕ → Text → ℕ
unfolding is_digit
scan_digits n [] = n
scan_digits n (c ∷ s) =
    let rest = scan_digits (n * 10 + (c - b'0')) s in if is_digit c then rest else n

-- A number below `limit`, or none for what fmt makes an error: no digit, or one out of range.
scan_below : ℕ → Text → Option ℕ
unfolding scan_digits
scan_below limit [] = none
scan_below limit (c ∷ s) =
    let n = scan_digits 0 (c ∷ s) in
    if not (is_digit c) then none else if ltb n limit then some n else none

positive : Option ℕ → Option ℤ
positive none = none
positive (some n) = some (pos n)

negative : Option ℕ → Option ℤ
negative none = none
negative (some zero) = some (pos 0)
negative (some (suc n)) = some (negsuc n)

-- fmt.Sscanf(s, "%d", &n) on an int64, for a text without white space in front. What follows the
-- digits is not read.
unfoldable pub scan_int : Text → Option ℤ
unfolding scan_below positive negative
scan_int [] = none
scan_int (c ∷ s) =
    if c == b'-'
    then negative (scan_below (2 ^ 63 + 1) s)
    else positive (scan_below (2 ^ 63) (if c == b'+' then s else c ∷ s))

limit_of : Option ℤ → ℤ
limit_of none = default_max_blob_bytes
limit_of (some n) = if ltb_ℤ (pos 0) n then n else default_max_blob_bytes

-- maxBlobBytes, on the text of the override file (empty where it cannot be read).
unfoldable pub max_blob_bytes : Text → ℤ
unfolding limit_of
max_blob_bytes s = limit_of (scan_int (trim_space s))

max_blob_bytes_examples :
    (max_blob_bytes (codes "5000\n") ≡ pos 5000)
    × (max_blob_bytes (codes "10GB") ≡ pos 10)
    × (max_blob_bytes (codes "-3") ≡ default_max_blob_bytes)
    × (max_blob_bytes [] ≡ default_max_blob_bytes)
unfolding max_blob_bytes scan_int trim_space edge_grid.Prelude.Lines.trim_space_left
    edge_grid.Prelude.Lines.trim_space_right
max_blob_bytes_examples = (refl, refl, refl, refl)

unfoldable pub check_accept :
    (Text → Option ℤ) → Acl → Text → Space → Text → ℤ → Result Refusal (Unit {0})
check_accept parse_time acl override space id size = do
  refuse_if (not (allowed parse_time acl id)) not_accepting_files
  refuse_if (ltb_ℤ (max_blob_bytes override) size) (too_large size (max_blob_bytes override))
  check_space space size
