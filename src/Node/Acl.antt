-- ===== src/Node/Acl.antt =====
-- internal/node/aclstore.go and the ACL steps of acl.go and task_acl.go: one file for each peer.
pub mod Stored
use edge_grid.Prelude.{
  ℕ, Bool, true, false, not, ◌&&◌, ◌||◌, Text, List, [], ◌∷◌, ◌++◌, Option, none, some, length, ltb,
  leb, codes, is_empty, text_eq, if◌then◌else◌, take, ◌==◌,
}
use edge_grid.Prelude.Int.{ℤ}
use edge_grid.Prelude.Path.{any}
use edge_grid.Prelude.Lines.{trim_space, cut, lines}
use edge_grid.Prelude.Results.{Result, ok, err}
use edge_grid.Proc.{Proc}

-- The files of one ACL's directory, by name.
abbrev pub Files : Type 0
Files = List (Text × Text)

unfoldable pub get : Text → Files → Option Text
get name [] = none
get name ((n, s) ∷ fs) = let rest = get name fs in if text_eq n name then some s else rest

unfoldable pub remove : Text → Files → Files
remove name [] = []
remove name ((n, s) ∷ fs) =
    let rest = remove name fs in if text_eq n name then rest else (n, s) ∷ rest

unfoldable pub put : Text → Text → Files → Files
put name s fs = (name, s) ∷ remove name fs

-- The decision on a peer. `decided` is none for Go's zero time.
pub record AclEntry : Type 0 where
  pub allow : Bool
  pub hostname : Text
  pub decided : Option ℤ

abbrev pub empty_entry : AclEntry
empty_entry = record { allow = false; hostname = []; decided = none }

pub data AclError : Type 0 where
  bad_stable_id open_failed line_too_long read_failed : AclError
  mkdir_failed write_failed rename_failed : AclError

is_id_byte : ℕ → Bool
is_id_byte c =
    (leb b'A' c && leb c b'Z')
    || ((leb b'a' c && leb c b'z') || ((leb b'0' c && leb c b'9') || c == b'-'))

-- `^[A-Za-z0-9-]{1,64}$`
unfoldable pub valid_stable_id : Text → Bool
unfolding is_id_byte any
valid_stable_id id =
    not (is_empty id) && (leb (length id) 64 && not (any (λ c. not (is_id_byte c)) id))

-- time.Parse(time.RFC3339, v) in Unix seconds, none for an error.
module _ (parse_time : Text → Option ℤ) where
  -- The switch on a key.
  unfoldable pub set_key : Text → Text → AclEntry → AclEntry
  set_key key v e =
      if text_eq key (codes "allow")
      then record e { allow = text_eq v (codes "true") }
      else if text_eq key (codes "hostname")
      then record e { hostname = v }
      else if text_eq key (codes "decided")
      then record e { decided = parse_time v }
      else e

  set_pair : Option (Text × Text) → AclEntry → AclEntry
  unfolding set_key
  set_pair none e = e
  set_pair (some (key, v)) e = set_key (trim_space key) (trim_space v) e

  is_comment : Text → Bool
  is_comment [] = true
  is_comment (c ∷ s) = c == b'#'

  -- The body of the loop over the lines.
  unfoldable pub add_line : Text → AclEntry → AclEntry
  unfolding set_pair is_comment
  add_line s e =
      let line = trim_space s in if is_comment line then e else set_pair (cut b'=' line) e

  unfoldable pub add_lines : List Text → AclEntry → AclEntry
  add_lines [] e = e
  add_lines (l ∷ ls) e = add_lines ls (add_line l e)

  -- A line that fills the Scanner's buffer of 64 KiB without an end is bufio.ErrTooLong.
  any_too_long : List Text → Bool
  any_too_long [] = false
  any_too_long (l ∷ ls) = leb 65_536 (length l) || any_too_long ls

  -- The file's contents, and whether reading goes through.
  unfoldable pub scan : Bool → Text → Result AclError (Option AclEntry)
  unfolding any_too_long
  scan reads s =
      if any_too_long (lines s)
      then err line_too_long
      else if not reads
      then err read_failed
      else ok (some (add_lines (lines s) empty_entry))

  scan_file : Bool → Option Text → Result AclError (Option AclEntry)
  unfolding scan
  scan_file reads none = ok none
  scan_file reads (some s) = scan reads s

  -- lookup: none is "no entry". `opens` and `reads` say how the calls turn out.
  unfoldable pub lookup : Bool → Bool → Text → Files → Result AclError (Option AclEntry)
  unfolding scan_file
  lookup opens reads id fs =
      if not (valid_stable_id id)
      then err bad_stable_id
      else if not opens
      then err open_failed
      else scan_file reads (get id fs)

-- How os.WriteFile turns out: done, no file created, or a file cut off after some bytes.
pub data FileWrite : Type 0 where
  written not_created : FileWrite
  cut_at : ℕ → FileWrite

-- The Replacer: an end of line becomes a space.
unfoldable pub replace_newlines : Text → Text
replace_newlines [] = []
replace_newlines (c ∷ s) = (if c == 10 then 32 else if c == 13 then 32 else c) ∷ replace_newlines s

-- %t
show_bool : Bool → Text
show_bool true = codes "true"
show_bool false = codes "false"

-- `stamp` is the time of the decision in RFC 3339.
unfoldable pub entry_body : Bool → Text → Text → Text
unfolding show_bool
entry_body allow hostname stamp =
    codes "allow="
    ++ (show_bool allow
        ++ (codes "\nhostname=" ++ (hostname ++ (codes "\ndecided=" ++ (stamp ++ codes "\n")))))

abbrev pub tmp_name : Text → Text
tmp_name id = id ++ codes ".tmp"

written_as : FileWrite → Bool → Text → Text → Proc Files AclError (Unit {0})
unfolding put
written_as not_created renames id body fs = (err write_failed, fs)
written_as (cut_at n) renames id body fs = (err write_failed, put (tmp_name id) (take n body) fs)
written_as written false id body fs = (err rename_failed, put (tmp_name id) body fs)
written_as written true id body fs =
    (ok tt, put id body (remove (tmp_name id) (put (tmp_name id) body fs)))

unfoldable pub set_entry :
    Bool → FileWrite → Bool → Text → Text → Bool → Text → Proc Files AclError (Unit {0})
unfolding written_as
set_entry mkdirs write renames id hostname allow stamp fs =
    if not (valid_stable_id id)
    then (err bad_stable_id, fs)
    else if not mkdirs
    then (err mkdir_failed, fs)
    else written_as write renames id (entry_body allow (replace_newlines hostname) stamp) fs

-- defaultAllows, on the text of the default file (empty where it cannot be read).
unfoldable pub default_allows : Text → Bool
default_allows s = text_eq (trim_space s) (codes "allow")
