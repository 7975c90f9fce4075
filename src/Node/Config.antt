-- ===== src/Node/Config.antt =====
-- internal/node/config.go: what a node is started with, from the command line, the environment and the
-- files of its data directory.
pub mod Started
use edge_grid.Prelude.{
  Bool, true, not, ◌&&◌, ◌||◌, Text, List, [], ◌∷◌, ◌++◌, Option, none, some, codes, text_eq,
  is_empty, ◌==◌, if◌then◌else◌,
}
use edge_grid.Prelude.Results.{Result, ok, err}
use edge_grid.Tui.Fields.{Files, Outcome, succeeds, fails, load_token, put_file}
use edge_grid.Tui.Landing.{resolve_data_dir}

pub record Config : Type 0 where
  pub data_dir : Text
  pub profile_name : Text
  pub tailscale_auth_key : Text
  pub tailscale_hostname : Text

-- The values of the three flags.
pub record Flags : Type 0 where
  pub data_dir : Text
  pub ts_authkey : Text
  pub ts_hostname : Text

abbrev pub no_flags : Flags
no_flags = record { data_dir = []; ts_authkey = []; ts_hostname = [] }

-- What flag.Parse ends the process with.
pub data FlagError : Type 0 where
  bad_syntax not_defined needs_argument : Text → FlagError
  help : FlagError

-- One argument: the end of the flags, a flag with its value, or one whose value follows.
pub data Arg : Type 0 where
  stop : Arg
  bad : FlagError → Arg
  with_value : Text → Text → Arg
  named : Text → Arg

is_defined : Text → Bool
is_defined name =
    text_eq name (codes "data-dir")
    || (text_eq name (codes "ts-authkey") || text_eq name (codes "ts-hostname"))

-- The name, and what follows the first '='.
cut_value : Text → Text × Option Text
cut_value [] = ([], none)
cut_value (c ∷ s) =
    let rest = cut_value s in if c == b'=' then ([], some s) else (c ∷ rest.0, rest.1)

defined : Text → Option Text → Arg
unfolding is_defined
defined name v =
    if is_defined name
    then elim v [ none ↦ named name | some x ↦ with_value name x ]
    else if text_eq name (codes "help") || text_eq name (codes "h")
    then bad help
    else bad (not_defined name)

-- What stands behind the dashes.
flag_arg : Text → Arg
unfolding cut_value defined
flag_arg [] = bad (bad_syntax [])
flag_arg (c ∷ s) =
    if c == b'-' || c == b'='
    then bad (bad_syntax (c ∷ s))
    else let cut = cut_value (c ∷ s) in defined cut.0 cut.1

dashed : Text → Arg
unfolding flag_arg
dashed [] = stop
dashed (c ∷ []) = if c == b'-' then stop else flag_arg (c ∷ [])
dashed (c ∷ d ∷ s) = if c == b'-' then flag_arg (d ∷ s) else flag_arg (c ∷ d ∷ s)

-- flag.Parse on one argument.
unfoldable pub classify : Text → Arg
unfolding dashed
classify [] = stop
classify (c ∷ s) = if c == b'-' then dashed s else stop

set_flag : Text → Text → Flags → Flags
set_flag name v f =
    if text_eq name (codes "data-dir")
    then record f { data_dir = v }
    else if text_eq name (codes "ts-authkey")
    then record f { ts_authkey = v }
    else record f { ts_hostname = v }

-- flag.Parse; the name is that of a flag whose value is to come.
unfoldable pub parse_flags : Option Text → List Text → Flags → Result FlagError Flags
unfolding classify set_flag
parse_flags none [] f = ok f
parse_flags (some name) [] f = err (needs_argument name)
parse_flags (some name) (v ∷ args) f = parse_flags none args (set_flag name v f)
parse_flags none (s ∷ args) f = elim (classify s) [
  | stop ↦ ok f
  | bad e ↦ err e
  | with_value name v ↦ parse_flags none args (set_flag name v f)
  | named name ↦ parse_flags (some name) args f
]

-- What the calls return: ActiveProfile, ProfileRoot, os.Getenv, os.Hostname (empty for its error),
-- RandomToken and SaveToken, and the files of each directory.
pub record Machine : Type 0 where
  pub active : Text
  pub root : Option Text
  pub env : Text → Text
  pub hostname : Text
  pub random : Option Text
  pub save : Outcome
  pub files : Text → Files

-- resolveDataDir, the profile.
unfoldable pub resolve_profile : Text → Text → Option Text → Text → Text
resolve_profile flag env root active =
    if not (is_empty flag)
    then []
    else if not (is_empty env)
    then []
    else elim root [ none ↦ [] | some r ↦ active ]

-- firstNonEmpty, of two.
unfoldable pub first_non_empty : Text → Text → Text
first_non_empty a b = if is_empty a then b else a

abbrev pub suffix_file : Text
suffix_file = codes "hostname.suffix"

with_suffix : Text → Text → Text
with_suffix base suffix = base ++ (codes "-" ++ suffix)

new_suffix : Outcome → Text → Text → Files → Text × Files
unfolding with_suffix
new_suffix succeeds base suffix d = (with_suffix base suffix, put_file suffix_file (some suffix) d)
new_suffix (fails rest) base suffix d = (base, put_file suffix_file rest d)

random_suffix : Option Text → Outcome → Text → Files → Text × Files
unfolding new_suffix
random_suffix none o base d = (base, d)
random_suffix (some s) o base d = if is_empty s then (base, d) else new_suffix o base s d

-- defaultHostname, and the files of the directory after it.
unfoldable pub default_hostname : Machine → Files → Text × Files
unfolding random_suffix with_suffix first_non_empty
default_hostname w d =
    let base = first_non_empty w.hostname (codes "edgegrid") in
    let suffix = load_token suffix_file d in
    if is_empty suffix then random_suffix w.random w.save base d else (with_suffix base suffix, d)

configured : Machine → Flags → Config × Files
unfolding default_hostname resolve_profile first_non_empty
configured w f =
    let dir = resolve_data_dir f.data_dir (w.env (codes "DATA_DIR")) w.root w.active in
    let given = first_non_empty f.ts_hostname (w.env (codes "TS_HOSTNAME")) in
    let host = if is_empty given then default_hostname w (w.files dir) else (given, w.files dir) in
    (
      record {
        data_dir = dir;
        profile_name = resolve_profile f.data_dir (w.env (codes "DATA_DIR")) w.root w.active;
        tailscale_auth_key = first_non_empty f.ts_authkey (w.env (codes "TS_AUTHKEY"));
        tailscale_hostname = host.0;
      },
      host.1,
    )

-- loadConfigOnce, with the files of the data directory after it. `args` is os.Args without the program's
-- own name, which starts with the subcommand.
unfoldable pub load_config_once : Machine → List Text → Result FlagError (Config × Files)
unfolding parse_flags configured
load_config_once w args = elim (parse_flags none args no_flags) [
  | ok f ↦ ok (configured w f)
  | err e ↦ err e
]
