-- ===== src/Node/Config/Started.antt =====
-- What a node is started with, whatever its command line says, and what it is called the next time.
use edge_grid.Prelude.{
  ◌≡◌, ◌≢◌, ◌⊎◌, inl, inr, Option, none, if◌then◌else◌, refl, sym, ap, ◌∙◌, false, Text, List, [],
  ◌∷◌, some, codes, text_eq, is_empty,
}
use edge_grid.Prelude.Results.{Result, ok}
use edge_grid.Prelude.Path.{join}
use edge_grid.Tui.Fields.{Files, succeeds, load_token, put_file}
use edge_grid.Tui.Landing.{resolve_data_dir, active_dir}
use edge_grid.Node.Config.{
  Config, FlagError, resolve_profile, Machine, no_flags, classify, parse_flags, load_config_once,
  configured, default_hostname, random_suffix, new_suffix, with_suffix, suffix_file,
  first_non_empty,
}

-- The subcommands of the program that load a configuration.
pub data NodeCommand : Text → Type 0 where
  up : NodeCommand (codes "up")
  dashboard : NodeCommand (codes "dashboard")
  task : NodeCommand (codes "task")

-- Where a node of the configuration c keeps its state, from DATA_DIR, ProfileRoot and ActiveProfile.
abbrev pub Found : Text → Option Text → Text → Config → Type 0
Found env root active c =
    ((env ≢ []) × (c.data_dir ≡ env) × (c.profile_name ≡ []))
    ⊎ ((env ≡ [])
        × (active ≢ [])
        × ((r : Text) × (root ≡ some r) × (c.data_dir ≡ join r active) × (c.profile_name ≡ active)))
    ⊎ ((env ≡ [])
        × ((active ≡ []) ⊎ (root ≡ none))
        × (c.data_dir ≡ codes "./data")
        × (c.profile_name ≡ []))

found :
    (env : Text) (root : Option Text) (active auth host : Text)
    → Found env root active (record {
      data_dir = resolve_data_dir [] env root active;
      profile_name = resolve_profile [] env root active;
      tailscale_auth_key = auth;
      tailscale_hostname = host;
    })
unfolding resolve_data_dir active_dir resolve_profile is_empty
found (x ∷ e) root active auth host = inl ((λ h. cc), refl, refl)
found [] none [] auth host = inr (inr (refl, inl refl, refl, refl))
found [] none (x ∷ a) auth host = inr (inr (refl, inr refl, refl, refl))
found [] (some r) [] auth host = inr (inr (refl, inl refl, refl, refl))
found [] (some r) (x ∷ a) auth host = inr (inl (refl, (λ h. cc), (r, refl, refl, refl)))

-- The hostname that is given wins.
named :
    (w : Machine) (t : Text) (d : Files)
    → (t ≡ []) ⊎ ((if is_empty t then default_hostname w d else (t, d)).0 ≡ t)
unfolding is_empty
named w [] d = inl refl
named w (x ∷ t) d = inr refl

started :
    (w : Machine)
    → let (c, d) = configured w no_flags in
      (k : Config) × (e : Files) × (◌≡◌ {A = Result FlagError (Config × Files)}
        (ok (c, d))
        (ok (k, e)))
      × Found (w.env (codes "DATA_DIR")) w.root w.active k
      × (k.tailscale_auth_key ≡ w.env (codes "TS_AUTHKEY"))
      × ((w.env (codes "TS_HOSTNAME") ≡ []) ⊎ (k.tailscale_hostname ≡ w.env (codes "TS_HOSTNAME")))
unfolding configured first_non_empty is_empty
started w = (
  (configured w no_flags).0,
  (configured w no_flags).1,
  refl,
  found (w.env (codes "DATA_DIR")) w.root w.active (w.env (codes "TS_AUTHKEY"))
      (configured w no_flags).0.tailscale_hostname,
  refl,
  named w (w.env (codes "TS_HOSTNAME"))
      (w.files (resolve_data_dir [] (w.env (codes "DATA_DIR")) w.root w.active)),
)

-- Of whatever arguments stand behind the subcommand, flags among them, nothing is read: the process goes
-- on, and a node starts in DATA_DIR if that is not empty and names no profile then, else in the directory of
-- the active profile below ProfileRoot, and else in ./data, naming none; its key is TS_AUTHKEY, and its
-- hostname TS_HOSTNAME if that is not empty.
pub load_config_once-env :
    (w : Machine) (s : Text) (rest : List Text)
    → NodeCommand s
    → (c : Config) × (d : Files) × (load_config_once w (s ∷ rest) ≡ ok (c, d))
      × Found (w.env (codes "DATA_DIR")) w.root w.active c
      × (c.tailscale_auth_key ≡ w.env (codes "TS_AUTHKEY"))
      × ((w.env (codes "TS_HOSTNAME") ≡ []) ⊎ (c.tailscale_hostname ≡ w.env (codes "TS_HOSTNAME")))
unfolding load_config_once parse_flags classify configured first_non_empty is_empty
load_config_once-env w _ rest up = started w
load_config_once-env w _ rest dashboard = started w
load_config_once-env w _ rest task = started w

-- A suffix that is kept is the one of each later start.
kept_suffix :
    (v : Machine) (t : Text) (d : Files)
    → is_empty t ≡ false
    → load_token suffix_file d ≡ t
    → default_hostname v d ≡ (with_suffix (first_non_empty v.hostname (codes "edgegrid")) t, d)
unfolding default_hostname
kept_suffix v t d n e = rw (default_hostname, e, n) refl

drawn_suffix :
    (w : Machine) (t : Text) (d : Files)
    → w.random ≡ some t
    → is_empty t ≡ false
    → w.save ≡ succeeds
    → load_token suffix_file d ≡ []
    → default_hostname w d ≡ (
      with_suffix (first_non_empty w.hostname (codes "edgegrid")) t,
      put_file suffix_file (some t) d,
    )
unfolding default_hostname random_suffix new_suffix is_empty
drawn_suffix w t d r n s e = rw (default_hostname, e, r, s, n) refl

saved_suffix : (t : Text) (d : Files) → load_token suffix_file (put_file suffix_file (some t) d) ≡ t
unfolding load_token put_file text_eq
saved_suffix t d = refl

-- The name that a node presents stays: where the first start drew a suffix and could save it, every later
-- start in the directory, whatever it would draw itself and whether it could save it, has the same
-- hostname as long as the machine's own is the same, and changes no file.
pub default_hostname-stays :
    (w v : Machine) (d : Files) (t : Text)
    → w.random ≡ some t
    → is_empty t ≡ false
    → w.save ≡ succeeds
    → v.hostname ≡ w.hostname
    → load_token suffix_file d ≡ []
    → default_hostname v (default_hostname w d).1 ≡ default_hostname w d
default_hostname-stays w v d t r n s h e =
    ap (λ x. default_hostname v x.1) (drawn_suffix w t d r n s e)
    ∙ (kept_suffix v t (put_file suffix_file (some t) d) n (saved_suffix t d)
        ∙ (ap
              (λ x. (
                with_suffix (first_non_empty x (codes "edgegrid")) t,
                put_file suffix_file (some t) d,
              ))
              h
            ∙ sym (drawn_suffix w t d r n s e)))
