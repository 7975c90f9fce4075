-- ===== src/Tui/Tokens.antt =====
-- tokensModel of internal/tui/dashboard/tokens.go: minting a Tailscale auth key, showing it once, and
-- revoking it.
pub mod Shown
use edge_grid.Prelude.{
  Bool, true, false, not, ◌&&◌, Text, List, [], ◌∷◌, Option, none, some, if◌then◌else◌,
}
use edge_grid.Prelude.Results.{Result, ok, err}

pub record MintedKey : Type 0 where
  pub id : Text
  pub key : Text

pub record Tokens : Type 0 where
  pub just_minted : Option MintedKey
  pub revoked : Bool
  pub copied : Bool
  pub hidden : Bool
  pub error : Option Text

-- newTokensModel
unfoldable pub new_tokens_model : Tokens
new_tokens_model = record {
  just_minted = none;
  revoked = false;
  copied = false;
  hidden = false;
  error = none;
}

-- The keys, with what the call of the Tailscale API returns, and tokenCopiedMsg.
pub data Msg : Type 0 where
  token_copied dismiss copy other_key : Msg
  mint : Result Text MintedKey → Msg
  revoke : Option Text → Msg

pub data Cmd : Type 0 where
  nothing : Cmd
  copy_to_clipboard : Text → Cmd
  revoke_key : Text → Cmd

-- justMinted is set and its key was not revoked.
unfoldable pub live : Tokens → Option MintedKey
live m = if m.revoked then none else m.just_minted

copy_live : Option MintedKey → Tokens → Tokens × Cmd
copy_live none m = (m, nothing)
copy_live (some k) m = (m, if m.hidden then nothing else copy_to_clipboard k.key)

hide_live : Option MintedKey → Tokens → Tokens
hide_live none m = m
hide_live (some k) m = record m { hidden = true }

revoke_live : Option MintedKey → Option Text → Tokens → Tokens × Cmd
revoke_live none e m = (m, nothing)
revoke_live (some k) none m = (record m { error = none; revoked = true }, revoke_key k.id)
revoke_live (some k) (some e) m = (record m { error = some e }, revoke_key k.id)

-- tokensModel.Update
unfoldable pub update : Msg → Tokens → Tokens × Cmd
unfolding copy_live hide_live revoke_live
update token_copied m = (record m { copied = true; hidden = true }, nothing)
update (mint (ok k)) m = (
  record m { error = none; just_minted = some k; copied = false; revoked = false; hidden = false },
  nothing,
)
update (mint (err e)) m = (record m { error = some e }, nothing)
update copy m = copy_live (live m) m
update dismiss m = (hide_live (live m) m, nothing)
update (revoke e) m = revoke_live (live m) e m
update other_key m = (m, nothing)

-- The secret that View shows, in the last case of its switch.
unfoldable pub shown : Tokens → Option Text
shown m = elim (live m) [ none ↦ none | some k ↦ if m.hidden then none else some k.key ]
