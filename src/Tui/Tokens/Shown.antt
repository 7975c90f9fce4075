-- ===== src/Tui/Tokens/Shown.antt =====
-- How long a minted key is on the screen.
use edge_grid.Prelude.{◌≡◌, Bool, true, false, List, [], ◌∷◌, none, some, arith, All}
use edge_grid.Prelude.Results.{ok, err}
use edge_grid.Tui.Tokens.{
  Tokens, Msg, update, shown, live, token_copied, dismiss, copy, other_key, mint, revoke, copy_live,
  hide_live, revoke_live,
}

unfoldable pub update_all : List Msg → Tokens → Tokens
update_all [] m = m
update_all (x ∷ xs) m = update_all xs (update x m).0

abbrev pub is_mint : Msg → Bool
is_mint (mint (ok k)) = true
is_mint (mint (err e)) = false
is_mint token_copied = false
is_mint dismiss = false
is_mint copy = false
is_mint other_key = false
is_mint (revoke e) = false

update-hides :
    (x : Msg) (m : Tokens) → is_mint x ≡ false → shown m ≡ none → shown (update x m).0 ≡ none
unfolding update shown live copy_live hide_live revoke_live
update-hides (mint (ok k)) m h s = cc
update-hides (mint (err e)) m h s = s
update-hides token_copied m h s = ground arith
update-hides dismiss m h s = ground arith
update-hides copy m h s = ground arith
update-hides other_key m h s = s
update-hides (revoke none) m h s = ground arith
update-hides (revoke (some e)) m h s = ground arith

-- A key that is off the screen, since it was copied, dismissed or revoked, never comes back: only minting
-- another one shows a key again.
pub update_all-hides :
    (xs : List Msg) (m : Tokens)
    → All (λ (x : Msg). is_mint x ≡ false) xs
    → shown m ≡ none
    → shown (update_all xs m) ≡ none
unfolding update_all
update_all-hides [] m a s = s
update_all-hides (x ∷ xs) m (h, a) s = update_all-hides xs (update x m).0 a (update-hides x m h s)
