-- ===== src/Node/Inbox.antt =====
-- reserveInboxFile of internal/node/blob_receive.go: a name of its own for a received file.
pub mod Reserved
use edge_grid.Prelude.{
  ℕ, zero, suc, ◌+◌, ◌-◌, ◌≡◌, refl, Bool, true, false, not, Text, List, [], ◌∷◌, ◌++◌, codes, show,
  length, take, drop, is_empty, text_eq, ◌==◌, if◌then◌else◌,
}
use edge_grid.Prelude.Path.{any, after_last}
use edge_grid.Prelude.Results.{Result, ok, err}
use edge_grid.Proc.{Proc}

-- The names in the inbox.
abbrev pub Names : Type 0
Names = List Text

unfoldable pub has_name : Text → Names → Bool
has_name name [] = false
has_name name (n ∷ ns) = let rest = has_name name ns in if text_eq n name then true else rest

pub data InboxError : Type 0 where
  open_failed too_many : InboxError

is_dot : ℕ → Bool
is_dot c = c == b'.'

-- filepath.Ext of a single path component: from its last dot on, empty where it has none.
unfoldable pub ext : Text → Text
unfolding is_dot any after_last
ext name =
    if any is_dot name then drop (length name - length (after_last is_dot name) - 1) name else []

-- strings.TrimSuffix(name, ext)
unfoldable pub stem : Text → Text
stem name = take (length name - length (ext name)) name

-- The n-th candidate: the name itself, then " (1)", " (2)" and so on in front of the extension.
unfoldable pub candidate : Text → ℕ → Text
candidate name n =
    if n == 0 then name else stem name ++ (codes " (" ++ (show n ++ (codes ")" ++ ext name)))

candidate_examples :
    (candidate (codes "a.tar.gz") 0 ≡ codes "a.tar.gz")
    × (candidate (codes "a.tar.gz") 12 ≡ codes "a.tar (12).gz")
    × (candidate (codes "notes") 1 ≡ codes "notes (1)")
unfolding candidate stem ext show
candidate_examples = (refl, refl, refl)

-- The loop, with the tries that are left and the number of the next one. `opens` says whether the n-th
-- create goes through where the name is free; O_EXCL makes it fail where the name is taken.
unfoldable pub reserve_loop : (ℕ → Bool) → Text → ℕ → ℕ → Proc Names InboxError Text
reserve_loop opens name zero n names = (err too_many, names)
reserve_loop opens name (suc left) n names =
    let rest = reserve_loop opens name left (suc n) names in
    if has_name (candidate name n) names
    then rest
    else if opens n
    then (ok (candidate name n), candidate name n ∷ names)
    else (err open_failed, names)

-- The name in the inbox that a file of this name gets; 1000 are tried.
unfoldable pub reserve_inbox_file : (ℕ → Bool) → Text → Proc Names InboxError Text
reserve_inbox_file opens name names =
    reserve_loop opens (if is_empty name then codes "blob" else name) 1000 0 names
