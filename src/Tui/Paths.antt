-- ===== src/Tui/Paths.antt =====
-- expandPath and checkSinglePath of internal/tui/dashboard/peers.go, on Unix: what a user typed, or
-- what a terminal pasted for a dropped file, as one path.
use edge_grid.Prelude.{
  ℕ, zero, suc, ◌+◌, ◌-◌, ◌≡◌, refl, Bool, true, false, not, ◌&&◌, ◌||◌, Text, List, [], ◌∷◌, ◌++◌,
  Option, none, some, codes, length, take, drop, text_eq, is_empty, ltb, leb, ◌==◌, if◌then◌else◌,
}
use edge_grid.Prelude.Lines.{trim_space}
use edge_grid.Prelude.Path.{join}

-- strings.HasPrefix(s, p) and strings.TrimPrefix(s, p)
unfoldable pub has_prefix : Text → Text → Bool
has_prefix s p = text_eq (take (length p) s) p

unfoldable pub trim_prefix : Text → Text → Text
trim_prefix s p = if has_prefix s p then drop (length p) s else s

-- strings.Count(s, p) of a p that is not empty: occurrences that do not overlap. `k` is what is left
-- of one already counted.
count_from : Text → ℕ → Text → ℕ
count_from p k [] = 0
count_from p zero (c ∷ s) =
    let found = has_prefix (c ∷ s) p in
    (if found then 1 else 0) + count_from p (if found then length p - 1 else 0) s
count_from p (suc k) (c ∷ s) = count_from p k s

unfoldable pub count : Text → Text → ℕ
unfolding count_from
count s p = count_from p 0 s

unfoldable pub contains : Text → Text → Bool
contains [] p = is_empty p
contains (c ∷ s) p = has_prefix (c ∷ s) p || contains s p

-- strings.ReplaceAll(p, `\ `, " ")
unfoldable pub unescape_spaces : Text → Text
unescape_spaces [] = []
unescape_spaces (c ∷ []) = c ∷ []
unescape_spaces (c ∷ d ∷ s) =
    let rest = unescape_spaces s in
    let shifted = unescape_spaces (d ∷ s) in
    if c == b'\\' && d == b' ' then b' ' ∷ rest else c ∷ shifted

last : Text → ℕ
last [] = 0
last (c ∷ []) = c
last (c ∷ d ∷ s) = last (d ∷ s)

first : Text → ℕ
first [] = 0
first (c ∷ s) = c

-- `p[1 : len(p)-1]` where a pair of quotes stands around the path.
unfoldable pub unquote : Text → Text
unfolding first last
unquote p =
    if leb 2 (length p) && (first p == 39 && last p == 39 || first p == b'"' && last p == b'"')
    then drop 1 (take (length p - 1) p)
    else p

-- `home` is os.UserHomeDir, none for its error.
unfoldable pub expand_path : Option Text → Text → Text
expand_path home s =
    let p = unescape_spaces (unquote (trim_space s)) in
    if text_eq p (codes "~") || has_prefix p (codes "~/")
    then elim home [ none ↦ p | some h ↦ join h (trim_prefix p (codes "~")) ]
    else p

-- Whether checkSinglePath makes an error.
unfoldable pub is_multiple : Option Text → Text → Bool
is_multiple home p = elim home [
  | none ↦ contains (trim_prefix p (codes "/")) (codes " /")
  | some h ↦
      not (is_empty h) && ltb 1 (count p (h ++ codes "/"))
      || contains (trim_prefix p (codes "/")) (codes " /")
]

paths_examples :
    (expand_path (some (codes "/home/u")) (codes " '/a b/c' ") ≡ codes "/a b/c")
    × (expand_path (some (codes "/home/u")) (codes "~/x\\ y") ≡ codes "/home/u/x y")
    × (is_multiple (some (codes "/home/u")) (codes "/home/u/a/home/u/b") ≡ true)
    × (is_multiple none (codes "/a/b.mp4 /c") ≡ true)
    × (is_multiple (some (codes "/home/u")) (codes "/mnt/home/u/a b") ≡ false)
unfolding expand_path unescape_spaces unquote is_multiple contains count has_prefix trim_prefix
    text_eq trim_space edge_grid.Prelude.Lines.trim_space_left
    edge_grid.Prelude.Lines.trim_space_right join edge_grid.Prelude.Path.clean
paths_examples = (refl, refl, refl, refl, refl)
