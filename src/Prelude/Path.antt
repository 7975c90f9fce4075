-- ===== src/Prelude/Path.antt =====
-- The functions of Go's strings and path/filepath packages that the program calls, on bytes.
use edge_grid.Prelude.{
  ℕ, ◌≡◌, refl, Bool, false, not, ◌&&◌, ◌||◌, Text, List, [], ◌∷◌, ◌++◌, codes, is_empty, text_eq,
  ◌==◌, if◌then◌else◌,
}

unfoldable pub any : (ℕ → Bool) → Text → Bool
any p [] = false
any p (c ∷ s) = p c || any p s

-- What stands behind the last byte that passes, or all where none does.
unfoldable pub after_last : (ℕ → Bool) → Text → Text
unfolding any
after_last p [] = []
after_last p (c ∷ s) =
    let rest = after_last p s in if any p s then rest else if p c then s else c ∷ s

-- strings.TrimLeftFunc and TrimRightFunc.
unfoldable pub trim_left : (ℕ → Bool) → Text → Text
trim_left p [] = []
trim_left p (c ∷ s) = let rest = trim_left p s in if p c then rest else c ∷ s

unfoldable pub trim_right : (ℕ → Bool) → Text → Text
unfolding is_empty
trim_right p [] = []
trim_right p (c ∷ s) = let rest = trim_right p s in if is_empty rest && p c then [] else c ∷ rest

abbrev pub is_slash : ℕ → Bool
is_slash c = c == b'/'

-- filepath.Base on a Unix path.
unfoldable pub base_name : Text → Text
unfolding after_last trim_right
base_name path =
    let last = after_last is_slash (trim_right is_slash path) in
    if is_empty path then codes "." else if is_empty last then codes "/" else last

base_name_examples :
    (base_name (codes "/home/a/movie.mkv") ≡ codes "movie.mkv")
    × (base_name (codes "dir//") ≡ codes "dir")
    × (base_name (codes "//") ≡ codes "/")
    × (base_name [] ≡ codes ".")
unfolding base_name
base_name_examples = (refl, refl, refl, refl)

extend : ℕ → List Text → List Text
extend c [] = (c ∷ []) ∷ []
extend c (g ∷ gs) = (c ∷ g) ∷ gs

-- What stands between the slashes.
segments : Text → List Text
unfolding extend
segments [] = [] ∷ []
segments (c ∷ s) = let rest = segments s in if is_slash c then [] ∷ rest else extend c rest

-- Back over the last element; above the root there is nothing, and a relative path keeps its "..".
up : Bool → List Text → List Text
up rooted [] = if rooted then [] else codes ".." ∷ []
up rooted (g ∷ gs) = if not rooted && text_eq g (codes "..") then codes ".." ∷ g ∷ gs else gs

-- One element of a path, on the elements before it, the last first.
add_segment : Bool → List Text → Text → List Text
unfolding up
add_segment rooted stack seg =
    if is_empty seg || text_eq seg (codes ".")
    then stack
    else if text_eq seg (codes "..")
    then up rooted stack
    else seg ∷ stack

add_segments : Bool → List Text → List Text → List Text
unfolding add_segment
add_segments rooted stack [] = stack
add_segments rooted stack (g ∷ gs) = add_segments rooted (add_segment rooted stack g) gs

slashed : List Text → Text → Text
slashed [] acc = acc
slashed (g ∷ gs) acc = slashed gs (b'/' ∷ (g ++ acc))

without_slash : Text → Text
without_slash [] = codes "."
without_slash (c ∷ s) = s

is_rooted : Text → Bool
is_rooted [] = false
is_rooted (c ∷ s) = is_slash c

-- filepath.Clean on a Unix path.
unfoldable pub clean : Text → Text
unfolding segments add_segments slashed without_slash is_rooted
clean path =
    let tail = slashed (add_segments (is_rooted path) [] (segments path)) [] in
    if is_rooted path then (if is_empty tail then codes "/" else tail) else without_slash tail

-- filepath.Join of two elements; an empty one is left out.
unfoldable pub join : Text → Text → Text
join a b =
    if is_empty a
    then (if is_empty b then [] else clean b)
    else if is_empty b
    then clean a
    else clean (a ++ (b'/' ∷ b))

join_examples :
    (join (codes "/home/u") (codes "/a//b/../c") ≡ codes "/home/u/a/c")
    × (join (codes "/home/u/") [] ≡ codes "/home/u")
    × (join (codes "/") (codes "..") ≡ codes "/")
    × (join (codes "a") (codes "../..") ≡ codes "..")
    × (join (codes "a") (codes "..") ≡ codes ".")
unfolding join clean text_eq is_empty
join_examples = (refl, refl, refl, refl, refl)
