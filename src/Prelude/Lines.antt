-- ===== src/Prelude/Lines.antt =====
-- strings.TrimSpace, strings.Cut and bufio.ScanLines, on the bytes of UTF-8 text.
use edge_grid.Prelude.{
  ℕ, zero, suc, ◌-◌, ◌≡◌, refl, Bool, false, ◌&&◌, ◌||◌, Text, List, [], ◌∷◌, ◌++◌, Option, none,
  some, codes, is_empty, ◌==◌, leb, if◌then◌else◌, arith,
}
use edge_grid.Prelude.Path.{any}

-- The bytes of the white space (unicode.IsSpace) at the start of a text, 0 where there is none.
space_3 : ℕ → ℕ → ℕ → ℕ
space_3 a b c =
    if a == 225 && (b == 154 && c == 128)  -- U+1680
    then 3
    else if a == 226
        && (b == 128 && (leb 128 c && leb c 138 || (c == 168 || (c == 169 || c == 175))))
    then 3  -- U+2000 to U+200A, U+2028, U+2029, U+202F
    else if a == 226 && (b == 129 && c == 159)  -- U+205F
    then 3
    else if a == 227 && (b == 128 && c == 128)  -- U+3000
    then 3
    else 0

space_more : ℕ → Text → ℕ
unfolding space_3
space_more a [] = 0
space_more a (b ∷ []) = if a == 194 && (b == 133 || b == 160) then 2 else 0
space_more a (b ∷ c ∷ s) = if a == 194 && (b == 133 || b == 160) then 2 else space_3 a b c

unfoldable pub space_len : Text → ℕ
unfolding space_more
space_len [] = 0
space_len (a ∷ s) =
    if a == 32 || leb 9 a && leb a 13 then 1 else if leb a 193 then 0 else space_more a s

-- The text without its leading white space; `k` is what is left of a character already seen.
unfoldable pub skip_space : ℕ → Text → Text
unfolding space_len
skip_space k [] = []
skip_space zero (c ∷ s) =
    let rest = skip_space (space_len (c ∷ s) - 1) s in
    if space_len (c ∷ s) == 0 then c ∷ s else rest
skip_space (suc k) (c ∷ s) = skip_space k s

unfoldable pub trim_space_left : Text → Text
unfolding skip_space
trim_space_left s = skip_space 0 s

-- A text of white space only is trimmed away.
unfoldable pub trim_space_right : Text → Text
unfolding trim_space_left is_empty
trim_space_right [] = []
trim_space_right (c ∷ s) =
    let rest = trim_space_right s in if is_empty (trim_space_left (c ∷ s)) then [] else c ∷ rest

unfoldable pub trim_space : Text → Text
trim_space s = trim_space_left (trim_space_right s)

trim_space_examples :
    (trim_space (codes " a b\t\r") ≡ codes "a b")
    × (trim_space (194 ∷ 160 ∷ 120 ∷ 226 ∷ 128 ∷ 168 ∷ 32 ∷ []) ≡ codes "x")
    × (trim_space (codes "  ") ≡ [])
unfolding trim_space trim_space_left trim_space_right
trim_space_examples = (refl, refl, refl)

in_front : ℕ → Option (Text × Text) → Option (Text × Text)
in_front c none = none
in_front c (some (a, b)) = some (c ∷ a, b)

-- strings.Cut(s, sep) with a separator of one byte; none where it is not there.
unfoldable pub cut : ℕ → Text → Option (Text × Text)
unfolding in_front
cut sep [] = none
cut sep (c ∷ s) = let rest = cut sep s in if c == sep then some ([], s) else in_front c rest

begin : ℕ → List Text → List Text
begin c [] = (c ∷ []) ∷ []
begin c (l ∷ ls) = (c ∷ l) ∷ ls

-- The lines of a file as bufio.ScanLines cuts them; an end of line at the end starts no other line.
unfoldable pub lines : Text → List Text
unfolding begin
lines [] = []
lines (c ∷ s) = let rest = lines s in if c == 10 then [] ∷ rest else begin c rest

lines_example : lines (codes "a=1\n\nb") ≡ codes "a=1" ∷ [] ∷ codes "b" ∷ []
unfolding lines
lines_example = refl

abbrev pub is_newline : ℕ → Bool
is_newline c = c == 10

-- A line with its end behind it is cut off whole.
pub lines-append :
    (s rest : Text) → any is_newline s ≡ false → lines (s ++ (10 ∷ rest)) ≡ s ∷ lines rest
unfolding lines any
lines-append [] rest h = refl
lines-append (c ∷ s) rest h = ground (arith, lines-append s rest)
