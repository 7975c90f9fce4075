-- ===== src/Blob/SafeName.antt =====
-- SafeName of internal/blob/manifest.go: a file name off the wire as a single path component.
pub mod Safety
use edge_grid.Prelude.{
  ℕ, zero, suc, ◌+◌, ◌-◌, ◌≡◌, refl, Bool, true, false, not, ◌&&◌, ◌||◌, Text, List, [], ◌∷◌, ◌++◌,
  Option, none, some, codes, length, take, drop, ltb, leb, ◌==◌, if◌then◌else◌, text_eq,
}
use edge_grid.Prelude.Path.{any, after_last, trim_left, trim_right}
use edge_grid.Prelude.Lines.{trim_space, cut}
use edge_grid.Prelude.Utf8.{rune_len, last_valid}

abbrev pub max_name_len : ℕ
max_name_len = 120

abbrev pub is_separator : ℕ → Bool
is_separator c = c == b'/' || c == b'\\'

abbrev pub is_dot : ℕ → Bool
is_dot c = c == b'.'

-- Control characters, and the characters that are reserved on Windows.
unfoldable pub is_dropped : ℕ → Bool
is_dropped c =
    ltb c 32
    || (c == 127
        || (c == b'<'
            || (c == b'>'
                || (c == b':' || (c == b'"' || (c == b'|' || (c == b'?' || c == b'*')))))))

-- What the loop over the runes writes for the one at the start: U+FFFD for a byte that is no rune.
unfoldable pub written : Text → Text
unfolding is_dropped
written [] = []
written (c ∷ s) =
    if rune_len (c ∷ s) == 0
    then 239 ∷ 191 ∷ 189 ∷ []
    else if is_dropped c
    then []
    else take (rune_len (c ∷ s)) (c ∷ s)

-- The loop; `k` is what is left of a rune already seen.
unfoldable pub keep_runes : ℕ → Text → Text
unfolding written
keep_runes k [] = []
keep_runes zero (c ∷ s) = written (c ∷ s) ++ keep_runes (rune_len (c ∷ s) - 1) s
keep_runes (suc k) (c ∷ s) = keep_runes k s

-- strings.ToUpper, for the comparison with the reserved names: no character but an ASCII letter has
-- one of their letters as its upper case.
to_upper : Text → Text
to_upper [] = []
to_upper (c ∷ s) = (if leb b'a' c && leb c b'z' then c - 32 else c) ∷ to_upper s

device_number : Text → Bool
device_number (c ∷ []) = leb b'1' c && leb c b'9'
device_number s = false

-- The map windowsReserved
unfoldable pub windows_reserved : Text → Bool
unfolding device_number
windows_reserved s =
    text_eq s (codes "CON")
    || (text_eq s (codes "PRN")
        || (text_eq s (codes "AUX")
            || (text_eq s (codes "NUL")
                || ((text_eq (take 3 s) (codes "COM") || text_eq (take 3 s) (codes "LPT"))
                    && device_number (drop 3 s)))))

before : Text → Option (Text × Text) → Text
before s none = s
before s (some (a, b)) = a

-- The name in front of the first dot.
stem : Text → Text
unfolding before
stem s = before s (cut b'.' s)

unfoldable pub avoid_device : Text → Text
unfolding to_upper stem
avoid_device s = if windows_reserved (to_upper (stem s)) then b'_' ∷ s else s

unfoldable pub shorten : Text → Text
shorten s = if ltb max_name_len (length s) then last_valid (take max_name_len s) else s

unfoldable pub safe_name : Text → Text
unfolding avoid_device shorten
safe_name name =
    let kept = keep_runes 0 (after_last is_separator name) in
    shorten (avoid_device (trim_left is_dot (trim_right is_dot (trim_space kept))))

safe_name_examples :
    (safe_name (codes "../../.ssh/authorized_keys") ≡ codes "authorized_keys")
    × (safe_name (codes "C:\\Windows\\nul.txt") ≡ codes "_nul.txt")
    × (safe_name (codes "..") ≡ [])
    × (safe_name (97 ∷ 255 ∷ 0 ∷ codes "b ") ≡ 97 ∷ 239 ∷ 191 ∷ 189 ∷ codes "b")
unfolding safe_name windows_reserved text_eq cut trim_left trim_right trim_space
    edge_grid.Prelude.Lines.trim_space_left edge_grid.Prelude.Lines.trim_space_right keep_runes
    after_last rune_len
safe_name_examples = (refl, refl, refl, refl)
