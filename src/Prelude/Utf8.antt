-- ===== src/Prelude/Utf8.antt =====
-- UTF-8 as Go's `range` over a string and unicode/utf8 read it.
use edge_grid.Prelude.{
  ℕ, zero, suc, ◌-◌, ◌≡◌, refl, Bool, true, false, not, ◌&&◌, Text, [], ◌∷◌, codes, take, length,
  ltb, leb, ◌==◌, if◌then◌else◌, ◌≤◌, arith,
}
use edge_grid.Prelude.Path.{any}

between : ℕ → ℕ → ℕ → Bool
between a b c = leb a c && leb c b

-- A continuation byte.
tail_byte : ℕ → Bool
unfolding between
tail_byte c = between 128 191 c

-- The range of the second byte after the first byte `a` of a rune of three or four bytes.
second_of_3 : ℕ → ℕ → Bool
unfolding between
second_of_3 a b =
    if a == 224
    then between 160 191 b
    else if a == 237
    then between 128 159 b
    else between 128 191 b

second_of_4 : ℕ → ℕ → Bool
unfolding between
second_of_4 a b =
    if a == 240
    then between 144 191 b
    else if a == 244
    then between 128 143 b
    else between 128 191 b

len_2 : ℕ → Text → ℕ
unfolding tail_byte
len_2 a [] = 0
len_2 a (b ∷ s) = if tail_byte b then 2 else 0

len_3 : ℕ → Text → ℕ
unfolding tail_byte second_of_3
len_3 a (b ∷ c ∷ s) = if second_of_3 a b && tail_byte c then 3 else 0
len_3 a _ = 0

len_4 : ℕ → Text → ℕ
unfolding tail_byte second_of_4
len_4 a (b ∷ c ∷ d ∷ s) = if second_of_4 a b && (tail_byte c && tail_byte d) then 4 else 0
len_4 a _ = 0

-- The bytes of the rune at the start of a text, 0 where there is no valid one.
unfoldable pub rune_len : Text → ℕ
unfolding len_2 len_3 len_4 between
rune_len [] = 0
rune_len (a ∷ s) =
    if ltb a 128
    then 1
    else if between 194 223 a
    then len_2 a s
    else if between 224 239 a
    then len_3 a s
    else if between 240 244 a
    then len_4 a s
    else 0

-- The bytes of a rune: one below 128, or none below.
pub any-rune :
    (p : ℕ → Bool) (c : ℕ) (s : Text)
    → ((b : ℕ) → 128 ≤ b → p b ≡ false)
    → p c ≡ false
    → any p (take (rune_len (c ∷ s)) (c ∷ s)) ≡ false
unfolding rune_len any
any-rune p c [] high h = ground (arith, high c)
any-rune p c (a ∷ []) high h = ground (arith, high c, high a)
any-rune p c (a ∷ b ∷ []) high h = ground (arith, high c, high a, high b)
any-rune p c (a ∷ b ∷ d ∷ s) high h = ground (arith, high c, high a, high b, high d)

-- utf8.ValidString; `k` is what is left of a rune already seen.
valid_from : ℕ → Text → Bool
valid_from k [] = true
valid_from zero (c ∷ s) = let n = rune_len (c ∷ s) in not (n == 0) && valid_from (n - 1) s
valid_from (suc k) (c ∷ s) = valid_from k s

unfoldable pub valid_string : Text → Bool
unfolding valid_from
valid_string s = valid_from 0 s

-- The cut of a text to its last prefix that is valid, by one byte after the other.
unfoldable pub drop_split : ℕ → Text → Text
drop_split zero s = s
drop_split (suc n) s = elim (valid_string s) [ true ↦ s | false ↦ drop_split n (take n s) ]

unfoldable pub last_valid : Text → Text
unfolding drop_split
last_valid s = drop_split (length s) s

utf8_examples :
    (valid_string (codes "ab") ≡ true)
    × (valid_string (195 ∷ 169 ∷ []) ≡ true)
    × (valid_string (237 ∷ 160 ∷ 128 ∷ []) ≡ false)
    × (last_valid (97 ∷ 226 ∷ 130 ∷ []) ≡ 97 ∷ [])
unfolding valid_string rune_len last_valid
utf8_examples = (refl, refl, refl, refl)
