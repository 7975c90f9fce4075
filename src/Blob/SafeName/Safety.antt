-- ===== src/Blob/SafeName/Safety.antt =====
-- The names that SafeName returns.
use edge_grid.Prelude.{
  ℕ, zero, suc, ◌-◌, ◌≤◌, ◌≡◌, refl, Bool, false, ◌||◌, Text, [], ◌∷◌, ◌++◌, length, length-take,
  take, ltb, ◌==◌, arith, Bool-cases, inl, inr, ltb_false→le,
}
use edge_grid.Prelude.Path.{any, after_last, trim_left, trim_right}
use edge_grid.Prelude.Lines.{trim_space, trim_space_left, trim_space_right, skip_space, space_len}
use edge_grid.Prelude.Utf8.{rune_len, last_valid, drop_split, valid_string, any-rune}
use edge_grid.Blob.SafeName.{
  max_name_len, is_separator, is_dot, is_dropped, written, keep_runes, avoid_device, shorten,
  safe_name, windows_reserved, to_upper, stem,
}

-- What a safe name does not hold.
abbrev pub is_unsafe : ℕ → Bool
is_unsafe c = is_separator c || is_dropped c

-- The first byte, if there is one, is no dot.
abbrev pub starts_with_dot : Text → Bool
starts_with_dot [] = false
starts_with_dot (c ∷ s) = is_dot c

module _ (p : ℕ → Bool) where
  any-append : (s t : Text) → any p s ≡ false → any p t ≡ false → any p (s ++ t) ≡ false
  unfolding any
  any-append [] t h k = k
  any-append (c ∷ s) t h k = ground (arith, any-append s t)

  any-take : (n : ℕ) (s : Text) → any p s ≡ false → any p (take n s) ≡ false
  unfolding any
  any-take zero s h = refl
  any-take (suc n) [] h = refl
  any-take (suc n) (c ∷ s) h = ground (arith, any-take n s)

  any-after_last : (q : ℕ → Bool) (s : Text) → any p s ≡ false → any p (after_last q s) ≡ false
  unfolding any after_last
  any-after_last q [] h = refl
  any-after_last q (c ∷ s) h = ground (arith, any-after_last q s)

  any-trim_left : (q : ℕ → Bool) (s : Text) → any p s ≡ false → any p (trim_left q s) ≡ false
  unfolding any trim_left
  any-trim_left q [] h = refl
  any-trim_left q (c ∷ s) h = ground (arith, any-trim_left q s)

  any-trim_right : (q : ℕ → Bool) (s : Text) → any p s ≡ false → any p (trim_right q s) ≡ false
  unfolding any trim_right
  any-trim_right q [] h = refl
  any-trim_right q (c ∷ s) h = ground (arith, any-trim_right q s)

  any-skip_space : (k : ℕ) (s : Text) → any p s ≡ false → any p (skip_space k s) ≡ false
  unfolding any skip_space
  any-skip_space zero [] h = refl
  any-skip_space (suc k) [] h = refl
  any-skip_space zero (c ∷ s) h = ground (arith, any-skip_space (space_len (c ∷ s) - 1) s)
  any-skip_space (suc k) (c ∷ s) h = ground (arith, any-skip_space k s)

  any-trim_space_right : (s : Text) → any p s ≡ false → any p (trim_space_right s) ≡ false
  unfolding any trim_space_right
  any-trim_space_right [] h = refl
  any-trim_space_right (c ∷ s) h = ground (arith, any-trim_space_right s)

  any-trim_space : (s : Text) → any p s ≡ false → any p (trim_space s) ≡ false
  unfolding trim_space trim_space_left
  any-trim_space s h = any-skip_space 0 (trim_space_right s) (any-trim_space_right s h)

none_after_last : (p : ℕ → Bool) (s : Text) → any p (after_last p s) ≡ false
unfolding any after_last
none_after_last p [] = refl
none_after_last p (c ∷ s) = ground (arith, none_after_last p s)

high_is_safe : (b : ℕ) → 128 ≤ b → is_unsafe b ≡ false
unfolding is_dropped
high_is_safe b h = ground arith

-- What is not dropped and is no separator is safe, and so is every byte of a longer rune.
written-safe : (c : ℕ) (s : Text) → is_separator c ≡ false → any is_unsafe (written (c ∷ s)) ≡ false
unfolding written any
written-safe c s h = elim (Bool-cases (rune_len (c ∷ s) == 0)) [
  | inl e ↦ rw e refl
  | inr e ↦ rw e (elim (Bool-cases (is_dropped c)) [
    | inl d ↦ rw d refl
    | inr d ↦ rw d (any-rune is_unsafe c s high_is_safe (ground arith))
  ])
]

keep_runes-safe :
    (k : ℕ) (s : Text) → any is_separator s ≡ false → any is_unsafe (keep_runes k s) ≡ false
unfolding any keep_runes
keep_runes-safe zero [] h = refl
keep_runes-safe (suc k) [] h = refl
keep_runes-safe zero (c ∷ s) h =
    any-append is_unsafe (written (c ∷ s)) _ (written-safe c s (ground arith))
      (keep_runes-safe (rune_len (c ∷ s) - 1) s (ground arith))
keep_runes-safe (suc k) (c ∷ s) h = keep_runes-safe k s (ground arith)

avoid_device-safe : (s : Text) → any is_unsafe s ≡ false → any is_unsafe (avoid_device s) ≡ false
unfolding avoid_device any is_dropped
avoid_device-safe s h = elim (Bool-cases (windows_reserved (to_upper (stem s)))) [
  | inl e ↦ rw e h
  | inr e ↦ rw e h
]

-- What cutting at the end keeps, SafeName's cut keeps.
module _ (P : Text → Type 0) (cut_keeps : (n : ℕ) (s : Text) → P s → P (take n s)) where
  drop_split_keeps : (n : ℕ) (s : Text) → P s → P (drop_split n s)
  unfolding drop_split
  drop_split_keeps zero s h = h
  drop_split_keeps (suc n) s h = elim (Bool-cases (valid_string s)) [
    | inl e ↦ rw (e, drop_split) h
    | inr e ↦ rw (e, drop_split) (drop_split_keeps n (take n s) (cut_keeps n s h))
  ]

  shorten_keeps : (s : Text) → P s → P (shorten s)
  unfolding shorten
  shorten_keeps s h = elim (Bool-cases (ltb max_name_len (length s))) [
    | inl e ↦
        rw e (
          unfold last_valid in
          drop_split_keeps _ (take max_name_len s) (cut_keeps max_name_len s h))
    | inr e ↦ rw e h
  ]

take_within : (n : ℕ) (s : Text) → length s ≤ max_name_len → length (take n s) ≤ max_name_len
take_within n s h = omega (arith, length-take n s)

length-shorten : (s : Text) → length (shorten s) ≤ max_name_len
unfolding shorten
length-shorten s = elim (Bool-cases (ltb max_name_len (length s))) [
  | inl e ↦ rw e (
      unfold last_valid in
      drop_split_keeps (λ (t : Text). length t ≤ max_name_len) take_within _ (take max_name_len s)
        (omega (arith, length-take max_name_len s)))
  | inr e ↦ rw e (ltb_false→le max_name_len (length s) e)
]

trim_left-dot : (s : Text) → starts_with_dot (trim_left is_dot s) ≡ false
unfolding trim_left
trim_left-dot [] = refl
trim_left-dot (c ∷ s) = ground (arith, trim_left-dot s)

take-dot : (n : ℕ) (s : Text) → starts_with_dot s ≡ false → starts_with_dot (take n s) ≡ false
take-dot zero s h = refl
take-dot (suc n) [] h = refl
take-dot (suc n) (c ∷ s) h = h

avoid_device-dot : (s : Text) → starts_with_dot s ≡ false → starts_with_dot (avoid_device s) ≡ false
unfolding avoid_device
avoid_device-dot s h = elim (Bool-cases (windows_reserved (to_upper (stem s)))) [
  | inl e ↦ rw e refl
  | inr e ↦ rw e h
]

-- Whatever name a peer sends, SafeName makes a name of at most 120 bytes without a separator, a control
-- character or a character that Windows reserves, and which does not start with a dot: it is empty or
-- names a file of the directory it is joined to.
pub safe_name-safe :
    (name : Text)
    → (any is_unsafe (safe_name name) ≡ false)
      × (length (safe_name name) ≤ max_name_len)
      × (starts_with_dot (safe_name name) ≡ false)
unfolding safe_name
safe_name-safe name =
    let kept = keep_runes 0 (after_last is_separator name) in
    let trimmed = trim_left is_dot (trim_right is_dot (trim_space kept)) in
    let clean : any is_unsafe kept ≡ false =
      keep_runes-safe 0 (after_last is_separator name) (none_after_last is_separator name) in
    (
      shorten_keeps (λ (t : Text). any is_unsafe t ≡ false) (any-take is_unsafe)
          (avoid_device trimmed)
          (avoid_device-safe trimmed (
            any-trim_left is_unsafe is_dot _
              (any-trim_right is_unsafe is_dot _ (any-trim_space is_unsafe kept clean)))),
      length-shorten (avoid_device trimmed),
      shorten_keeps (λ (t : Text). starts_with_dot t ≡ false) take-dot (avoid_device trimmed)
          (avoid_device-dot trimmed (trim_left-dot _)),
    )
