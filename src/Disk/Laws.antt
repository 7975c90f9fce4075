-- ===== src/Disk/Laws.antt =====
-- Reading a file that no disk error cuts short.
use native.Mathlib.Nat.{zero-add}
use edge_grid.Prelude.{
  zero, suc, ◌-◌, sym, ap, ◌∙◌, ◌∷◌, replicate, append-nil, append_assoc, ℕ, ◌+◌, ◌≡◌, refl, true,
  false, Text, [], ◌++◌, take, drop, length, leb, le→leb, is_empty, if◌then◌else◌, arith,
  length-append, take-append, drop-append,
}
use edge_grid.Disk.{File, full, short, eof, read_full, write_at}

abbrev pub readable : Text → File
readable s = record { contents = s; broken = false }

pub read_full_more :
    (n : ℕ) (s : Text)
    → leb n (length s) ≡ true
    → read_full n (readable s)
      ≡ record { bytes = take n s; ended = full; file = readable (drop n s) }
unfolding read_full
read_full_more n s h = rw h

pub read_full_last :
    (n : ℕ) (s : Text)
    → leb n (length s) ≡ false
    → read_full n (readable s)
      ≡ record { bytes = s; ended = if is_empty s then eof else short; file = readable [] }
unfolding read_full
read_full_last n s h = rw h

-- Reading what stands in front.
pub read_full-piece :
    (piece rest : Text)
    → read_full (length piece) (readable (piece ++ rest))
      ≡ record { bytes = piece; ended = full; file = readable rest }
read_full-piece piece rest = rw (
  read_full_more (length piece) (piece ++ rest)
      (le→leb _ _ (omega (arith, length-append piece rest))),
  take-append (length piece) piece rest refl,
  drop-append (length piece) piece rest refl,
)

abbrev pub zeros : ℕ → Text
zeros n = replicate n 0

pub replicate-append : (a b : ℕ) → zeros (a + b) ≡ zeros a ++ zeros b
replicate-append zero b = ap zeros (zero-add b)
replicate-append (suc a) b =
    ap zeros (suc-add a b) ∙ ap (λ (t : Text). 0 ∷ t) (replicate-append a b)
  where
    suc-add : (x y : ℕ) → suc x + y ≡ suc (x + y)
    suc-add x y = omega arith

-- A write inside the file replaces as many bytes as it has.
pub write_at-inside :
    (front old back s : Text)
    → length old ≡ length s
    → write_at (front ++ (old ++ back)) (length front) s ≡ front ++ (s ++ back)
unfolding write_at
write_at-inside front old back s h = rw (
  no_gap,
  append-nil,
  take-append (length front) front (old ++ back) refl,
  sym (append_assoc front old back),
  drop-append (length front + length s) (front ++ old) back
      (omega (arith, length-append front old)),
)
  where
    no_gap : length front - length (front ++ (old ++ back)) ≡ 0
    no_gap = omega (arith, length-append front (old ++ back))
