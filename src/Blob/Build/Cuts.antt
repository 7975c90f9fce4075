-- ===== src/Blob/Build/Cuts.antt =====
-- The pieces that BuildManifest cuts a file into, and their hashes.
use edge_grid.Prelude.{
  ℕ, zero, suc, ◌+◌, ◌*◌, ◌^◌, ◌≤◌, ◌<◌, ◌≡◌, refl, sym, ap, ◌∙◌, subst, inl, inr, true, false,
  Text, List, [], ◌∷◌, ◌++◌, length, take, drop, leb, is_empty, arith, length-append, length-take,
  length-drop, take-append-drop, append-nil, append_assoc, take-append, drop-append, le→leb,
  Bool-cases, leb→le, le→leb_false,
}
use edge_grid.Prelude.Int.{pos, add64-pos}
use edge_grid.Prelude.Results.{ok}
use native.Mathlib.Nat.{add-zero}
use edge_grid.Disk.Laws.{readable, read_full_more, read_full_last}
use edge_grid.Blob.{ChunkInfo}
use edge_grid.Blob.Build.{Progress, add_chunk, build_loop}

module _ (sha256_hex : Text → Text) where
  abbrev pub chunk_of : ℕ → ℕ → Text → ChunkInfo
  chunk_of i off piece = record {
    index = pos i;
    offset = pos off;
    length = pos (length piece);
    sha256 = sha256_hex piece;
  }

  -- The chunks describe consecutive pieces of `s`, of 1 to n bytes, from position `i` and byte `off` on.
  abbrev pub Cuts : ℕ → ℕ → ℕ → Text → List ChunkInfo → Type 0
  Cuts n i off s [] = s ≡ []
  Cuts n i off s (c ∷ cs) =
      (piece : Text) × (rest : Text) × (s ≡ piece ++ rest)
      × (c ≡ chunk_of i off piece)
      × (1 ≤ length piece)
      × (length piece ≤ n)
      × Cuts n (suc i) (off + length piece) rest cs

  -- The variables of the loop after it has gone through `s`.
  abbrev after : Progress → ℕ → ℕ → Text → List ChunkInfo → Progress
  after p i off s cs = record {
    chunks = p.chunks ++ cs;
    whole = p.whole ++ s;
    offset = pos (off + length s);
    index = pos (i + length cs);
  }

  add_chunk_empty : (p : Progress) → add_chunk sha256_hex p [] ≡ p
  unfolding add_chunk is_empty
  add_chunk_empty p = refl

  abbrev at : ℕ → ℕ → List ChunkInfo → Text → Progress
  at i off cs whole = record { chunks = cs; whole = whole; offset = pos off; index = pos i }

  add_chunk_piece :
      (i off : ℕ) (cs : List ChunkInfo) (whole s : Text)
      → 1 ≤ length s
      → off + length s < 2 ^ 63
      → i + 1 < 2 ^ 63
      → add_chunk sha256_hex (at i off cs whole) s
        ≡ at (suc i) (off + length s) (cs ++ (chunk_of i off s ∷ [])) (whole ++ s)
  unfolding add_chunk is_empty
  add_chunk_piece i off cs whole [] h a b = absurd (omega arith)
  add_chunk_piece i off cs whole (x ∷ s) h a b =
      rw (add64-pos off (length (x ∷ s)) a, add64-pos i 1 b)
        (ap
          (λ (k : ℕ).
            at k (off + length (x ∷ s)) (cs ++ (chunk_of i off (x ∷ s) ∷ [])) (whole ++ (x ∷ s)))
          (omega arith))

  -- A round that fills the buffer goes on; any other ends the loop.
  loop_full :
      (fuel n : ℕ) (s : Text) (p : Progress)
      → leb n (length s) ≡ true
      → build_loop sha256_hex (suc fuel) n (readable s) p
        ≡ build_loop sha256_hex fuel n (readable (drop n s)) (add_chunk sha256_hex p (take n s))
  unfolding build_loop
  loop_full fuel n s p h = ground (arith, read_full_more n s h)

  loop_last :
      (fuel n : ℕ) (s : Text) (p : Progress)
      → leb n (length s) ≡ false
      → build_loop sha256_hex (suc fuel) n (readable s) p ≡ ok (add_chunk sha256_hex p s)
  unfolding build_loop is_empty
  loop_last fuel n [] p h = ground (arith, read_full_last n [] h)
  loop_last fuel n (x ∷ s) p h = ground (arith, read_full_last n (x ∷ s) h)

  -- The variables after a piece and then the rest, in one go.
  at_step :
      (i off : ℕ) (cs new : List ChunkInfo) (whole piece rest : Text) (c : ChunkInfo)
      → at
          (suc i + length new)
          (off + length piece + length rest)
          ((cs ++ (c ∷ [])) ++ new)
          ((whole ++ piece) ++ rest)
        ≡ at
            (i + suc (length new))
            (off + length (piece ++ rest))
            (cs ++ (c ∷ new))
            (whole ++ (piece ++ rest))
  at_step i off cs new whole piece rest c = cc (
    ap pos (index i (length new)),
    ap pos (offset off piece rest),
    append_assoc cs (c ∷ []) new,
    append_assoc whole piece rest,
  )
    where
      index : (a b : ℕ) → suc a + b ≡ a + suc b
      index a b = omega arith

      offset : (a : ℕ) (x y : Text) → a + length x + length y ≡ a + length (x ++ y)
      offset a x y = omega (arith, length-append x y)

  abbrev Looped : ℕ → ℕ → ℕ → ℕ → Text → List ChunkInfo → Text → Type 0
  Looped fuel n i off s cs whole =
      (new : List ChunkInfo) × (build_loop sha256_hex fuel n (readable s) (at i off cs whole)
        ≡ ok (at (i + length new) (off + length s) (cs ++ new) (whole ++ s)))
      × Cuts n i off s new
      × (length new * n < length s + n)

  loop_more :
      (fuel n i off : ℕ) (piece rest : Text) (cs : List ChunkInfo) (whole : Text)
      → 1 ≤ n
      → n ≡ length piece
      → off + length piece < 2 ^ 63
      → i + 1 < 2 ^ 63
      → Looped fuel n
          (suc i)
          (off + length piece)
          rest
          (cs ++ (chunk_of i off piece ∷ []))
          (whole ++ piece)
      → Looped (suc fuel) n i off (piece ++ rest) cs whole
  loop_more fuel n i off piece rest cs whole hn e ho hi (new, run, cuts, few) = (
    chunk_of i off piece ∷ new,
    loop_full fuel n (piece ++ rest) (at i off cs whole)
          (le→leb n _ (omega (arith, length-append piece rest)))
        ∙ rw
            (
              take-append n piece rest e,
              drop-append n piece rest e,
              add_chunk_piece i off cs whole piece (omega arith) ho hi,
            )
            run
        ∙ ap ok (at_step i off cs new whole piece rest (chunk_of i off piece)),
    (piece, rest, refl, refl, omega arith, omega arith, cuts),
    omega (arith, length-append piece rest),
  )

  at_same :
      (i off : ℕ) (cs : List ChunkInfo) (whole : Text)
      → at i off cs whole ≡ at (i + 0) (off + 0) (cs ++ []) (whole ++ [])
  at_same i off cs whole =
      cc (ap pos (add-zero i), ap pos (add-zero off), append-nil cs, append-nil whole)

  loop_end :
      (fuel n i off : ℕ) (s : Text) (cs : List ChunkInfo) (whole : Text)
      → length s < n
      → off + length s < 2 ^ 63
      → i + 1 < 2 ^ 63
      → Looped (suc fuel) n i off s cs whole
  loop_end fuel n i off [] cs whole h ho hi = (
    [],
    loop_last fuel n [] (at i off cs whole) (le→leb_false n 0 h)
        ∙ ap ok (add_chunk_empty (at i off cs whole) ∙ at_same i off cs whole),
    refl,
    omega arith,
  )
  loop_end fuel n i off (x ∷ s) cs whole h ho hi = (
    chunk_of i off (x ∷ s) ∷ [],
    loop_last fuel n (x ∷ s) (at i off cs whole) (le→leb_false n _ h)
        ∙ ap ok (
            add_chunk_piece i off cs whole (x ∷ s) (omega arith) ho hi
            ∙ ap
                (λ (k : ℕ).
                  at k (off + length (x ∷ s)) (cs ++ (chunk_of i off (x ∷ s) ∷ []))
                    (whole ++ (x ∷ s)))
                (omega arith)),
    (x ∷ s, [], sym (append-nil (x ∷ s)), refl, omega arith, omega arith, refl),
    omega arith,
  )

  pub loop_cuts :
      (fuel n i off : ℕ) (s : Text) (cs : List ChunkInfo) (whole : Text)
      → 1 ≤ n
      → length s < fuel
      → off + length s < 2 ^ 63
      → i + length s + 1 < 2 ^ 63
      → Looped fuel n i off s cs whole
  loop_cuts zero n i off s cs whole hn hf ho hi = absurd (omega arith)
  loop_cuts (suc fuel) n i off s cs whole hn hf ho hi = elim (Bool-cases (leb n (length s))) [
    | inl more ↦
        let piece = take n s in
        let rest = drop n s in
        let k : n ≡ length piece = omega (arith, leb→le _ _ more, length-take n s) in
        subst (λ (t : Text). Looped (suc fuel) n i off t cs whole) (take-append-drop n s)
          (loop_more fuel n i off piece rest cs whole hn k (omega (arith, length-take n s))
            (omega arith)
            (loop_cuts fuel n (suc i) (off + length piece) rest (cs ++ (chunk_of i off piece ∷ []))
              (whole ++ piece) hn (omega (arith, leb→le _ _ more, length-drop n s))
              (omega (arith, leb→le _ _ more, length-drop n s))
              (omega (arith, leb→le _ _ more, length-drop n s))))
    | inr last ↦ loop_end fuel n i off s cs whole (ground arith) ho (omega arith)
  ]
