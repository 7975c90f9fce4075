-- ===== src/Executor/Capped.antt =====
-- What a capped buffer holds after any writes.
use edge_grid.Prelude.{
  ℕ, zero, suc, ◌+◌, ◌-◌, ◌≤◌, ◌<◌, ◌≡◌, refl, subst, sym, ap, if◌then◌else◌, true, false, Text,
  List, [], ◌∷◌, ◌++◌, take, length, ltb, arith, append-nil, append_assoc, length-append,
  length-take, take_all, Bool-cases, inl, inr, ltb→lt, ltb_false→le, lt→ltb, le→ltb_false,
}
use edge_grid.Prelude.Results.{ok, err}
use edge_grid.Executor.{
  CappedBuffer, write, write_all, max_output, empty_buffer, bare_run, output_exceeded,
}

-- All that a process wrote.
abbrev pub concat : List Text → Text
concat [] = []
concat (p ∷ ps) = p ++ concat ps

-- A buffer that was given the text `s`.
record Holds (n : ℕ) (s : Text) (c : CappedBuffer) : Type 0 where
  limit : c.limit ≡ n
  buf : c.buf ≡ take n s
  overflow : c.overflow ≡ ltb n (length s)

take-append_long : (n : ℕ) (s p : Text) → n ≤ length s → take n (s ++ p) ≡ take n s
take-append_long zero s p h = refl
take-append_long (suc n) [] p h = absurd (omega arith)
take-append_long (suc n) (x ∷ s) p h = rw (take-append_long n s p (omega arith)) refl

take-append_short :
    (n : ℕ) (s p : Text) → length s ≤ n → take n (s ++ p) ≡ s ++ take (n - length s) p
take-append_short n [] p h = ap (λ (k : ℕ). take k p) (omega arith)
take-append_short zero (x ∷ s) p h = absurd (omega arith)
take-append_short (suc n) (x ∷ s) p h =
    rw (take-append_short n s p (omega arith))
      (ap (λ (k : ℕ). x ∷ (s ++ take k p)) (both_suc n (length s)))
  where
    both_suc : (a b : ℕ) → a - b ≡ suc a - suc b
    both_suc a b = omega arith

-- A buffer that is full, and one that has room.
write_full :
    (n : ℕ) (s p : Text)
    → n < length s
    → Holds n (s ++ p) (write p (record { buf = take n s; limit = n; overflow = true }))
unfolding write
write_full n s p h =
    let all : length (take n s) ≡ n = omega (arith, length-take n s, h) in
    let none_left : n - length (take n s) ≡ 0 = omega (arith, all) in
    let over : ltb n (length (s ++ p)) ≡ true = lt→ltb _ _ (omega (arith, length-append s p, h)) in
    let same = take-append_long n s p (omega (arith, h)) in
    elim (Bool-cases (ltb n (length (take n s) + length p))) [
      | inl e ↦ rw e (record {
        limit = refl;
        buf = rw (same, none_left) (append-nil (take n s));
        overflow = sym over;
      })
      | inr e ↦ rw e (record {
        limit = refl;
        buf = rw same (nothing p (omega (arith, all, ltb_false→le _ _ e)));
        overflow = sym over;
      })
    ]
  where
    nothing : (q : Text) → length q ≤ 0 → take n s ++ q ≡ take n s
    nothing [] k = append-nil (take n s)
    nothing (x ∷ q) k = absurd (omega arith)

write_room :
    (n : ℕ) (s p : Text)
    → length s ≤ n
    → Holds n (s ++ p) (write p (record { buf = s; limit = n; overflow = false }))
unfolding write
write_room n s p h = elim (Bool-cases (ltb n (length s + length p))) [
  | inl e ↦ rw e (record {
    limit = refl;
    buf = sym (take-append_short n s p h);
    overflow = sym (lt→ltb _ _ (omega (arith, length-append s p, ltb→lt _ _ e)));
  })
  | inr e ↦ rw e (record {
    limit = refl;
    buf = sym (take_all n (s ++ p) (omega (arith, length-append s p, ltb_false→le _ _ e)));
    overflow = sym (le→ltb_false _ _ (omega (arith, length-append s p, ltb_false→le _ _ e)));
  })
]

write-Holds : (n : ℕ) (s p : Text) (c : CappedBuffer) → Holds n s c → Holds n (s ++ p) (write p c)
write-Holds n s p c h = elim (Bool-cases (ltb n (length s))) [
  | inl e ↦
      let same : c ≡ record { buf = take n s; limit = n; overflow = true } =
        cc (h.limit, h.buf, h.overflow, e) in
      subst (λ (b : CappedBuffer). Holds n (s ++ p) (write p b)) (sym same)
        (write_full n s p (ltb→lt _ _ e))
  | inr e ↦
      let all = take_all n s (ltb_false→le _ _ e) in
      let same : c ≡ record { buf = s; limit = n; overflow = false } =
        cc (h.limit, h.buf, h.overflow, e, all) in
      subst (λ (b : CappedBuffer). Holds n (s ++ p) (write p b)) (sym same)
        (write_room n s p (ltb_false→le _ _ e))
]

write_all-Holds :
    (n : ℕ) (s : Text) (ps : List Text) (c : CappedBuffer)
    → Holds n s c
    → Holds n (s ++ concat ps) (write_all ps c)
unfolding write_all
write_all-Holds n s [] c h = rw append-nil h
write_all-Holds n s (p ∷ ps) c h =
    rw (sym (append_assoc s p (concat ps)))
      (write_all-Holds n (s ++ p) ps (write p c) (write-Holds n s p c h))

-- A run of a plain process that exits well gives back all that it wrote, if that is 1 MiB at most, and
-- otherwise an error; it never gives back a part of it.
pub bare_run-whole :
    (pieces : List Text)
    → bare_run pieces true ≡ (
        if ltb max_output (length (concat pieces)) then err output_exceeded else ok (concat pieces))
unfolding bare_run
bare_run-whole pieces =
    let held =
      write_all-Holds max_output [] pieces empty_buffer
        (record { limit = refl; buf = refl; overflow = refl }) in
    elim (Bool-cases (ltb max_output (length (concat pieces)))) [
      | inl e ↦ rw (held.overflow, e) refl
      | inr e ↦
          rw (held.overflow, e, held.buf, take_all max_output (concat pieces) (ltb_false→le _ _ e))
            refl
    ]
