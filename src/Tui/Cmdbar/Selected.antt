-- ===== src/Tui/Cmdbar/Selected.antt =====
-- The selection of the command line, and what it submits.
use edge_grid.Prelude.{
  ℕ, zero, suc, ◌+◌, ◌<◌, ◌≡◌, refl, Text, List, [], ◌∷◌, Option, none, some, length, get_elem?,
  is_empty, ltb, leb, if_intro, if_cases, arith, ltb→lt,
}
use edge_grid.Prelude.Int.{ℤ, pos, negsuc}
use edge_grid.Tui.Cmdbar.{
  Key, Bar, update, update_suggestions, matching, clamp, last_index, chosen, previous, following,
  moved, edited, complete, entered, close, esc, backspace, up, shift_tab, down, tab, enter, typed,
}

-- A selection is an index of the list, or -1.
abbrev pub InRange : ℤ → List Text → Type 0
InRange (pos n) xs = n < length xs
InRange (negsuc zero) xs = Unit
InRange (negsuc (suc n)) xs = ⊥

last_index-InRange : (xs : List Text) → InRange (last_index xs) xs
unfolding last_index
last_index-InRange [] = tt
last_index-InRange (x ∷ xs) = omega arith

clamp-InRange : (i : ℤ) (xs ys : List Text) → InRange i ys → InRange (clamp i xs) xs
unfolding clamp
clamp-InRange (negsuc zero) [] ys h = tt
clamp-InRange (negsuc zero) (x ∷ xs) ys h = tt
clamp-InRange (negsuc (suc n)) xs ys h = absurd h
clamp-InRange (pos n) xs ys h =
    if_cases (λ (i : ℤ). InRange i xs) (leb (length xs) n) _ _ (λ e. last_index-InRange xs)
      (λ e. ground (arith, e))

previous-InRange : (i : ℤ) (xs : List Text) → InRange i xs → InRange (previous i xs) xs
unfolding previous
previous-InRange (negsuc n) xs h = last_index-InRange xs
previous-InRange (pos zero) xs h = last_index-InRange xs
previous-InRange (pos (suc n)) xs h = omega arith

following-InRange :
    (i : ℤ) (xs : List Text) → 0 < length xs → InRange i xs → InRange (following i xs) xs
unfolding following
following-InRange (negsuc zero) xs l h = l
following-InRange (negsuc (suc n)) xs l h = absurd h
following-InRange (pos n) xs l h =
    if_cases (λ (i : ℤ). InRange i xs) (leb (length xs) (n + 1)) _ _ (λ e. l)
      (λ e. ground (arith, e))

moved-InRange :
    (f : ℤ → List Text → ℤ) (b : Bar)
    → (0 < length b.suggestions → InRange (f b.selected b.suggestions) b.suggestions)
    → InRange b.selected b.suggestions
    → InRange (moved f b).0.selected (moved f b).0.suggestions
unfolding moved
moved-InRange f b k h =
    if_cases (λ (i : ℤ). InRange i b.suggestions) (ltb 0 (length b.suggestions)) _ _
      (λ e. k (ltb→lt 0 _ e)) (λ e. h)

get_elem?_in : (n : ℕ) (xs : List Text) → n < length xs → (x : Text) × (get_elem? xs n ≡ some x)
get_elem?_in n [] h = absurd (omega arith)
get_elem?_in zero (x ∷ xs) h = (x, refl)
get_elem?_in (suc n) (x ∷ xs) h = get_elem?_in n xs (omega arith)

module _ (lower : Text → Text) (edit : Key → Text → Text) where
  -- Where the list is what matches the typed text, and the selection is in range.
  abbrev pub IsConsistent : Bar → Type 0
  IsConsistent b =
      (b.suggestions ≡ matching lower edit b.value b.commands) × InRange b.selected b.suggestions

  suggestions_fit :
      (b : Bar) → InRange b.selected b.suggestions → IsConsistent (update_suggestions lower edit b)
  unfolding update_suggestions
  suggestions_fit b h =
      (refl, clamp-InRange b.selected (matching lower edit b.value b.commands) b.suggestions h)

  complete-IsConsistent :
      (o : Option Text) (b : Bar) → IsConsistent b → IsConsistent (complete lower edit o b).0
  unfolding complete
  complete-IsConsistent none b c = c
  complete-IsConsistent (some s) b c = suggestions_fit (record b { value = s }) c.1

  entered-IsConsistent :
      (o : Option Text) (b : Bar) → IsConsistent b → IsConsistent (entered lower edit o b).0
  unfolding entered close
  entered-IsConsistent none b c = c
  entered-IsConsistent (some s) b c = c

  -- A key keeps the list of suggestions equal to the commands that start with what was typed, in either
  -- case of the letters, and the selection at one of them or at none.
  pub update-IsConsistent :
      (k : Key) (b : Bar) → IsConsistent b → IsConsistent (update lower edit k b).0
  unfolding update edited close
  update-IsConsistent esc b c = c
  update-IsConsistent backspace b c =
      if_intro (λ (q : Bar × Option Text). IsConsistent q.0) (is_empty b.value) _ _ c
        (suggestions_fit (record b { value = edit backspace b.value }) c.1)
  update-IsConsistent up b c =
      (c.0, moved-InRange previous b (λ l. previous-InRange b.selected b.suggestions c.1) c.1)
  update-IsConsistent shift_tab b c =
      (c.0, moved-InRange previous b (λ l. previous-InRange b.selected b.suggestions c.1) c.1)
  update-IsConsistent down b c =
      (c.0, moved-InRange following b (λ l. following-InRange b.selected b.suggestions l c.1) c.1)
  update-IsConsistent tab b c = complete-IsConsistent (chosen b.selected b.suggestions) b c
  update-IsConsistent enter b c = entered-IsConsistent (chosen b.selected b.suggestions) b c
  update-IsConsistent (typed x) b c =
      suggestions_fit (record b { value = edit (typed x) b.value }) c.1
