-- ===== src/Node/Transfers/Listing.antt =====
-- The registry under every interleaving of the transfers' goroutines and timers: what it lists.
use edge_grid.Prelude.{
  ℕ, suc, ◌≤◌, ◌≢◌, refl, Text, [], ◌∷◌, ◌++◌, Option, none, some, ◌==◌, All-append, arith,
  Bool-cases, inl, inr, ==_iff, ne→==_false, sym, subst,
}
use edge_grid.Node.Transfers.{
  Direction, Entry, Store, new_entry, start, on_entry, put_in, set_error, set_done, expire,
}
use edge_grid.Node.Transfers.Steps.{
  ==_self, All-map, All-remove, All-store, IsConsistent, KeepsPointer, Machine, Ordered-append,
  Ordered-remove, Ordered-store, Phase, Reach, Shows, Work, completes, ended, ends, expires, find,
  find-append, find-append_other, find-beyond, find-remove, find-store, gone, here, lingering,
  mapped, moved, next, reports, running, starts, unborn, works,
}

module _ {m : Machine} (c : IsConsistent m) where
  -- One store of a goroutine that is at work on the object q, and its next phase.
  store_step :
      (q : ℕ) (x : Phase) (f : Entry → Entry)
      → KeepsPointer f
      → m.phase q ≢ unborn
      → ((o : Option Entry) → Shows (m.phase q) o → Shows x (mapped f o))
      → IsConsistent (moved q x (on_entry q f m.registry) m)
  unfolding moved on_entry
  store_step q x f k born keep = record {
    shows = λ p. rw (find-store p q f m.registry.items k) (elim (Bool-cases (p == q)) [
      | inl e ↦ rw e (
          subst (λ (r : ℕ). Shows x (mapped f (find r m.registry.items))) (sym ((==_iff p q).0 e))
            (keep (find q m.registry.items) (c.shows q)))
      | inr e ↦ rw e (c.shows p)
    ]);
    ordered = Ordered-store q f m.registry.items k c.ordered;
    made = All-store (λ (n : ℕ). n ≤ m.registry.created) q f m.registry.items k c.made;
    later = λ p h. elim (Bool-cases (p == q)) [
      | inl e ↦ absurd (born (rw (← (==_iff p q).0 e) (c.later p h)))
      | inr e ↦ rw e (c.later p h)
    ];
  }

  start_step :
      (direction : Direction) (peer : Text)
      → IsConsistent (moved (suc m.registry.created) running (start direction peer m.registry) m)
  unfolding moved start new_entry
  start_step direction peer =
      let t = new_entry direction peer (suc m.registry.created) in
      let fresh =
        find-beyond (suc m.registry.created) m.registry.created m.registry.items c.made
          (omega arith) in
      record {
        shows = λ p. elim (Bool-cases (p == suc m.registry.created)) [
          | inl e ↦ rw e (
              subst (λ (r : ℕ). Shows running (find r (m.registry.items ++ (t ∷ []))))
                (sym ((==_iff p _).0 e))
                (rw (find-append (suc m.registry.created) m.registry.items t fresh)
                  (rw (==_self (suc m.registry.created)) (refl, refl))))
          | inr e ↦
              rw e (rw (find-append_other p m.registry.items t (ground (arith, e))) (c.shows p))
        ];
        ordered =
            Ordered-append m.registry.created m.registry.items t (omega arith) c.made c.ordered;
        made =
            All-append _ m.registry.items (t ∷ [])
              (All-map _ _ m.registry.items (λ u h. omega (arith, h)) c.made) (omega arith, tt);
        later = λ p h.
            rw (ne→==_false p (suc m.registry.created) (λ e. absurd (omega (arith, e))))
              (c.later p (omega arith));
      }

  expire_step : (q : ℕ) → m.phase q ≢ unborn → IsConsistent (moved q gone (expire q m.registry) m)
  unfolding moved expire
  expire_step q born = record {
    shows = λ p.
        rw (find-remove p q m.registry.items c.ordered)
          (elim (Bool-cases (p == q)) [ inl e ↦ rw e tt | inr e ↦ rw e (c.shows p) ]);
    ordered = Ordered-remove q m.registry.items c.ordered;
    made = All-remove _ q m.registry.items c.made;
    later = λ p h. elim (Bool-cases (p == q)) [
      | inl e ↦ absurd (born (rw (← (==_iff p q).0 e) (c.later p h)))
      | inr e ↦ rw e (c.later p h)
    ];
  }

-- What each store makes of the entry in its phase.
keep_report : (s : Store) → KeepsPointer (put_in s)
unfolding put_in
keep_report s t = refl

pub keep_error : (e : Option Text) → KeepsPointer (set_error e)
unfolding set_error
keep_error e t = refl

pub keep_done : KeepsPointer set_done
unfolding set_done
keep_done t = refl

reported : (s : Store) (o : Option Entry) → Shows running o → Shows running (mapped (put_in s) o)
unfolding mapped put_in
reported s none x = x
reported s (some t) x = x

failed :
    (e : Option Text) (o : Option Entry)
    → Shows running o
    → Shows (ended e) (mapped (set_error e) o)
unfolding mapped set_error
failed e none x = x
failed e (some t) (x, y) = (x, refl)

completed :
    (e : Option Text) (o : Option Entry)
    → Shows (ended e) o
    → Shows (lingering e) (mapped set_done o)
unfolding mapped set_done
completed e none x = x
completed e (some t) (x, y) = (refl, y)

pub Work-IsConsistent : {m n : Machine} → Work m n → IsConsistent m → IsConsistent n
Work-IsConsistent {m} (reports p s h) c =
    store_step c p running (put_in s) (keep_report s) (λ e. cc (h, e))
      (λ o x. reported s o (rw h at x))
Work-IsConsistent {m} (ends p e h) c =
    store_step c p (ended e) (set_error e) (keep_error e) (λ e'. cc (h, e'))
      (λ o x. failed e o (rw h at x))
Work-IsConsistent {m} (completes p e h) c =
    store_step c p (lingering e) set_done keep_done (λ e'. cc (h, e'))
      (λ o x. completed e o (rw h at x))
Work-IsConsistent {m} (expires p e h) c = expire_step c p (λ e'. cc (h, e'))

-- However the starts, reports, ends and timers of the transfers interleave, the list is in the order of
-- the starts and shows each transfer from its start until its timer fires: not done and without an
-- error while it runs, and once `done` is set, the error that it ended with.
pub Reach-IsConsistent : {m : Machine} → Reach m → IsConsistent m
Reach-IsConsistent here = record {
  shows = λ p. unfold find in tt;
  ordered = tt;
  made = tt;
  later = λ p h. refl;
}
Reach-IsConsistent (next r (starts direction peer)) =
    start_step (Reach-IsConsistent r) direction peer
Reach-IsConsistent (next r (works w)) = Work-IsConsistent w (Reach-IsConsistent r)
