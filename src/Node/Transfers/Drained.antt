-- ===== src/Node/Transfers/Drained.antt =====
-- How the list of transfers empties.
use edge_grid.Prelude.{
  ℕ, zero, suc, ◌≤◌, ◌≡◌, refl, ap, ◌∙◌, Text, List, [], ◌∷◌, Option, none, some, length, ◌==◌,
  arith, Bool-cases, inl, inr,
}
use edge_grid.Node.Transfers.{Entry, store, on_entry, set_error, set_done, remove, expire}
use edge_grid.Node.Transfers.Steps.{
  Phase, Machine, Work, Reach, IsConsistent, Shows, unborn, running, ended, lingering, gone, ends,
  completes, expires, moved, find, mapped, find-store, KeepsPointer, ==_self,
}
use edge_grid.Node.Transfers.Listing.{Work-IsConsistent, Reach-IsConsistent, keep_error, keep_done}

pub data Works (m : Machine) : Machine → Type 0 where
  stays : Works m m
  after : {n o : Machine} → Works m n → Work n o → Works m o

join : {m n o : Machine} → Works m n → Works n o → Works m o
join w stays = w
join w (after v x) = after (join w v) x

-- The transfers' own work leads to a machine whose list is shorter by one.
abbrev Shorter : Machine → Type 0
Shorter m = (n : Machine) × Works m n × (suc (length n.registry.items) ≡ length m.registry.items)

length-store : (p : ℕ) (f : Entry → Entry) (ts : List Entry) → length (store p f ts) ≡ length ts
unfolding store
length-store p f [] = refl
length-store p f (t ∷ ts) = ap suc (length-store p f ts)

length-remove :
    (p : ℕ) (ts : List Entry) {t : Entry}
    → find p ts ≡ some t
    → suc (length (remove p ts)) ≡ length ts
unfolding find remove
length-remove p [] h = absurd cc
length-remove p (u ∷ ts) {t} h = elim (Bool-cases (u.pointer == p)) [
  | inl e ↦ rw e refl
  | inr e ↦ rw e (ap suc (length-remove p ts {t = t} (rw e at h)))
]

-- A store through p, and the phase of p after it.
find_stored :
    (m : Machine) (p : ℕ) (x : Phase) (f : Entry → Entry) {t : Entry}
    → KeepsPointer f
    → find p m.registry.items ≡ some t
    → (find p (moved p x (on_entry p f m.registry) m).registry.items ≡ some (f t))
      × ((moved p x (on_entry p f m.registry) m).phase p ≡ x)
      × (length (moved p x (on_entry p f m.registry) m).registry.items ≡ length m.registry.items)
unfolding moved on_entry mapped
find_stored m p x f k h = (
  find-store p p f m.registry.items k ∙ rw (==_self p) (rw h refl),
  rw (==_self p) refl,
  length-store p f m.registry.items,
)

from_lingering :
    (m : Machine) (p : ℕ) (e : Option Text) {t : Entry}
    → m.phase p ≡ lingering e
    → find p m.registry.items ≡ some t
    → Shorter m
from_lingering m p e h f = (
  moved p gone (expire p m.registry) m,
  after stays (expires p e h),
  unfold moved expire in length-remove p m.registry.items f,
)

from_ended :
    (m : Machine) (p : ℕ) (e : Option Text) {t : Entry}
    → m.phase p ≡ ended e
    → find p m.registry.items ≡ some t
    → Shorter m
from_ended m p e h f =
    let (found, phase, size) = find_stored m p (lingering e) set_done keep_done f in
    let (n, w, less) = from_lingering _ p e phase found in
    (n, join (after stays (completes p e h)) w, less ∙ size)

from_running :
    (m : Machine) (p : ℕ) {t : Entry}
    → m.phase p ≡ running
    → find p m.registry.items ≡ some t
    → Shorter m
from_running m p h f =
    let (found, phase, size) = find_stored m p (ended none) (set_error none) (keep_error none) f in
    let (n, w, less) = from_ended _ p none phase found in
    (n, join (after stays (ends p none h)) w, less ∙ size)

shorter :
    (m : Machine) (p : ℕ) {t : Entry} (x : Phase)
    → m.phase p ≡ x
    → find p m.registry.items ≡ some t
    → Shows x (some t)
    → Shorter m
shorter m p running h f s = from_running m p h f
shorter m p (ended e) h f s = from_ended m p e h f
shorter m p (lingering e) h f s = from_lingering m p e h f
shorter m p unborn h f s = absurd s
shorter m p gone h f s = absurd s

Works-IsConsistent : {m n : Machine} → Works m n → IsConsistent m → IsConsistent n
Works-IsConsistent stays c = c
Works-IsConsistent (after w x) c = Work-IsConsistent x (Works-IsConsistent w c)

find-head : (t : Entry) (ts : List Entry) → find t.pointer (t ∷ ts) ≡ some t
unfolding find
find-head t ts = rw (==_self t.pointer) refl

head_shows :
    (m : Machine) (t : Entry) (ts : List Entry)
    → IsConsistent m
    → m.registry.items ≡ t ∷ ts
    → Shorter m
head_shows m t ts c e =
    let found : find t.pointer m.registry.items ≡ some t = rw e (find-head t ts) in
    shorter m t.pointer (m.phase t.pointer) refl found (rw found at (c.shows t.pointer))

drain :
    (k : ℕ) (m : Machine) (ts : List Entry)
    → IsConsistent m
    → m.registry.items ≡ ts
    → length ts ≤ k
    → (n : Machine) × Works m n × (n.registry.items ≡ [])
drain k m [] c e h = (m, stays, e)
drain zero m (t ∷ ts) c e h = absurd (omega arith)
drain (suc k) m (t ∷ ts) c e h =
    let (n, w, less) = head_shows m t ts c e in
    let (o, v, empty) =
      drain k n n.registry.items (Works-IsConsistent w c) refl
        (omega (arith, less, ap (λ (l : List Entry). length l) e)) in
    (o, join w v, empty)

-- Wherever the transfers are, the list can empty without another start: each listed transfer can end,
-- and its timer then takes it off, so that no entry is stuck on the list.
pub Reach-drains : {m : Machine} → Reach m → (n : Machine) × Works m n × (n.registry.items ≡ [])
Reach-drains {m} r =
    drain (length m.registry.items) m m.registry.items (Reach-IsConsistent r) refl (omega arith)
