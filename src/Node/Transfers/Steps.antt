-- ===== src/Node/Transfers/Steps.antt =====
-- What the transfers' goroutines and timers do to the registry, one store at a time, in any order.
use edge_grid.Prelude.{
  ℕ, suc, ◌≤◌, ◌<◌, ◌≡◌, refl, true, false, Text, List, [], ◌∷◌, ◌++◌, Option, none, some, ◌==◌,
  if◌then◌else◌, All, All-append, arith, Bool-cases, inl, inr,
}
use edge_grid.Node.Transfers.{
  Direction, Entry, Registry, Store, start, store, on_entry, put_in, set_error, set_done, remove,
  expire,
}

-- How far the goroutine of a transfer is: it reports, then finish stores the error and then `done`,
-- and then the timer takes the entry off the list.
pub data Phase : Type 0 where
  unborn running gone : Phase
  ended lingering : Option Text → Phase

pub record Machine : Type 0 where
  pub registry : Registry
  pub phase : ℕ → Phase

abbrev pub idle : Machine
idle = record { registry = record { created = 0; items = [] }; phase = λ p. unborn }

abbrev pub set_phase : ℕ → Phase → (ℕ → Phase) → ℕ → Phase
set_phase p x phase q = if q == p then x else phase q

unfoldable pub moved : ℕ → Phase → Registry → Machine → Machine
moved p x r m = record { registry = r; phase = set_phase p x m.phase }

-- What a transfer that was started does, one store at a time.
pub data Work (m : Machine) : Machine → Type 0 where
  reports :
      (p : ℕ) (s : Store)
      → m.phase p ≡ running
      → Work m (moved p running (on_entry p (put_in s) m.registry) m)
  ends :
      (p : ℕ) (e : Option Text)
      → m.phase p ≡ running
      → Work m (moved p (ended e) (on_entry p (set_error e) m.registry) m)
  completes :
      (p : ℕ) (e : Option Text)
      → m.phase p ≡ ended e
      → Work m (moved p (lingering e) (on_entry p set_done m.registry) m)
  expires :
      (p : ℕ) (e : Option Text)
      → m.phase p ≡ lingering e
      → Work m (moved p gone (expire p m.registry) m)

pub data Step (m : Machine) : Machine → Type 0 where
  starts :
      (direction : Direction) (peer : Text)
      → Step m (moved (suc m.registry.created) running (start direction peer m.registry) m)
  works : {n : Machine} → Work m n → Step m n

pub data Reach : Machine → Type 0 where
  here : Reach idle
  next : {m n : Machine} → Reach m → Step m n → Reach n

unfoldable pub find : ℕ → List Entry → Option Entry
find p [] = none
find p (t ∷ ts) = if t.pointer == p then some t else find p ts

-- What the list says of a transfer in each phase.
abbrev pub Shows : Phase → Option Entry → Type 0
Shows unborn none = Unit
Shows gone none = Unit
Shows running (some t) = (t.is_done ≡ false) × (t.error ≡ none)
Shows (ended e) (some t) = (t.is_done ≡ false) × (t.error ≡ e)
Shows (lingering e) (some t) = (t.is_done ≡ true) × (t.error ≡ e)
Shows _ _ = ⊥

-- In the order of their starts, each object once.
abbrev pub Ordered : List Entry → Type 0
Ordered [] = Unit
Ordered (t ∷ ts) = All (λ (u : Entry). t.pointer < u.pointer) ts × Ordered ts

pub record IsConsistent (m : Machine) : Type 0 where
  pub shows : (p : ℕ) → Shows (m.phase p) (find p m.registry.items)
  pub ordered : Ordered m.registry.items
  pub made : All (λ (t : Entry). t.pointer ≤ m.registry.created) m.registry.items
  pub later : (p : ℕ) → m.registry.created < p → m.phase p ≡ unborn

unfoldable pub mapped : (Entry → Entry) → Option Entry → Option Entry
mapped f none = none
mapped f (some t) = some (f t)

-- The stores keep the pointer of an entry.
abbrev pub KeepsPointer : (Entry → Entry) → Type 0
KeepsPointer f = (t : Entry) → (f t).pointer ≡ t.pointer

pub find-store :
    (p q : ℕ) (f : Entry → Entry) (ts : List Entry)
    → KeepsPointer f
    → find p (store q f ts) ≡ (if p == q then mapped f (find p ts) else find p ts)
unfolding find store mapped
find-store p q f [] k = ground arith
find-store p q f (t ∷ ts) k = ground (arith, k t, find-store p q f ts k)

pub All-store :
    (P : ℕ → Type 0) (q : ℕ) (f : Entry → Entry) (ts : List Entry)
    → KeepsPointer f
    → All (λ (t : Entry). P t.pointer) ts
    → All (λ (t : Entry). P t.pointer) (store q f ts)
unfolding store
All-store P q f [] k a = tt
All-store P q f (t ∷ ts) k (a, b) = elim (Bool-cases (t.pointer == q)) [
  | inl e ↦ rw e (rw (k t) a, All-store P q f ts k b)
  | inr e ↦ rw e (a, All-store P q f ts k b)
]

pub Ordered-store :
    (q : ℕ) (f : Entry → Entry) (ts : List Entry)
    → KeepsPointer f
    → Ordered ts
    → Ordered (store q f ts)
unfolding store
Ordered-store q f [] k a = tt
Ordered-store q f (t ∷ ts) k (a, b) = elim (Bool-cases (t.pointer == q)) [
  | inl e ↦
      rw e (rw (k t) (All-store (λ (n : ℕ). t.pointer < n) q f ts k a), Ordered-store q f ts k b)
  | inr e ↦ rw e (All-store (λ (n : ℕ). t.pointer < n) q f ts k a, Ordered-store q f ts k b)
]

find-above :
    (p n : ℕ) (ts : List Entry) → All (λ (t : Entry). n < t.pointer) ts → p ≤ n → find p ts ≡ none
unfolding find
find-above p n [] a h = refl
find-above p n (t ∷ ts) (a, b) h = ground (arith, find-above p n ts b h)

pub find-beyond :
    (p n : ℕ) (ts : List Entry) → All (λ (t : Entry). t.pointer ≤ n) ts → n < p → find p ts ≡ none
unfolding find
find-beyond p n [] a h = refl
find-beyond p n (t ∷ ts) (a, b) h = ground (arith, find-beyond p n ts b h)

pub find-append :
    (p : ℕ) (ts : List Entry) (t : Entry)
    → find p ts ≡ none
    → find p (ts ++ (t ∷ [])) ≡ (if t.pointer == p then some t else none)
unfolding find
find-append p [] t h = refl
find-append p (u ∷ ts) t h = ground (arith, find-append p ts t)

pub find-append_other :
    (p : ℕ) (ts : List Entry) (t : Entry)
    → (t.pointer == p) ≡ false
    → find p (ts ++ (t ∷ [])) ≡ find p ts
unfolding find
find-append_other p [] t h = rw h refl
find-append_other p (u ∷ ts) t h = ground (arith, find-append_other p ts t h)

pub find-remove :
    (p q : ℕ) (ts : List Entry)
    → Ordered ts
    → find p (remove q ts) ≡ (if p == q then none else find p ts)
unfolding find remove
find-remove p q [] o = ground arith
find-remove p q (t ∷ ts) (a, b) = ground (arith, find-above p t.pointer ts a, find-remove p q ts b)

pub All-remove : (P : Entry → Type 0) (q : ℕ) (ts : List Entry) → All P ts → All P (remove q ts)
unfolding remove
All-remove P q [] a = tt
All-remove P q (t ∷ ts) (a, b) = elim (Bool-cases (t.pointer == q)) [
  | inl e ↦ rw e b
  | inr e ↦ rw e (a, All-remove P q ts b)
]

pub Ordered-remove : (q : ℕ) (ts : List Entry) → Ordered ts → Ordered (remove q ts)
unfolding remove
Ordered-remove q [] a = tt
Ordered-remove q (t ∷ ts) (a, b) = elim (Bool-cases (t.pointer == q)) [
  | inl e ↦ rw e b
  | inr e ↦ rw e (All-remove _ q ts a, Ordered-remove q ts b)
]

pub All-map {ℓ} :
    {A : Type 0} (P Q : A → Type ℓ) (xs : List A) → ((x : A) → P x → Q x) → All P xs → All Q xs
All-map P Q [] f a = tt
All-map P Q (x ∷ xs) f (a, b) = (f x a, All-map P Q xs f b)

pub Ordered-append :
    (n : ℕ) (ts : List Entry) (t : Entry)
    → n < t.pointer
    → All (λ (u : Entry). u.pointer ≤ n) ts
    → Ordered ts
    → Ordered (ts ++ (t ∷ []))
Ordered-append n [] t h a o = (tt, tt)
Ordered-append n (u ∷ ts) t h (a, b) (o, os) =
    (All-append _ ts (t ∷ []) o (omega (arith, h, a), tt), Ordered-append n ts t h b os)

pub ==_self : (n : ℕ) → (n == n) ≡ true
==_self n = ground arith
