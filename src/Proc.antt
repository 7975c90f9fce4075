-- ===== src/Proc.antt =====
-- Go code that mutates a state and returns (value, error). What was changed before an error stays
-- changed, so the state comes back beside the error too.
use mathlib.Core.Bool.{Bool}
use edge_grid.Prelude.{◌≡◌, refl}
use edge_grid.Prelude.Results.{Result, ok, err, refuse_if, map_err}

abbrev pub Proc {ℓ} : Type ℓ → Type ℓ → Type ℓ → Type ℓ
Proc S E A = S → Result E A × S

abbrev pub pure {ℓ} : {S E A : Type ℓ} → A → Proc S E A
pure a s = (ok a, s)

abbrev pub fail {ℓ} : {S E A : Type ℓ} → E → Proc S E A
fail e s = (err e, s)

-- A computed value or error, with the state left alone.
abbrev pub lift {ℓ} : {S E A : Type ℓ} → Result E A → Proc S E A
lift r s = (r, s)

abbrev pub refuse_when : {S E : Type 0} → Bool → E → Proc S E (Unit {0})
refuse_when b e s = (refuse_if b e, s)

abbrev pub continue {ℓ} : {S E A B : Type ℓ} → Result E A × S → (A → Proc S E B) → Result E B × S
continue (ok a, s) f = f a s
continue (err e, s) f = (err e, s)

infixl 5 ◌>>=◌ ◌>>◌
abbrev pub ◌>>=◌ {ℓ} : {S E A B : Type ℓ} → Proc S E A → (A → Proc S E B) → Proc S E B
◌>>=◌ m f s = continue (m s) f

abbrev pub ◌>>◌ {ℓ} : {S E A B : Type ℓ} → Proc S E A → Proc S E B → Proc S E B
m >> k = m >>= λ _. k

-- The same operation, with its errors under another type.
abbrev pub wrap : {S E F A : Type 0} → (E → F) → Proc S E A → Proc S F A
wrap f m s = (map_err f (m s).0, (m s).1)

-- `_ = f(…)`: the error is dropped.
abbrev pub ignore_error : {S E : Type 0} → Proc S E (Unit {0}) → Proc S E (Unit {0})
ignore_error m s = (ok tt, (m s).1)

-- What a successful run of two steps went through.
pub continue-eq-ok {ℓ} :
    {S E A B : Type ℓ} (p : Result E A × S) (f : A → Proc S E B) {b : B} {t : S}
    → continue p f ≡ (ok b, t)
    → (a : A) × (u : S) × (p ≡ (ok a, u)) × (f a u ≡ (ok b, t))
continue-eq-ok (ok a, u) f h = (a, u, refl, h)
continue-eq-ok (err e, u) f h = cc
