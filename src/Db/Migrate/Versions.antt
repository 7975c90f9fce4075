-- ===== src/Db/Migrate/Versions.antt =====
-- The version of a database, and the schemas that it has.
use edge_grid.Prelude.{
  ℕ, zero, suc, ◌+◌, ◌-◌, ◌≡◌, refl, sym, subst, Bool, true, false, [], ◌∷◌, ◌++◌, Option, none,
  some, get_elem?, take, arith, Bool-cases, inl, inr, ltb, ltb_false→le, ◌⊎◌,
}
use edge_grid.Prelude.Results.{Result, ok, err}
use edge_grid.Proc.{continue}
use edge_grid.Db.Migrate.{
  Schema, migrations, schema_version, Database, TxEnd, committed, begin_fails, schema_fails,
  version_fails, commit_fails, MigrateError, tx_round, migrate_loop, migrate,
}

-- A database of version n has executed the first n schemas, in order.
abbrev pub Consistent : Database → Type 0
Consistent d = d.applied ≡ take d.version migrations

take_next :
    (v : ℕ) (s : Schema)
    → get_elem? migrations v ≡ some s
    → take v migrations ++ (s ∷ []) ≡ take (suc v) migrations
take_next zero s h = cc h
take_next (suc zero) s h = cc h
take_next (suc (suc v)) s h = cc

-- A round leaves a consistent database, of the next version if it succeeded and unchanged if not.
tx_round-Consistent :
    (e : TxEnd) (v : ℕ) (s : Option Schema) (d : Database)
    → s ≡ get_elem? migrations v
    → d.version ≡ v
    → Consistent d
    → let (r, d') = tx_round e v s d in
      Consistent d' × (((r ≡ ok tt) × (d'.version ≡ suc v)) ⊎ ((x : MigrateError) × (r ≡ err x)))
unfolding tx_round
tx_round-Consistent begin_fails v s d h k c = (c, inr (_, refl))
tx_round-Consistent schema_fails v s d h k c = (c, inr (_, refl))
tx_round-Consistent version_fails v s d h k c = (c, inr (_, refl))
tx_round-Consistent commit_fails v s d h k c = (c, inr (_, refl))
tx_round-Consistent committed v none d h k c = (c, inr (_, refl))
tx_round-Consistent committed v (some s) d h k c =
    (rw (c, k, take_next v s (sym h)) refl, inl (refl, refl))

-- What the loop leaves, from version v with `left` rounds to go.
abbrev Reached : ℕ → Result MigrateError (Unit {0}) × Database → Type 0
Reached v p =
    Consistent p.1 × (((p.0 ≡ ok tt) × (p.1.version ≡ v)) ⊎ ((x : MigrateError) × (p.0 ≡ err x)))

after_round :
    (tx : ℕ → TxEnd) (left v : ℕ) (p : Result MigrateError (Unit {0}) × Database)
    → ((e : Database)
        → e.version ≡ suc v
        → Consistent e
        → Reached (suc v + left) (migrate_loop tx left (suc v) e))
    → Reached (suc v) p
    → Reached (suc v + left) (continue p (λ _. migrate_loop tx left (suc v)))
after_round tx left v (ok _, e) ih (c, inl (h, k)) = ih e k c
after_round tx left v (ok _, e) ih (c, inr (x, h)) = absurd cc
after_round tx left v (err x, e) ih (c, o) = (c, inr (x, refl))

loop-Reached :
    (tx : ℕ → TxEnd) (left v : ℕ) (d : Database)
    → d.version ≡ v
    → Consistent d
    → Reached (v + left) (migrate_loop tx left v d)
unfolding migrate_loop
loop-Reached tx zero v d k c = (c, inl (refl, omega (arith, k)))
loop-Reached tx (suc left) v d k c =
    let out = tx_round (tx v) v (get_elem? migrations v) d in
    subst (λ (n : ℕ). Reached n (continue out (λ _. migrate_loop tx left (suc v))))
      (suc_left v left)
      (after_round tx left v out (λ e. loop-Reached tx left (suc v) e)
        (tx_round-Consistent (tx v) v (get_elem? migrations v) d refl k c))
  where
    suc_left : (a b : ℕ) → suc a + b ≡ a + suc b
    suc_left a b = omega arith

-- However the transactions turn out, a consistent database stays consistent: a migration that fails
-- leaves it at the version of the last one that was committed, with exactly the schemas of that version.
pub migrate-Consistent :
    (reads : Bool) (tx : ℕ → TxEnd) (d : Database)
    → Consistent d
    → Consistent (migrate reads tx d).1
unfolding migrate
migrate-Consistent false tx d c = c
migrate-Consistent true tx d c = elim (Bool-cases (ltb schema_version d.version)) [
  | inl e ↦ rw e c
  | inr e ↦ rw e (loop-Reached tx (schema_version - d.version) d.version d refl c).0
]

-- A migration that succeeds has brought a consistent database to the version of this build, with both
-- schemas.
pub migrate-current :
    (reads : Bool) (tx : ℕ → TxEnd) (d d' : Database)
    → Consistent d
    → migrate reads tx d ≡ (ok tt, d')
    → d' ≡ record { version = schema_version; applied = migrations }
unfolding migrate
migrate-current false tx d d' c h = absurd cc
migrate-current true tx d d' c h = elim (Bool-cases (ltb schema_version d.version)) [
  | inl e ↦ absurd (ground (arith, e, h))
  | inr e ↦
      let run : migrate_loop tx (schema_version - d.version) d.version d ≡ (ok tt, d') =
        ground (arith, e, h) in
      let (c', o) = loop-Reached tx (schema_version - d.version) d.version d refl c in
      elim o [
        | inr (x, bad) ↦ absurd (cc (run, bad))
        | inl (good, v) ↦
            current d' (rw run at c')
              (omega (arith, ltb_false→le schema_version d.version e, rw run at v))
      ]
]
  where
    current :
        (e : Database)
        → Consistent e
        → e.version ≡ schema_version
        → e ≡ record { version = schema_version; applied = migrations }
    current e c v = let a : e.applied ≡ migrations = rw v at c in cc (a, v)
