-- ===== src/Db/Tasks/Keys.antt =====
-- The primary key: what finding, updating and deleting rows do to the keys of the table tasks.
use edge_grid.Prelude.{
  ◌≡◌, refl, ◌↔◌, Bool, true, false, Text, [], ◌∷◌, ◌++◌, text_eq_iff, arith, Bool-cases, inl, inr,
}
use edge_grid.Db.Tasks.{
  Role, sent, received, TaskRecord, Table, same_role, has_key, update, keep, has_row,
}

pub same_role_iff : (a b : Role) → (same_role a b ≡ true) ↔ (a ≡ b)
unfolding same_role
same_role_iff sent sent = (λ h. refl, λ h. refl)
same_role_iff sent received = (λ h. cc, λ h. cc)
same_role_iff received sent = (λ h. cc, λ h. cc)
same_role_iff received received = (λ h. refl, λ h. refl)

pub has_key_iff :
    (role : Role) (id : Text) (r : TaskRecord)
    → (has_key role id r ≡ true) ↔ ((r.task_id ≡ id) × (r.role ≡ role))
unfolding has_key
has_key_iff role id r = ground (arith, text_eq_iff r.task_id id, same_role_iff r.role role)

-- No two rows have the same task and role.
abbrev pub KeysUnique : Table → Type 0
KeysUnique [] = Unit
KeysUnique (r ∷ rs) = (has_row (has_key r.role r.task_id) rs ≡ false) × KeysUnique rs

pub has_row-append :
    (p : TaskRecord → Bool) (r : TaskRecord) (t : Table)
    → has_row p t ≡ false
    → p r ≡ false
    → has_row p (t ++ (r ∷ [])) ≡ false
unfolding has_row
has_row-append p r [] h e = ground (arith, e)
has_row-append p r (x ∷ t) h e = ground (arith, has_row-append p r t, h, e)

-- A row that two keys fit makes them one.
key_swap :
    (x r : TaskRecord) → has_key x.role x.task_id r ≡ true → has_key r.role r.task_id x ≡ true
key_swap x r h =
    let (a, b) = (has_key_iff x.role x.task_id r).0 h in
    (has_key_iff r.role r.task_id x).1 (cc (a), cc (b))

key_miss :
    (x r : TaskRecord) → has_key r.role r.task_id x ≡ false → has_key x.role x.task_id r ≡ false
key_miss x r h = elim (Bool-cases (has_key x.role x.task_id r)) [
  | inl e ↦ absurd (cc (key_swap x r e, h))
  | inr e ↦ e
]

pub append-KeysUnique :
    (r : TaskRecord) (t : Table)
    → KeysUnique t
    → has_row (has_key r.role r.task_id) t ≡ false
    → KeysUnique (t ++ (r ∷ []))
unfolding has_row
append-KeysUnique r [] u h = (refl, tt)
append-KeysUnique r (x ∷ t) (a, u) h =
    let miss : has_key r.role r.task_id x ≡ false = ground arith in
    (
      has_row-append (has_key x.role x.task_id) r t a (key_miss x r miss),
      append-KeysUnique r t u (ground arith),
    )

-- Functions that keep the key of a row.
abbrev pub KeepsKey : (TaskRecord → TaskRecord) → Type 0
KeepsKey f = (r : TaskRecord) → ((f r).role ≡ r.role) × ((f r).task_id ≡ r.task_id)

pub has_key-kept :
    (f : TaskRecord → TaskRecord) (role : Role) (id : Text) (r : TaskRecord)
    → KeepsKey f
    → has_key role id (f r) ≡ has_key role id r
unfolding has_key
has_key-kept f role id r k = rw ((k r).0, (k r).1)

pub has_row-update :
    (q : TaskRecord → Bool) (f : TaskRecord → TaskRecord) (role : Role) (id : Text) (t : Table)
    → KeepsKey f
    → has_row (has_key role id) (update q f t) ≡ has_row (has_key role id) t
unfolding has_row update
has_row-update q f role id [] k = refl
has_row-update q f role id (r ∷ t) k =
    ground (arith, has_row-update q f role id t k, has_key-kept f role id r k)

pub has_row-keep :
    (p q : TaskRecord → Bool) (t : Table) → has_row p t ≡ false → has_row p (keep q t) ≡ false
unfolding has_row keep
has_row-keep p q [] h = refl
has_row-keep p q (r ∷ t) h = ground (arith, has_row-keep p q t)

pub keep-KeysUnique : (q : TaskRecord → Bool) (t : Table) → KeysUnique t → KeysUnique (keep q t)
unfolding keep
keep-KeysUnique q [] u = tt
keep-KeysUnique q (r ∷ t) (a, u) = elim (Bool-cases (q r)) [
  | inl e ↦ rw e (has_row-keep (has_key r.role r.task_id) q t a, keep-KeysUnique q t u)
  | inr e ↦ rw e (keep-KeysUnique q t u)
]
