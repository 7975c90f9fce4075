-- ===== src/Executor/Registry.antt =====
-- The kinds that a registry supports.
use edge_grid.Prelude.{
  ◌≡◌, refl, ap, subst, ◌∙◌, false, Text, List, [], ◌∷◌, Option, none, some, arith, Bool-cases, inl,
  inr, text_eq, text_eq_iff, if◌then◌else◌,
}
use edge_grid.Prelude.Results.{ok, Result-cases}
use edge_grid.Executor.{
  Definition, Executor, validate, find_kind, is_defined, add_definitions, new, supports,
  supported_by,
}

or_else : Option Definition → Option Definition → Option Definition
or_else none o = o
or_else (some d) o = some d

or_else-none : (o : Option Definition) → o ≡ or_else o none
unfolding or_else
or_else-none none = refl
or_else-none (some d) = refl

undefined : (o : Option Definition) → is_defined o ≡ false → o ≡ none
unfolding is_defined
undefined none h = refl
undefined (some d) h = cc

find-add_definitions :
    (kind : Text) (ds taken out : List Definition)
    → add_definitions ds taken ≡ ok out
    → find_kind kind out ≡ or_else (find_kind kind taken) (find_kind kind ds)
unfolding add_definitions find_kind or_else
find-add_definitions kind [] taken out h =
    let same : taken ≡ out = cc h in
    subst (λ (xs : List Definition). find_kind kind xs ≡ or_else (find_kind kind taken) none) same
      (or_else-none (find_kind kind taken))
find-add_definitions kind (d ∷ ds) taken out h = elim (Result-cases (validate d)) [
  | inr (e, bad) ↦ absurd (ground (arith, bad, h))
  | inl (_, good) ↦ elim (Bool-cases (is_defined (find_kind d.kind taken))) [
    | inl twice ↦ absurd (ground (arith, good, twice, h))
    | inr fresh ↦
        let rest : add_definitions ds (d ∷ taken) ≡ ok out = ground (arith, good, fresh, h) in
        find-add_definitions kind ds (d ∷ taken) out rest
        ∙ next (undefined (find_kind d.kind taken) fresh)
  ]
]
  where
    next :
        find_kind d.kind taken ≡ none
        → or_else (if text_eq d.kind kind then some d else find_kind kind taken) (find_kind kind ds)
          ≡ or_else
              (find_kind kind taken)
              (if text_eq d.kind kind then some d else find_kind kind ds)
    next gone = elim (Bool-cases (text_eq d.kind kind)) [
      | inl e ↦
          let same : d.kind ≡ kind = (text_eq_iff d.kind kind).0 e in
          let gone' : find_kind kind taken ≡ none = rw same at gone in rw (e, gone') refl
      | inr e ↦ rw e refl
    ]

none_first : (o : Option Definition) → or_else none o ≡ o
unfolding or_else
none_first o = refl

-- A registry that New takes supports exactly what its first definition of a kind allows: a definition
-- that is there, with no artifacts and with a runtime that the node has.
pub supports-new :
    (defs : List Definition) (runtimes : List Text) (e : Executor) (kind : Text)
    → new defs runtimes ≡ ok e
    → supports e kind ≡ supported_by runtimes (find_kind kind defs)
unfolding new supports find_kind
supports-new defs runtimes e kind h = elim (Result-cases (add_definitions defs [])) [
  | inr (x, bad) ↦ absurd (ground (arith, bad, h))
  | inl (ds, good) ↦
      let same : record { defs = ds; runtimes = runtimes } ≡ e = ground (arith, good, h) in
      subst
        (λ (x : Executor).
          supported_by x.runtimes (find_kind kind x.defs)
          ≡ supported_by runtimes (find_kind kind defs))
        same
        (ap (supported_by runtimes)
          (find-add_definitions kind defs [] ds good ∙ none_first (find_kind kind defs)))
]
