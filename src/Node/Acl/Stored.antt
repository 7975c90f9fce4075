-- ===== src/Node/Acl/Stored.antt =====
-- What lookup finds of the decisions that set stored.
use edge_grid.Prelude.{
  suc, ◌≤◌, ◌≡◌, ◌≢◌, refl, Bool, true, false, not, Text, [], ◌∷◌, ◌++◌, Option, some, length,
  codes, leb, take, text_eq, text_eq_iff, text_eq_self, Bool-cases, inl, inr, arith, ap,
  le→leb_false,
}
use edge_grid.Prelude.Int.{ℤ}
use edge_grid.Prelude.Path.{any}
use edge_grid.Prelude.Lines.{
  trim_space, trim_space_left, trim_space_right, space_len, cut, lines, is_newline, lines-append,
}
use edge_grid.Prelude.Results.{ok, err}
use edge_grid.Node.Acl.{
  Files, get, remove, put, is_id_byte, AclEntry, AclError, valid_stable_id, set_key, set_pair,
  is_comment, add_line, add_lines, any_too_long, empty_entry, scan, scan_file, lookup, FileWrite,
  written, not_created, cut_at, replace_newlines, show_bool, entry_body, tmp_name, written_as,
  set_entry,
}

newline_free : (s : Text) → any is_newline (replace_newlines s) ≡ false
unfolding any replace_newlines
newline_free [] = refl
newline_free (c ∷ s) = ground (arith, newline_free s)

length-replace_newlines : (s : Text) → length (replace_newlines s) ≡ length s
unfolding replace_newlines
length-replace_newlines [] = refl
length-replace_newlines (c ∷ s) = ap suc (length-replace_newlines s)

abbrev allow_line : Bool → Text
allow_line true = codes "allow=true"
allow_line false = codes "allow=false"

-- The three lines of a stored decision.
lines-entry_body :
    (allow : Bool) (h stamp : Text)
    → any is_newline h ≡ false
    → any is_newline stamp ≡ false
    → lines (entry_body allow h stamp)
      ≡ allow_line allow ∷ (codes "hostname=" ++ h) ∷ (codes "decided=" ++ stamp) ∷ []
unfolding entry_body show_bool any lines
lines-entry_body true h stamp a b =
    rw (lines-append h (codes "decided=" ++ (stamp ++ codes "\n")) a, lines-append stamp [] b) refl
lines-entry_body false h stamp a b =
    rw (lines-append h (codes "decided=" ++ (stamp ++ codes "\n")) a, lines-append stamp [] b) refl

module _ (parse_time : Text → Option ℤ) where
  allow_line-read :
      (allow : Bool) (e : AclEntry)
      → add_line parse_time (allow_line allow) e ≡ record e { allow = allow }
  unfolding add_line set_pair set_key is_comment trim_space trim_space_left trim_space_right
      space_len cut text_eq
  allow_line-read true e = refl
  allow_line-read false e = refl

  hostname_line-read :
      (h : Text) (e : AclEntry)
      → add_line parse_time (codes "hostname=" ++ h) e
        ≡ record e { hostname = trim_space (trim_space_right h) }
  unfolding add_line set_pair set_key is_comment trim_space trim_space_left trim_space_right
      space_len cut text_eq
  hostname_line-read h e = refl

  decided_line-read :
      (s : Text) (e : AclEntry)
      → add_line parse_time (codes "decided=" ++ s) e
        ≡ record e { decided = parse_time (trim_space (trim_space_right s)) }
  unfolding add_line set_pair set_key is_comment trim_space trim_space_left trim_space_right
      space_len cut text_eq
  decided_line-read s e = refl

get-remove :
    (name other : Text) (fs : Files)
    → text_eq name other ≡ false
    → get other (remove name fs) ≡ get other fs
unfolding get remove
get-remove name other [] h = refl
get-remove name other ((n, s) ∷ fs) h = elim (Bool-cases (text_eq n name)) [
  | inl e ↦ rw (e, get-remove name other fs h, (text_eq_iff n name).0 e, h)
  | inr e ↦ rw (e, get-remove name other fs h)
]

get-put_same : (name s : Text) (fs : Files) → get name (put name s fs) ≡ some s
unfolding get put
get-put_same name s fs = rw (text_eq_self name)

get-put_other :
    (name other s : Text) (fs : Files)
    → text_eq name other ≡ false
    → get other (put name s fs) ≡ get other fs
unfolding get put
get-put_other name other s fs h = rw (h, get-remove name other fs h)

tmp_invalid : (id : Text) → any (λ c. not (is_id_byte c)) (tmp_name id) ≡ true
unfolding any is_id_byte
tmp_invalid [] = refl
tmp_invalid (c ∷ s) = ground (arith, tmp_invalid s)

-- A temporary file's name is no StableID.
tmp_other : (id other : Text) → valid_stable_id other ≡ true → text_eq (tmp_name id) other ≡ false
unfolding valid_stable_id
tmp_other id other v = elim (Bool-cases (text_eq (tmp_name id) other)) [
  | inr e ↦ e
  | inl e ↦
      let same : tmp_name id ≡ other = (text_eq_iff _ _).0 e in
      let bad = rw same at (tmp_invalid id) in absurd (ground (arith, v, bad))
]

get-written_as :
    (write : FileWrite) (renames : Bool) (id other body : Text) (fs : Files)
    → valid_stable_id other ≡ true
    → text_eq id other ≡ false
    → get other (written_as write renames id body fs).1 ≡ get other fs
unfolding written_as
get-written_as not_created renames id other body fs v h = refl
get-written_as (cut_at n) renames id other body fs v h =
    get-put_other (tmp_name id) other (take n body) fs (tmp_other id other v)
get-written_as written false id other body fs v h =
    get-put_other (tmp_name id) other body fs (tmp_other id other v)
get-written_as written true id other body fs v h = rw (
  get-put_other id other body (remove (tmp_name id) (put (tmp_name id) body fs)) h,
  get-remove (tmp_name id) other (put (tmp_name id) body fs) (tmp_other id other v),
  get-put_other (tmp_name id) other body fs (tmp_other id other v),
)

get-written_as_failed :
    (write : FileWrite) (renames : Bool) (id body : Text) (fs gs : Files) (e : AclError)
    → valid_stable_id id ≡ true
    → written_as write renames id body fs ≡ (err e, gs)
    → get id gs ≡ get id fs
unfolding written_as
get-written_as_failed not_created renames id body fs gs e v h = cc
get-written_as_failed (cut_at n) renames id body fs gs e v h =
    cc (get-put_other (tmp_name id) id (take n body) fs (tmp_other id id v), h)
get-written_as_failed written false id body fs gs e v h =
    cc (get-put_other (tmp_name id) id body fs (tmp_other id id v), h)
get-written_as_failed written true id body fs gs e v h = cc

module _ (parse_time : Text → Option ℤ) where
  -- A decision on a valid StableID that was stored is the one that lookup finds, whatever the
  -- hostname says, if all calls on files go through: its allow is the one of set, not one that
  -- the hostname brought in. The hostname comes back with spaces for its ends of lines, and
  -- trimmed. The lines must fit the Scanner's buffer, and the time of the decision must be on one
  -- line.
  pub lookup-set_entry :
      (id hostname stamp : Text) (allow : Bool) (fs : Files)
      → valid_stable_id id ≡ true
      → any is_newline stamp ≡ false
      → length hostname ≤ 65_526
      → length stamp ≤ 65_527
      → let (r, gs) = set_entry true written true id hostname allow stamp fs in
        (r ≡ ok tt)
        × (lookup parse_time true true id gs
            ≡ ok (
                some (record {
                  allow = allow;
                  hostname = trim_space (trim_space_right (replace_newlines hostname));
                  decided = parse_time (trim_space (trim_space_right stamp));
                })))
  unfolding set_entry written_as lookup scan_file scan any_too_long add_lines
  lookup-set_entry id hostname stamp allow fs v n lh ls =
      let body = entry_body allow (replace_newlines hostname) stamp in
      rw v (
        refl,
        rw
            (
              get-put_same id body (remove (tmp_name id) (put (tmp_name id) body fs)),
              lines-entry_body allow (replace_newlines hostname) stamp (newline_free hostname) n,
              short_allow allow,
              le→leb_false 65_536 (length (codes "hostname=" ++ replace_newlines hostname))
                  (omega (arith, length-replace_newlines hostname)),
              le→leb_false 65_536 (length (codes "decided=" ++ stamp)) (omega arith),
            )
            (rw
              (allow_line-read parse_time allow empty_entry, hostname_line-read, decided_line-read)
              refl),
      )
    where
      short_allow : (allow : Bool) → leb 65_536 (length (allow_line allow)) ≡ false
      short_allow true = refl
      short_allow false = refl

  -- A decision on one peer leaves what is found of every other peer as it was, however the calls of
  -- set turn out.
  pub lookup-set_entry_other :
      (mkdirs renames opens reads allow : Bool) (write : FileWrite) (id other hostname stamp : Text)
      (fs : Files)
      → other ≢ id
      → lookup parse_time opens reads other
          (set_entry mkdirs write renames id hostname allow stamp fs).1
        ≡ lookup parse_time opens reads other fs
  unfolding lookup set_entry
  lookup-set_entry_other mkdirs renames opens reads allow write id other hostname stamp fs h =
      elim (Bool-cases (valid_stable_id other)) [
        | inr bad ↦ rw bad refl
        | inl good ↦
            let kept =
              get-written_as write renames id other
                (entry_body allow (replace_newlines hostname) stamp) fs good
                (ground (arith, text_eq_iff id other, h)) in
            ground (arith, good, kept)
      ]

  -- A set that fails leaves the peer's own decision as it was.
  pub lookup-set_entry_failed :
      (mkdirs renames opens reads allow : Bool) (write : FileWrite) (id hostname stamp : Text)
      (fs gs : Files) (e : AclError)
      → set_entry mkdirs write renames id hostname allow stamp fs ≡ (err e, gs)
      → lookup parse_time opens reads id gs ≡ lookup parse_time opens reads id fs
  unfolding lookup set_entry
  lookup-set_entry_failed mkdirs renames opens reads allow write id hostname stamp fs gs e h =
      elim (Bool-cases (valid_stable_id id)) [
        | inr bad ↦ rw bad refl
        | inl good ↦
            let kept =
              get-written_as_failed write renames id
                (entry_body allow (replace_newlines hostname) stamp) fs gs e good in
            ground (arith, good, kept, h)
      ]
