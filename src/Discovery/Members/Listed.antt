-- ===== src/Discovery/Members/Listed.antt =====
-- What a snapshot lists, and in which order.
use edge_grid.Prelude.{
  ◌≡◌, refl, sym, ap, subst, ◌∙◌, ◌↔◌, ◌⊎◌, inl, inr, true, false, Text, List, [], ◌∷◌, arith,
  Bool-cases, some,
}
use edge_grid.Discovery.Members.{
  PeerStatus, Peer, is_tagged, peer_of, tagged_peers, text_lt, insert, sort, snapshot,
}

abbrev pub In : {A : Type 0} → A → List A → Type 0
In a [] = ⊥
In a (b ∷ bs) = (a ≡ b) ⊎ In a bs

-- No peer stands behind one with a greater ID.
abbrev pub Sorted : List Peer → Type 0
Sorted [] = Unit
Sorted (p ∷ ps) = ((q : Peer) → In q ps → text_lt q.id p.id ≡ false) × Sorted ps

In-insert : (a p : Peer) (qs : List Peer) → In a (insert p qs) ↔ ((a ≡ p) ⊎ In a qs)
unfolding insert
In-insert a p [] = (λ h. h, λ h. h)
In-insert a p (q ∷ qs) =
    let (f, g) = In-insert a p qs in
    elim (Bool-cases (text_lt q.id p.id)) [
      | inr e ↦ rw e (λ h. h, λ h. h)
      | inl e ↦ rw e (
        λ h. elim h [
          | inl x ↦ inr (inl x)
          | inr x ↦ elim (f x) [ inl y ↦ inl y | inr y ↦ inr (inr y) ]
        ],
        λ h. elim h [
          | inl x ↦ inr (g (inl x))
          | inr x ↦ elim x [ inl y ↦ inl y | inr y ↦ inr (g (inr y)) ]
        ],
      )
    ]

In-sort : (a : Peer) (ps : List Peer) → In a (sort ps) ↔ In a ps
unfolding sort
In-sort a [] = (λ h. h, λ h. h)
In-sort a (p ∷ ps) =
    let (f, g) = In-sort a ps in
    let (i, j) = In-insert a p (sort ps) in
    (
      λ h. elim (i h) [ inl x ↦ inl x | inr x ↦ inr (f x) ],
      λ h. elim h [ inl x ↦ j (inl x) | inr x ↦ j (inr (g x)) ],
    )

-- The order on the IDs.
pub text_lt_asym : (s t : Text) → text_lt s t ≡ true → text_lt t s ≡ false
unfolding text_lt
text_lt_asym s [] h = absurd cc
text_lt_asym [] (y ∷ t) h = refl
text_lt_asym (x ∷ s) (y ∷ t) h = ground (arith, text_lt_asym s t, h)

-- From a ≤ b and b ≤ c to a ≤ c.
pub text_le_trans : (a b c : Text) → text_lt b a ≡ false → text_lt c b ≡ false → text_lt c a ≡ false
unfolding text_lt
text_le_trans [] b c h k = refl
text_le_trans (x ∷ a) [] c h k = absurd cc
text_le_trans (x ∷ a) (y ∷ b) [] h k = absurd cc
text_le_trans (x ∷ a) (y ∷ b) (z ∷ c) h k = ground (arith, text_le_trans a b c, h, k)

insert-Sorted : (p : Peer) (qs : List Peer) → Sorted qs → Sorted (insert p qs)
unfolding insert
insert-Sorted p [] s = (λ q h. absurd h, tt)
insert-Sorted p (q ∷ qs) (low, s) = elim (Bool-cases (text_lt q.id p.id)) [
  | inl e ↦ rw e (
    λ r h. elim ((In-insert r p qs).0 h) [
      | inl x ↦ subst (λ (y : Peer). text_lt y.id q.id ≡ false) (sym x) (text_lt_asym q.id p.id e)
      | inr x ↦ low r x
    ],
    insert-Sorted p qs s,
  )
  | inr e ↦ rw e (
    λ r h. elim h [
      | inl x ↦ subst (λ (y : Peer). text_lt y.id p.id ≡ false) (sym x) e
      | inr x ↦ text_le_trans p.id q.id r.id e (low r x)
    ],
    (low, s),
  )
]

sort-Sorted : (ps : List Peer) → Sorted (sort ps)
unfolding sort
sort-Sorted [] = tt
sort-Sorted (p ∷ ps) = insert-Sorted p (sort ps) (sort-Sorted ps)

-- A peer is listed for a tagged device, and for no other.
abbrev pub Lists : List PeerStatus → Peer → Type 0
Lists st p = (s : PeerStatus) × (In s st) × (is_tagged s.tags ≡ true) × (p ≡ peer_of s)

In-tagged_peers : (p : Peer) (st : List PeerStatus) → In p (tagged_peers st) ↔ Lists st p
unfolding tagged_peers
In-tagged_peers p [] = (λ h. absurd h, λ (s, h, k, q). absurd h)
In-tagged_peers p (s ∷ st) =
    let (f, g) = In-tagged_peers p st in
    elim (Bool-cases (is_tagged s.tags)) [
      | inl e ↦ rw e (
        λ h. elim h [
          | inl x ↦ (s, inl refl, e, x)
          | inr x ↦ let (r, i, k, q) = f x in (r, inr i, k, q)
        ],
        λ (r, i, k, q). elim i [ inl x ↦ inl (q ∙ ap peer_of x) | inr x ↦ inr (g (r, x, k, q)) ],
      )
      | inr e ↦ rw e (
        λ h. let (r, i, k, q) = f h in (r, inr i, k, q),
        λ (r, i, k, q). elim i [ inl x ↦ absurd (cc (x, k, e)) | inr x ↦ g (r, x, k, q) ],
      )
    ]

-- Snapshot lists exactly the devices with EdgeGrid's tag, in the order of their IDs.
pub snapshot-Lists :
    (st : List PeerStatus) (ps : List Peer)
    → snapshot (some st) ≡ some ps
    → ((p : Peer) → In p ps ↔ Lists st p) × Sorted ps
unfolding snapshot
snapshot-Lists st ps h =
    let same : ps ≡ sort (tagged_peers st) = cc h in
    subst (λ (qs : List Peer). ((p : Peer) → In p qs ↔ Lists st p) × Sorted qs) (sym same)
      (
        λ p.
            let (f, g) = In-sort p (tagged_peers st) in
            let (i, j) = In-tagged_peers p st in (λ x. i (f x), λ x. g (j x)),
        sort-Sorted (tagged_peers st),
      )
