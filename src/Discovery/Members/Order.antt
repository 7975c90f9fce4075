-- ===== src/Discovery/Members/Order.antt =====
-- A snapshot and the order in which the map of the status hands out its peers (snapshot in
-- internal/discovery/membership.go).
use edge_grid.Prelude.{
  ◌≡◌, ◌≢◌, refl, sym, ap, ◌∙◌, ◌⊎◌, inl, inr, true, Text, List, [], ◌∷◌, some, arith, Bool-cases,
  ◌==◌, ==_iff, ltb, if◌then◌else◌,
}
use mathlib.Core.Quot
use mathlib.Core.Quot.{Quot}
use native.Mathlib.Decide.{ℕ_discrete}
use edge_grid.Discovery.Members.{
  PeerStatus, Peer, is_tagged, peer_of, tagged_peers, text_lt, insert, sort, snapshot,
}
use edge_grid.Discovery.Members.Listed.{text_lt_asym, text_le_trans}

Peer-discrete : Discrete Peer
Peer-discrete = hlevel (ℕ_discrete)

text_lt_total : (s t : Text) → s ≢ t → (text_lt s t ≡ true) ⊎ (text_lt t s ≡ true)
unfolding text_lt
text_lt_total [] [] h = absurd (h refl)
text_lt_total [] (y ∷ t) h = inl refl
text_lt_total (x ∷ s) [] h = inr refl
text_lt_total (x ∷ s) (y ∷ t) h = elim (Bool-cases (x == y)) [
  | inl e ↦
      let same : x ≡ y = (==_iff x y).0 e in
      elim (text_lt_total s t (λ k. h (cc (k, same)))) [
        | inl k ↦ inl (ground (arith, e, k))
        | inr k ↦ inr (ground (arith, e, k))
      ]
  | inr e ↦ elim (Bool-cases (ltb x y)) [
    | inl k ↦ inl (ground (arith, e, k))
    | inr k ↦ inr (ground (arith, e, k))
  ]
]

-- Two peers with different IDs can be inserted in either order.
insert_lt :
    (p q : Peer) (rs : List Peer)
    → text_lt p.id q.id ≡ true
    → insert p (insert q rs) ≡ insert q (insert p rs)
unfolding insert
insert_lt p q [] h = rw (h, text_lt_asym p.id q.id h) refl
insert_lt p q (r ∷ rs) h = elim (Bool-cases (text_lt r.id p.id)) [
  | inl a ↦ elim (Bool-cases (text_lt r.id q.id)) [
    | inl b ↦ rw (a, b, a, insert_lt p q rs h) refl
    | inr b ↦ absurd (cc (a, text_le_trans p.id q.id r.id (text_lt_asym p.id q.id h) b))
  ]
  | inr a ↦ elim (Bool-cases (text_lt r.id q.id)) [
    | inl b ↦ simp (a, b, h) refl
    | inr b ↦ simp (a, b, h, text_lt_asym p.id q.id h) refl
  ]
]

insert_comm :
    (p q : Peer) (rs : List Peer) → p.id ≢ q.id → insert p (insert q rs) ≡ insert q (insert p rs)
insert_comm p q rs h = elim (text_lt_total p.id q.id h) [
  | inl k ↦ insert_lt p q rs k
  | inr k ↦ sym (insert_lt q p rs k)
]

-- A device that is listed, put where it belongs.
add : PeerStatus → List Peer → List Peer
add s ps = if is_tagged s.tags then insert (peer_of s) ps else ps

sort-tagged_peers :
    (s : PeerStatus) (ss : List PeerStatus)
    → sort (tagged_peers (s ∷ ss)) ≡ add s (sort (tagged_peers ss))
unfolding sort tagged_peers add
sort-tagged_peers s ss = elim (Bool-cases (is_tagged s.tags)) [
  | inl e ↦ rw e refl
  | inr e ↦ rw e refl
]

add_comm : (s t : PeerStatus) (ps : List Peer) → s.id ≢ t.id → add s (add t ps) ≡ add t (add s ps)
unfolding add peer_of
add_comm s t ps h = elim (Bool-cases (is_tagged s.tags)) [
  | inl e ↦ elim (Bool-cases (is_tagged t.tags)) [
    | inl k ↦ rw (e, k) (insert_comm (peer_of s) (peer_of t) ps h)
    | inr k ↦ rw (e, k) refl
  ]
  | inr e ↦ rw e refl
]

-- One step between two orders in which the map of the status hands out its values: neighbours whose
-- StableIDs differ change places. The map's own keys are node keys; entries that share a StableID keep
-- their places here.
pub data Swapped : List PeerStatus → List PeerStatus → Type 0 where
  here : (s t : PeerStatus) (ss : List PeerStatus) → s.id ≢ t.id → Swapped (s ∷ t ∷ ss) (t ∷ s ∷ ss)
  later : {ss ts : List PeerStatus} → (s : PeerStatus) → Swapped ss ts → Swapped (s ∷ ss) (s ∷ ts)

-- The values of the status's map, up to the order of those with different StableIDs.
abbrev pub StatusMap : Type 0
StatusMap = Quot Swapped

abbrev pub map_of : List PeerStatus → StatusMap
map_of ss = Quot.mk ss

listed : (ss ts : List PeerStatus) → Swapped ss ts → sort (tagged_peers ss) ≡ sort (tagged_peers ts)
listed _ _ (later {ss} {ts} s r) =
    sort-tagged_peers s ss ∙ (ap (add s) (listed ss ts r) ∙ sym (sort-tagged_peers s ts))
listed _ _ (here s t ss h) =
    sort-tagged_peers s (t ∷ ss)
    ∙ (ap (add s) (sort-tagged_peers t ss)
        ∙ (add_comm s t (sort (tagged_peers ss)) h
            ∙ (ap (add t) (sym (sort-tagged_peers s ss)) ∙ sym (sort-tagged_peers t (s ∷ ss)))))

-- What a snapshot is of a map.
listing : StatusMap → List Peer
listing = Quot.lift (hlevel (ℕ_discrete)) (λ ss. sort (tagged_peers ss)) listed

-- Two orders of the values of the status's map that differ only in the places of entries with different
-- StableIDs give the same snapshot, in the same order; where two entries have one StableID, orders that
-- swap them are not covered.
pub snapshot-Quot :
    (ss ts : List PeerStatus) → map_of ss ≡ map_of ts → snapshot (some ss) ≡ snapshot (some ts)
unfolding snapshot listing
snapshot-Quot ss ts h = ap (λ m. some (listing m)) h
