-- ===== src/Discovery/Members.antt =====
-- internal/discovery/membership.go: the peers of a node, from Tailscale's status.
pub mod Listed
pub mod Order
use edge_grid.Prelude.{
  ℕ, Bool, true, false, not, ◌&&◌, ◌||◌, Text, List, [], ◌∷◌, codes, text_eq, is_empty, ltb, ◌==◌,
  if◌then◌else◌, Option,
}
use edge_grid.Prelude.Int.{ℤ}
use edge_grid.Prelude.Results.{Result, ok, err}

-- The fields of Tailscale's PeerStatus that Snapshot reads. `tags` is empty also where it is nil, and
-- `ips` is the list of the addresses' texts.
pub record PeerStatus : Type 0 where
  pub id : Text
  pub hostname : Text
  pub dns_name : Text
  pub online : Bool
  pub last_seen : ℤ
  pub cur_addr : Text
  pub relay : Text
  pub peer_relay : Text
  pub tags : List Text
  pub ips : List Text

pub record Peer : Type 0 where
  pub id : Text
  pub hostname : Text
  pub dns_name : Text
  pub ip : Text
  pub online : Bool
  pub last_seen : ℤ
  pub cur_addr : Text
  pub relay : Text
  pub peer_relay : Text

unfoldable pub route : Peer → Text
unfolding is_empty
route p =
    if not p.online
    then []
    else if not (is_empty p.cur_addr)
    then codes "direct"
    else if not (is_empty p.peer_relay)
    then codes "peer relay"
    else if not (is_empty p.relay)
    then codes "relay"
    else []

abbrev pub tag : Text
tag = codes "tag:edgegrid"

-- The loop over ps.Tags.
unfoldable pub is_tagged : List Text → Bool
is_tagged [] = false
is_tagged (t ∷ ts) = let rest = is_tagged ts in if text_eq t tag then true else rest

-- The zero netip.Addr is the empty text.
first_ip : List Text → Text
first_ip [] = []
first_ip (a ∷ more) = a

unfoldable pub peer_of : PeerStatus → Peer
unfolding first_ip
peer_of s = record {
  id = s.id;
  hostname = s.hostname;
  dns_name = s.dns_name;
  ip = first_ip s.ips;
  online = s.online;
  last_seen = s.last_seen;
  cur_addr = s.cur_addr;
  relay = s.relay;
  peer_relay = s.peer_relay;
}

-- The loop over st.Peer, in the order in which the map hands them out.
unfoldable pub tagged_peers : List PeerStatus → List Peer
tagged_peers [] = []
tagged_peers (s ∷ ss) =
    let rest = tagged_peers ss in if is_tagged s.tags then peer_of s ∷ rest else rest

-- Go's < on strings.
unfoldable pub text_lt : Text → Text → Bool
text_lt s [] = false
text_lt [] (y ∷ ys) = true
text_lt (x ∷ xs) (y ∷ ys) =
    let rest = text_lt xs ys in if ltb x y then true else if x == y then rest else false

-- sort.Slice by ID. The IDs differ, so that the result is the same for every way of sorting.
unfoldable pub insert : Peer → List Peer → List Peer
insert p [] = p ∷ []
insert p (q ∷ qs) = let rest = insert p qs in if text_lt q.id p.id then q ∷ rest else p ∷ q ∷ qs

unfoldable pub sort : List Peer → List Peer
sort [] = []
sort (p ∷ ps) = insert p (sort ps)

-- Snapshot; the status is none where Tailscale gives an error.
unfoldable pub snapshot : Option (List PeerStatus) → Option (List Peer)
snapshot Option.none = Option.none
snapshot (Option.some st) = Option.some (sort (tagged_peers st))
