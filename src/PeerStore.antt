-- ===== src/PeerStore.antt =====
-- peerStore.go: the peers that are connected, and the counts of their addresses. A peer is its
-- pointer and the fields that stay as they are after the handshake; the two counters and the
-- counts of addresses are integers, as in Go. Each method is one step under the store's mutex.
-- Slice goes over a map in an order that Go leaves open: that order is an argument.
pub mod Counts
pub mod Consistency
pub mod History
pub mod Answers
mod Tests
use factom_p2p.Prelude.{
  ℕ, Bool, true, false, Option, none, some, List, [], GoMap, lookup, insert, delete, values, length,
  ◌==◌, string_eq, if◌then◌else◌,
}
use factom_p2p.Prelude.Int.{ℤ, pos, increment, decrement, is_zero, is_positive}
use factom_p2p.Net.{GoString}
use factom_p2p.Endpoint.{Endpoint, to_string}

pub record Peer : Type 0 where
  -- the pointer
  pub ref : ℕ
  pub hash : GoString
  pub endpoint : Endpoint
  pub is_incoming : Bool

pub record PeerStore : Type 0 where
  pub peers : GoMap GoString Peer
  pub connected : GoMap GoString ℤ
  -- nil, or the slice made by the last call of Slice
  pub cur_slice : Option (List Peer)
  pub incoming : ℤ
  pub outgoing : ℤ

unfoldable pub new_peer_store : PeerStore
new_peer_store = record {
  peers = [];
  connected = [];
  cur_slice = none;
  incoming = pos 0;
  outgoing = pos 0;
}

-- A missing key reads as 0.
abbrev pub or_zero : Option ℤ → ℤ
or_zero none = pos 0
or_zero (some n) = n

unfoldable pub count_at : GoMap GoString ℤ → GoString → ℤ
count_at connected addr = or_zero (lookup addr connected)

-- connected[addr]++
unfoldable pub count_up : GoString → GoMap GoString ℤ → GoMap GoString ℤ
count_up addr connected = insert addr (increment (count_at connected addr)) connected

-- connected[addr]--, and the key is deleted at 0
unfoldable pub count_down : GoString → GoMap GoString ℤ → GoMap GoString ℤ
count_down addr connected =
    let less = insert addr (decrement (count_at connected addr)) connected in
    if is_zero (count_at less addr) then delete addr less else less

pub data AddError : Type 0 where
  nil_peer already_exists : AddError

unfoldable pub put : PeerStore → Peer → PeerStore
put ps p = record {
  peers = insert p.hash p ps.peers;
  connected = count_up (to_string p.endpoint) (count_up p.endpoint.ip ps.connected);
  cur_slice = none;
  incoming = if p.is_incoming then increment ps.incoming else ps.incoming;
  outgoing = if p.is_incoming then ps.outgoing else increment ps.outgoing;
}

-- The error is `none` for Go's nil.
unfoldable pub add : PeerStore → Option Peer → PeerStore × Option AddError
add ps none = (ps, some nil_peer)
add ps (some p) = elim (lookup p.hash ps.peers) [
  | none ↦ (put ps p, none)
  | some old ↦ (ps, some already_exists)
]

-- `p` gives the addresses, and what the map holds gives the direction.
unfoldable pub take_out : PeerStore → Peer → Peer → PeerStore
take_out ps p old = record {
  peers = delete p.hash ps.peers;
  connected = count_down (to_string p.endpoint) (count_down p.endpoint.ip ps.connected);
  cur_slice = none;
  incoming = if old.is_incoming then decrement ps.incoming else ps.incoming;
  outgoing = if old.is_incoming then ps.outgoing else decrement ps.outgoing;
}

-- `old, ok := ps.peers[p.Hash]; ok && old == p` compares pointers.
unfoldable pub remove : PeerStore → Option Peer → PeerStore
remove ps none = ps
remove ps (some p) = elim (lookup p.hash ps.peers) [
  | none ↦ ps
  | some old ↦ if old.ref == p.ref then take_out ps p old else ps
]

-- Total; Incoming and Outgoing are the fields.
unfoldable pub total : PeerStore → ℕ
total ps = length ps.peers

unfoldable pub get : PeerStore → GoString → Option Peer
get ps hash = lookup hash ps.peers

-- Connections and Count have the same body.
unfoldable pub count : PeerStore → GoString → ℤ
count ps addr = count_at ps.connected addr

unfoldable pub connected : PeerStore → Endpoint → Bool
connected ps ep = is_positive (count_at ps.connected (to_string ep))

-- The copy that is handed out has the elements of `cur_slice`.
unfoldable pub slice : (List Peer → List Peer) → PeerStore → PeerStore × List Peer
slice order ps = elim ps.cur_slice [
  | some cached ↦ (ps, cached)
  | none ↦ let r = order (values ps.peers) in (record ps { cur_slice = some r }, r)
]
