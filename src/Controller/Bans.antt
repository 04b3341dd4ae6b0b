-- ===== src/Controller/Bans.antt =====
-- The bans of controller.go, and the peer file of controller_persistence.go. A time is a number
-- of nanoseconds; Go's zero time, which a missing key reads as, is 0 and before any clock
-- reading. The calls of Stop are the list of the peers that they are made on.
pub mod Effect
pub mod Cache
mod Tests
use factom_p2p.Prelude.{
  ℕ, ◌+◌, Bool, true, false, ◌||◌, ◌&&◌, Option, none, some, List, [], ◌∷◌, map, GoMap, lookup,
  insert, ltb, str_eq, string_eq, if◌then◌else◌,
}
use factom_p2p.Net.{GoString}
use factom_p2p.Endpoint.{Endpoint, equal, to_string}
use factom_p2p.PeerStore.{Peer}

abbrev pub Bans : Type 0
Bans = GoMap GoString ℕ

abbrev or_zero_time : Option ℕ → ℕ
or_zero_time none = 0
or_zero_time (some t) = t

-- c.bans[addr]
unfoldable pub ban_end : Bans → GoString → ℕ
ban_end bans addr = or_zero_time (lookup addr bans)

unfoldable pub is_banned_endpoint : ℕ → Bans → Endpoint → Bool
is_banned_endpoint now bans ep =
    ltb now (ban_end bans ep.ip) || ltb now (ban_end bans (to_string ep))

unfoldable pub is_banned_ip : ℕ → Bans → GoString → Bool
is_banned_ip now bans ip = ltb now (ban_end bans ip)

-- A ban of the address that ends later stays.
unfoldable pub later_end : Option ℕ → ℕ → ℕ
later_end none end = end
later_end (some existing) end = if ltb end existing then existing else end

-- The loop over the peers calls `peer.Stop()` once for each peer with the address.
unfoldable pub stops_of : Peer → List Peer → List Peer
stops_of peer [] = []
stops_of peer (p ∷ ps) =
    let rest = stops_of peer ps in
    if str_eq p.endpoint.ip peer.endpoint.ip then peer ∷ rest else rest

-- `found` is what the store has for the hash, and `slice` the peers of the store.
unfoldable pub ban : ℕ → ℕ → Option Peer → List Peer → Bans → Bans × List Peer
ban now duration none slice bans = (bans, [])
ban now duration (some peer) slice bans =
    let end = later_end (lookup peer.endpoint.ip bans) (now + duration) in
    (insert (to_string peer.endpoint) end (insert peer.endpoint.ip end bans), stops_of peer slice)

unfoldable pub select_endpoint : Endpoint → List Peer → List Peer
select_endpoint ep [] = []
select_endpoint ep (p ∷ ps) =
    let rest = select_endpoint ep ps in if equal p.endpoint ep then p ∷ rest else rest

unfoldable pub ban_endpoint : ℕ → ℕ → Endpoint → List Peer → Bans → Bans × List Peer
ban_endpoint now duration ep slice bans = (
  insert (to_string ep) (now + duration) bans,
  if ltb 0 duration then select_endpoint ep slice else [],
)

-- Disconnect stops the peer of the hash, if there is one.
unfoldable pub disconnect : Option Peer → List Peer
disconnect none = []
disconnect (some peer) = peer ∷ []
