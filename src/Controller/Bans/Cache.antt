-- ===== src/Controller/Bans/Cache.antt =====
-- controller_persistence.go: the peer file. Reading, writing and the JSON text of the file are
-- left out: what is modelled is the value that is written and what is made of one that was read.
use factom_p2p.Prelude.{ℕ, Option, none, some, List, [], ◌∷◌, map, ltb, string_eq, if◌then◌else◌}
use factom_p2p.Endpoint.{Endpoint}
use factom_p2p.PeerStore.{Peer}
use factom_p2p.Controller.Bans.{Bans}

pub record PeerCache : Type 0 where
  pub bans : Bans
  pub peers : List Endpoint

unfoldable pub new_peer_cache : PeerCache
new_peer_cache = record { bans = []; peers = [] }

-- Of each ban that is over the key is deleted; the others stay.
unfoldable pub drop_expired : ℕ → Bans → Bans
drop_expired now [] = []
drop_expired now ((addr, end) ∷ bans) =
    let rest = drop_expired now bans in if ltb end now then rest else (addr, end) ∷ rest

-- The bans that the controller keeps, and the cache.
unfoldable pub create_peer_cache : ℕ → Bans → List Peer → Bans × PeerCache
create_peer_cache now bans peers =
    let kept = drop_expired now bans in
    (kept, record { bans = kept; peers = map (λ (p : Peer). p.endpoint) peers })

-- What loadPeerCache makes of the file's value; `none` is an error in reading it.
unfoldable pub load_peer_cache : ℕ → Option PeerCache → Option PeerCache
load_peer_cache now none = none
load_peer_cache now (some pc) = some (record pc { bans = drop_expired now pc.bans })

-- newController's use of it: the bans and the endpoints to dial first. The file is not looked
-- for where no name is configured.
unfoldable pub bootstrap : Option PeerCache → Bans × List Endpoint
bootstrap none = ([], [])
bootstrap (some cache) = (cache.bans, cache.peers)

abbrev unexpired : ℕ → Option ℕ → Option ℕ
unexpired now none = none
unexpired now (some end) = if ltb end now then none else some end
