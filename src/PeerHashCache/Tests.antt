-- ===== src/PeerHashCache/Tests.antt =====
-- A cache of two buckets.
use factom_p2p.Prelude.{◌≡◌, some, List, [], ◌∷◌, arith}
use factom_p2p.PeerHashCache.Buckets.{Hash}
use factom_p2p.PeerHashCache.{Cache, has}
use factom_p2p.PeerHashCache.Window.{Event, adds, ticks, run, age, younger, has-age}

-- [1] was added one tick ago, and [2] two ticks ago; the latest event comes first.
abbrev events : List Event
events = ticks ∷ adds (1 ∷ []) ∷ ticks ∷ adds (2 ∷ []) ∷ []

has-age_example :
    (pr : Cache) × (run 2 events ≡ some pr)
    × ((hash : Hash) → has pr hash ≡ younger 2 (age hash events))
has-age_example = has-age 2 events (omega arith)
