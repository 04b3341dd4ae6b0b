-- ===== src/Controller/ShareRequest.antt =====
-- asyncPeerRequest of controller_cat.go against manageData of controller_routing.go: the exchange
-- of one request for peers. Two goroutines take steps: the one that asks, which registers a
-- channel of one place, waits for a response or the timeout, processes the response and then
-- deletes the channel from the map under shareMtx; and manageData, which holds shareMtx for
-- reading while it sends a response of this peer to the channel.
pub mod Progress
mod Tests
use factom_p2p.Prelude.{
  ℕ, suc, Bool, true, false, Option, none, some, List, [], ◌∷◌, ◌++◌, length, ltb, if◌then◌else◌,
}
use factom_p2p.Net.{bytes}
use factom_p2p.Endpoint.{Endpoint}
use factom_p2p.Parcel.{Parcel, new_parcel, type_peer_request}
use factom_p2p.PeerLoops as PeerLoops
use factom_p2p.PeerLoops.{PeerState}
use factom_p2p.Controller.Selection.{Shuffle, shuffle_trim_share, process_peer_share}

-- Where the asking goroutine stands; `deleting` waits for the lock.
pub data Phase : Type 0 where
  waiting deleting finished : Phase
  processing : Parcel → Phase

-- `async` is what the channel holds, and `sending` the response that manageData is sending, with
-- the lock held.
pub record Exchange : Type 0 where
  pub phase : Phase
  pub registered : Bool
  pub async : List Parcel
  pub sending : Option Parcel

unfoldable pub start : Exchange
start = record { phase = waiting; registered = true; async = []; sending = none }

-- The steps: a response of the peer reaches manageData, which looks the channel up; manageData puts
-- it into the channel; the asking goroutine receives it, times out, processes it, or deletes the
-- channel.
pub data Op : Type 0 where
  arrives : Parcel → Op
  puts receives times_out processes deletes : Op

-- A response for which there is no channel is dropped.
abbrev arrive : Exchange → Option Parcel → Parcel → Option Exchange
arrive e none p = some (record e { sending = if e.registered then some p else none })
arrive e (some q) p = none

-- async <- parcel
abbrev pub put : Exchange → Option Parcel → Option Exchange
put e none = none
put e (some p) =
    if ltb (length e.async) 1
    then some (record e { async = e.async ++ p ∷ []; sending = none })
    else none

abbrev take_from : Exchange → Phase → List Parcel → Option Exchange
take_from e waiting (p ∷ ps) = some (record e { phase = processing p; async = ps })
take_from e _ _ = none

abbrev time_out : Exchange → Phase → Option Exchange
time_out e waiting = some (record e { phase = deleting })
time_out e _ = none

abbrev process : Exchange → Phase → Option Exchange
process e (processing p) = some (record e { phase = deleting })
process e _ = none

-- c.shareMtx.Lock(), which waits for the reader
abbrev delete_from : Exchange → Phase → Option Parcel → Option Exchange
delete_from e deleting none = some (record e { phase = finished; registered = false })
delete_from e _ _ = none

-- `none` is that the step cannot be taken now.
unfoldable pub step : Exchange → Op → Option Exchange
step e (arrives p) = arrive e e.sending p
step e puts = put e e.sending
step e receives = take_from e e.phase e.async
step e times_out = time_out e e.phase
step e processes = process e e.phase
step e deletes = delete_from e e.phase e.sending

abbrev run_rest : Option Exchange → (Exchange → Option Exchange) → Option Exchange
run_rest none k = none
run_rest (some e) k = k e

unfoldable pub run : Exchange → List Op → Option Exchange
run e [] = some e
run e (op ∷ ops) = run_rest (step e op) (λ e'. run e' ops)

-- The peer that is asked, with its lastPeerSend.
pub record Asked : Type 0 where
  pub peer : PeerState
  pub last_peer_send : ℕ

-- asyncPeerRequest up to its select: the listener, the time and the request.
unfoldable pub ask : ℕ → Asked → Asked × Exchange
unfolding start
ask now a = (
  record {
    peer = PeerLoops.send a.peer (new_parcel type_peer_request (bytes "Peer Request"));
    last_peer_send = now;
  },
  start,
)

-- What it returns for a response, whose list ParsePeerShare gives; `none` is the timeout.
unfoldable pub answer :
    Shuffle Endpoint
    → ℕ
    → (Endpoint → Bool)
    → (Endpoint → Bool)
    → Option (Option (List Endpoint))
    → Option (List Endpoint)
answer sh amount is_valid is_banned none = none
answer sh amount is_valid is_banned (some list) =
    some (shuffle_trim_share sh amount (process_peer_share is_valid is_banned list))
