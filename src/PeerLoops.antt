-- ===== src/PeerLoops.antt =====
-- peer.go: a peer from the handshake on. Its goroutines are operations that are carried out one
-- after the other: a call of Send or Stop, an iteration of readLoop with what the protocol
-- received, and one of sendLoop with whether the protocol could send. Deadlines and gauges are left
-- out; statLoop is in Traffic.antt, and the times of the last send in Controller/RunLoop.antt.
pub mod Reading
pub mod Stopping
pub mod Writing
mod Tests
use factom_p2p.Prelude.{
  ℕ, zero, suc, ◌+◌, ◌%◌, ◌^◌, Bool, true, false, Option, none, some, List, [], ◌∷◌, ◌++◌,
  if◌then◌else◌,
}
use factom_p2p.Net.{GoString}
use factom_p2p.Parcel.{Parcel, ParcelError, valid, is_application_message}
use factom_p2p.ParcelChannel as Channel
use factom_p2p.ParcelChannel.{Channel, new_channel}

-- `resend_filter` is that there is a cache; `added` is what its Add was called with, as the
-- payloads whose hashes it was given, the latest last. `delivered` is what went to peerData,
-- `written` what the protocol sent, and `reports` how often the peer said that it is offline;
-- `reporting` is false once Stop would not report, as the network is stopped.
pub record PeerState : Type 0 where
  pub hash : GoString
  pub stopped : Bool
  pub send : Channel Parcel
  pub dropped : ℕ
  pub resend_filter : Bool
  pub added : List (List ℕ)
  pub delivered : List Parcel
  pub written : List Parcel
  pub reports : ℕ
  pub reporting : Bool

unfoldable pub new_peer : GoString → ℕ → Bool → PeerState
new_peer hash capacity resend_filter = record {
  hash = hash;
  stopped = false;
  send = new_channel capacity;
  dropped = 0;
  resend_filter = resend_filter;
  added = [];
  delivered = [];
  written = [];
  reports = 0;
  reporting = true;
}

-- stopper.Do makes every call but the first do nothing. The select takes its send, or the case that
-- the network is stopped.
unfoldable pub stop : PeerState → PeerState
stop p =
    if p.stopped
    then p
    else record p { stopped = true; reports = if p.reporting then suc p.reports else p.reports }

-- The network stops, and Stop's select takes that case, where it could take its send, too.
unfoldable pub quit : PeerState → PeerState
quit p = record p { reporting = false }

unfoldable pub send : PeerState → Parcel → PeerState
send p parcel =
    let (queue, ok, dropped) = Channel.send p.send parcel in
    if p.stopped then p else record p { send = queue; dropped = (p.dropped + dropped) % 2 ^ 64 }

unfoldable pub remember : PeerState → Parcel → PeerState
remember p msg =
    if p.resend_filter
    then if is_application_message msg then record p { added = p.added ++ msg.payload ∷ [] } else p
    else p

-- A stopped peer delivers only where the select takes that case though the peer is stopped.
unfoldable pub deliver : Bool → PeerState → Parcel → PeerState × Bool
deliver wins p parcel =
    let done = record p { delivered = p.delivered ++ parcel ∷ [] } in
    if p.stopped then if wins then (done, true) else (p, false) else (done, true)

-- The rest of an iteration of readLoop for a parcel of which Valid returned this.
unfoldable pub read_checked : Bool → PeerState → Parcel → Option ParcelError → PeerState × Bool
unfolding stop remember deliver
read_checked wins p msg (some e) = (stop p, false)
read_checked wins p msg none =
    let (p', ok) = deliver wins (remember p msg) (record msg { address = p.hash }) in
    if ok then (p', true) else (stop p', false)

-- An iteration of readLoop with what Receive returned, and whether the loop goes on.
unfoldable pub read : Bool → PeerState → Option Parcel → PeerState × Bool
unfolding stop read_checked
read wins p none = (stop p, false)
read wins p (some msg) = read_checked wins p msg (valid (some msg))

unfoldable pub read_loop : PeerState → List (Bool × Option Parcel) → PeerState
read_loop p [] = p
read_loop p ((wins, received) ∷ rs) =
    let (p', goes_on) = read wins p received in
    let rest = read_loop p' rs in if goes_on then rest else p'

unfoldable pub transmit_taken : Bool → PeerState → Option (Parcel × Channel Parcel) → PeerState
unfolding stop
transmit_taken sent p none = p
transmit_taken sent p (some (parcel, queue)) =
    if sent
    then record p { send = queue; written = p.written ++ parcel ∷ [] }
    else stop (record p { send = queue })

-- An iteration of sendLoop that takes a parcel, if there is one.
unfoldable pub transmit : Bool → PeerState → PeerState
unfolding transmit_taken
transmit sent p = transmit_taken sent p (Channel.receive p.send)
