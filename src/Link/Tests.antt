-- ===== src/Link/Tests.antt =====
-- Two parcels over version 11, and one that is sent after the receiving peer is stopped.
use factom_p2p.Prelude.{ℕ, ◌≡◌, refl, true, false, List, [], ◌∷◌, arith, All}
use factom_p2p.Net.{bytes}
use factom_p2p.Parcel.{Parcel, type_message, valid, new_parcel}
use factom_p2p.Protocol.Versions.{protocol_v10, protocol_v11, v10_read}
use factom_p2p.Protocol.V10 as V10
use factom_p2p.ParcelChannel as Channel
use factom_p2p.PeerLoops as Peer
use factom_p2p.Protocol.Samples.{json, messages, shares}
use factom_p2p.Link.{
  Event, sends, transmits, receives, delivers, drops_out, run, step, write, read, read_line,
  deliver,
}
use factom_p2p.Link.InOrder.{Arrives, new_link, sent_over, run-Arrives}
use factom_p2p.Link.Flows.{IsValid}

abbrev parcel : ℕ → Parcel
parcel x = record { ptype = type_message; address = []; payload = x ∷ [] }

abbrev events : List Event
events =
    sends (parcel 1)
    ∷ transmits
    ∷ sends (parcel 2)
    ∷ receives
    ∷ transmits
    ∷ delivers true
    ∷ receives
    ∷ drops_out
    ∷ delivers true
    ∷ sends (parcel 3)
    ∷ transmits
    ∷ []

events-IsValid : All IsValid (sent_over events)
unfolding sent_over valid
events-IsValid = (refl, (refl, (refl, tt)))

run-Arrives_example : Arrives (protocol_v11 messages shares) events (
    run
      (protocol_v11 messages shares)
      (new_link (protocol_v11 messages shares) (bytes "b") (bytes "a") 2 false)
      events)
run-Arrives_example =
    run-Arrives (protocol_v11 messages shares) (bytes "b") (bytes "a") 2 false events (omega arith)
      events-IsValid

-- With version 10, both parcels are delivered under the hash of the receiving side's peer.
delivered_events :
    (run
      (protocol_v10 json)
      (new_link (protocol_v10 json) (bytes "b") (bytes "a") 2 false)
      events).receiver.delivered
    ≡ record (parcel 1) { address = bytes "a" } ∷ record (parcel 2) { address = bytes "a" } ∷ []
unfolding run step write read read_line deliver new_link protocol_v10 v10_read V10.send V10.receive
    Channel.send Channel.receive Channel.new_channel Peer.send Peer.stop Peer.read Peer.read_checked
    Peer.remember Peer.deliver Peer.transmit_taken Peer.new_peer valid new_parcel
delivered_events = refl
