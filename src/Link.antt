-- ===== src/Link.antt =====
-- Two peers that are joined by a connection, each the other side's peer, in one direction: what
-- Send of one is called with goes through its sendLoop and its protocol, over the connection, and
-- through the protocol and the readLoop of the other. The goroutines take their steps in any
-- order. The connection takes what is written: a write fails where the protocol cannot encode.
pub mod Flows
pub mod InOrder
pub mod Steps
mod Tests
use factom_p2p.Prelude.{
  ℕ, Bool, true, false, Option, none, some, List, [], ◌∷◌, ◌++◌, not, ◌&&◌, if◌then◌else◌,
}
use factom_p2p.Parcel.{Parcel}
use factom_p2p.ParcelChannel as Channel
use factom_p2p.ParcelChannel.{Channel}
use factom_p2p.Protocol.Interface.{Protocol}
use factom_p2p.PeerLoops as Peer
use factom_p2p.PeerLoops.{PeerState}

pub data Event : Type 0 where
  -- Send and Stop of the sending peer, and an iteration of its sendLoop
  sends : Parcel → Event
  hangs_up : Event
  transmits : Event
  -- Receive and then deliver in the receiving peer's readLoop, which delivers or not if the peer was
  -- stopped in between, and the peer's Stop
  receives : Event
  delivers : Bool → Event
  drops_out : Event

module _ (P : Protocol) where
  -- `line` is what is on the connection, written and not read yet, and `received` the parcel that
  -- Receive returned and that is not delivered yet.
  pub record Link : Type 0 where
    pub sender : PeerState
    pub line : List P.Line
    pub received : Option Parcel
    pub receiver : PeerState

  -- The protocol writes the parcel that sendLoop took, or fails and the peer is stopped.
  unfoldable pub write : Link → Option (Parcel × Channel Parcel) → Link
  write l none = l
  write l (some (parcel, queue)) = elim (P.send parcel) [
    | none ↦ record l { sender = Peer.transmit_taken false l.sender (some (parcel, queue)) }
    | some bytes ↦ record l {
      sender = Peer.transmit_taken true l.sender (some (parcel, queue));
      line = l.line ++ bytes;
    }
  ]

  abbrev is_clear : List P.Line → Bool
  is_clear [] = true
  is_clear (x ∷ line) = false

  -- The protocol reads what is on the connection. Where nothing is, Receive waits unless the
  -- connection was closed by the other side.
  unfoldable pub read_line : Link → Option (Parcel × List P.Line) → Link
  read_line l (some (parcel, rest)) = record l { line = rest; received = some parcel }
  read_line l none =
      if is_clear l.line && not l.sender.stopped
      then l
      else record l { receiver = (Peer.read false l.receiver none).0 }

  unfoldable pub read : Link → Option Parcel → Link
  unfolding read_line
  read l (some parcel) = l
  read l none = if l.receiver.stopped then l else read_line l (P.receive l.line)

  unfoldable pub deliver : Bool → Link → Option Parcel → Link
  deliver wins l none = l
  deliver wins l (some parcel) = record l {
    received = none;
    receiver = (Peer.read wins l.receiver (some parcel)).0;
  }

  -- The sendLoop of a stopped peer has ended, or cannot write.
  unfoldable pub step : Link → Event → Link
  unfolding write read deliver
  step l (sends parcel) = record l { sender = Peer.send l.sender parcel }
  step l hangs_up = record l { sender = Peer.stop l.sender }
  step l transmits = if l.sender.stopped then l else write l (Channel.receive l.sender.send)
  step l receives = read l l.received
  step l (delivers wins) = deliver wins l l.received
  step l drops_out = record l { receiver = Peer.stop l.receiver }

  unfoldable pub run : Link → List Event → Link
  run l [] = l
  run l (e ∷ events) = run (step l e) events
