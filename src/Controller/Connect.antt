-- ===== src/Controller/Connect.antt =====
-- The handshakes of controller_connections.go: handshakeIncoming, RejectWithShare and
-- handshakeOutgoing. A connection is what happens to it: the deadline that is set, the handshakes
-- that are handed to a protocol's SendHandshake, and that it is closed. What goes to the
-- channels of the controller is a list of actions, in their order.
pub mod Outcomes
pub mod Wire
pub mod Heard
pub mod Meeting
mod Tests
use factom_p2p.Prelude.{
  ℕ, ◌+◌, Bool, true, false, Option, none, some, List, [], ◌∷◌, ◌++◌, ◌==◌, if◌then◌else◌,
}
use factom_p2p.Net.{GoString, IpParser, bytes}
use factom_p2p.Endpoint.{Endpoint}
use factom_p2p.Configuration.{Configuration}
use factom_p2p.Handshake.{Handshake, new_handshake}
use factom_p2p.Parcel.{Parcel, new_parcel, type_peer_request, type_reject_alternative}
use factom_p2p.PeerHash.{peer_hash}
use factom_p2p.PeerStore.{Peer}
use factom_p2p.Controller.Admission.{State, Refusal, allow_incoming}
use factom_p2p.Controller.Admission.Negotiation.{
  ProtocolVersion, FirstMessage, Detected, DetectError, detected, failed, select_protocol,
  detect_protocol,
}

pub record Connection : Type 0 where
  pub deadline : Option ℕ
  pub written : List (ProtocolVersion × Handshake)
  pub closed : Bool

abbrev pub fresh : Connection
fresh = record { deadline = none; written = []; closed = false }

-- What is sent on a channel of the controller.
pub data Action : Type 0 where
  -- c.peerStatus <- peerStatus{peer: peer, online: true}
  announces : Peer → Action
  -- c.peerData <- peerParcel{peer: peer, parcel: req}
  delivers : Peer → Parcel → Action

-- What the other side and the network do: whether a SendHandshake succeeds, and what the first
-- message reads as. `ref` is the pointer of the peer that newPeer would make.
pub record Remote : Type 0 where
  pub sends : Bool
  pub first : FirstMessage
  pub ref : ℕ

pub data ConnectError : Type 0 where
  rejected detection_failed send_failed loopback connection_rejected : ConnectError

-- con.SetDeadline(time.Now().Add(HandshakeTimeout))
unfoldable pub start : ℕ → Configuration → Connection
start now conf = record fresh { deadline = some (now + conf.handshake_timeout) }

abbrev pub hand : ProtocolVersion → Handshake → Connection → Connection
hand v hs con = record con { written = con.written ++ (v, hs) ∷ [] }

abbrev pub close : Connection → Connection
close con = record con { closed = true }

-- Its result, the error of SendHandshake, is not looked at.
unfoldable pub reject_with_share : Configuration → List Endpoint → Connection → Connection
reject_with_share conf share con =
    let handshake = record (new_handshake conf 0) {
      type = type_reject_alternative;
      alternatives = share;
    } in
    close (hand (select_protocol conf) handshake con)

-- The part of newPeer that the rest of the controller sees.
unfoldable pub new_peer : ℕ → ℕ → Endpoint → Bool → Peer
new_peer ref id ep incoming = record {
  ref = ref;
  hash = peer_hash ep id;
  endpoint = ep;
  is_incoming = incoming;
}

-- The parcel that stands for a handshake which asks for peers; its address is the peer's hash.
unfoldable pub peer_request : Peer → Parcel
peer_request peer = record (new_parcel type_peer_request (bytes "Peer Request")) {
  address = peer.hash;
}

-- The end of both handshakes.
unfoldable pub go_online : Peer → Handshake → List Action
unfolding peer_request
go_online peer hs =
    announces peer
    ∷ (if hs.type == type_peer_request then delivers peer (peer_request peer) ∷ [] else [])

-- What handshakeOutgoing returns, with what it does to the connection and to the controller.
pub record Outgoing : Type 0 where
  pub connection : Connection
  pub peer : Option Peer
  pub alternatives : List Endpoint
  pub error : Option ConnectError
  pub actions : List Action

-- failfunc
abbrev pub fail : Connection → ConnectError → Outgoing
fail con e = record {
  connection = close con;
  peer = none;
  alternatives = [];
  error = some e;
  actions = [];
}

module _ (net : IpParser) (instance_id : ℕ) (r : Remote) where
  -- The rest of handshakeIncoming, for the outcome of detectProtocolFromFirstMessage.
  unfoldable pub answer :
      Configuration
      → Endpoint
      → Connection
      → Detected
      → Connection × Option ConnectError × List Action
  unfolding go_online new_peer
  answer conf ep con (failed e) = (close con, some detection_failed, [])
  answer conf ep con (detected v hs) =
      let reply = record (new_handshake conf instance_id) { version = hs.version } in
      let con' = hand v reply con in
      let peer = new_peer r.ref hs.node_id (record ep { port = hs.listen_port }) true in
      if r.sends then (con', none, go_online peer hs) else (close con', some send_failed, [])

  -- The rest of handshakeIncoming behind allowIncoming; `share` is what makePeerShare gives.
  unfoldable pub admit :
      Configuration
      → List Endpoint
      → Endpoint
      → Connection
      → Option Refusal
      → Connection × Option ConnectError × List Action
  unfolding answer reject_with_share
  admit conf share ep con (some refusal) = (reject_with_share conf share con, some rejected, [])
  admit conf share ep con none = answer conf ep con (detect_protocol net conf r.first)

  -- `ep` is the address of the other side, with the port of its connection.
  unfoldable pub handshake_incoming :
      ℕ → State → List Endpoint → Endpoint → Connection × Option ConnectError × List Action
  unfolding admit start
  handshake_incoming now c share ep =
      admit c.conf share ep (start now c.conf) (allow_incoming now c ep.ip)

  -- The rest of handshakeOutgoing, for the outcome of detectProtocolFromFirstMessage.
  unfoldable pub conclude : Configuration → Endpoint → Connection → Detected → Outgoing
  unfolding go_online new_peer
  conclude conf ep con (failed e) = fail con detection_failed
  conclude conf ep con (detected v reply) =
      let peer = new_peer r.ref reply.node_id ep false in
      if reply.loopback == instance_id
      then fail con loopback
      else if reply.type == type_reject_alternative
      then record (fail con connection_rejected) { alternatives = reply.alternatives }
      else record {
        connection = con;
        peer = some peer;
        alternatives = [];
        error = none;
        actions = go_online peer reply;
      }

  unfoldable pub handshake_outgoing : ℕ → Configuration → Endpoint → Outgoing
  unfolding conclude start
  handshake_outgoing now conf ep =
      let con = hand (select_protocol conf) (new_handshake conf instance_id) (start now conf) in
      if r.sends
      then conclude conf ep con (detect_protocol net conf r.first)
      else fail con send_failed
