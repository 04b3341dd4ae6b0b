-- ===== src/Protocol/Interface.antt =====
-- The interface of protocol.go, for what follows the handshake, with what the rest of the program
-- relies on. `Line` is what a connection carries, bytes or whole messages; what Send writes on a
-- connection with room for it is `none` for an error, and so is what Receive reads. The versions
-- implement it.
use factom_p2p.Prelude.{ℕ, ◌≡◌, Option, none, some, List, [], ◌++◌}
use factom_p2p.Net.{GoString}
use factom_p2p.Endpoint.{Endpoint}
use factom_p2p.Parcel.{Parcel, valid}

pub record Protocol : Type 1 where
  pub Line : Type 0
  pub version : ℕ
  pub send : Parcel → Option (List Line)
  pub receive : List Line → Option (Parcel × List Line)
  pub make_peer_share : List Endpoint → Option (List ℕ)
  pub parse_peer_share : List ℕ → Option (List Endpoint)
  -- Where nothing is left to read, nothing is received.
  pub receive_nothing : receive [] ≡ none
  -- A valid parcel that can be sent is received, with its type and payload and some address, and
  -- what follows it is left.
  pub receive_sent :
      (p : Parcel) (w rest : List Line)
      → valid (some p) ≡ none
      → send p ≡ some w
      → (address : GoString) × (receive (w ++ rest) ≡ some (record p { address = address }, rest))
  pub parse_made :
      (ps : List Endpoint) (payload : List ℕ)
      → make_peer_share ps ≡ some payload
      → parse_peer_share payload ≡ some ps
