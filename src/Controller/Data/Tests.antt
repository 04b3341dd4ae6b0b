-- ===== src/Controller/Data/Tests.antt =====
-- A peer that asks for peers three times, and a message of it in between.
use factom_p2p.Prelude.{
  ℕ, ◌≡◌, refl, arith, true, none, some, List, [], ◌∷◌, SpacedFrom, length, take,
}
use factom_p2p.Net.{bytes}
use factom_p2p.Parcel.{new_parcel, type_peer_request, type_message_part, is_application_message}
use factom_p2p.ParcelChannel.{new_channel, send}
use factom_p2p.PeerStore.{Peer}
use factom_p2p.Controller.Data.{
  Data, PeerParcel, manage_data, handle, handle_other, dispatch, handle_request, assign, forward,
  shares, forwards, no_effect,
}
use factom_p2p.ParcelChannel.Stream.{InOrder, done}
use factom_p2p.Controller.Data.Messages.{messages, dropped, link, manage_data-InOrder}
use factom_p2p.Controller.Data.Requests.{share_times, share_times-SpacedFrom}

abbrev peer : Peer
peer = record {
  ref = 0;
  hash = bytes "x";
  endpoint = record { ip = bytes "a"; port = bytes "1" };
  is_incoming = true;
}

abbrev asks : PeerParcel
asks = record { peer = some peer; parcel = new_parcel type_peer_request (bytes "Peer Request") }

abbrev tells : PeerParcel
tells = record { peer = none; parcel = new_parcel type_message_part (bytes "hello") }

abbrev start : Data
start = record { from_network = new_channel 4; last_request = λ r. 0; listeners = [] }

abbrev arrivals : List (ℕ × PeerParcel)
arrivals = (10, asks) ∷ (12, tells) ∷ (15, asks) ∷ (20, asks) ∷ []

-- The second request is too early.
manage_data_asks :
    (manage_data 10 start arrivals).1
    ≡ (10, shares peer) ∷ (12, forwards 0) ∷ (15, no_effect) ∷ (20, shares peer) ∷ []
unfolding manage_data handle handle_other dispatch handle_request assign forward new_parcel
    is_application_message send new_channel
manage_data_asks = refl

start-InOrder : InOrder 4 [] (link start [] 0)
unfolding new_channel
start-InOrder = record { same_capacity = refl; fits = omega arith; order = done; account = refl }

manage_data-InOrder_example :
    InOrder 4
      (messages (take (length (manage_data 10 start arrivals).1) arrivals))
      (link (manage_data 10 start arrivals).0 [] (dropped (manage_data 10 start arrivals).1))
unfolding manage_data handle is_application_message new_parcel send new_channel
manage_data-InOrder_example =
    manage_data-InOrder 10 4 [] [] 0 start arrivals (omega arith) start-InOrder

share_times-SpacedFrom_example : SpacedFrom 10 0 (share_times 0 (manage_data 10 start arrivals).1)
share_times-SpacedFrom_example = share_times-SpacedFrom 10 0 start arrivals
