-- ===== src/Controller/Routing/Tests.antt =====
-- A broadcast of a controller without peers, and one with a peer.
use mathlib.Core.List.Perm
use factom_p2p.Prelude.{ℕ, refl, true, false, some, [], ◌∷◌, values, string_eq, str_eq}
use factom_p2p.Net.{bytes}
use factom_p2p.Configuration.{default_p2p_configuration, broadcast}
use factom_p2p.Parcel.{new_application_parcel}
use factom_p2p.PeerStore.{Peer, PeerStore, new_peer_store, add}
use factom_p2p.PeerStore.Consistency.{IsConsistent, new_peer_store-IsConsistent, add-IsConsistent}
use factom_p2p.Controller.Selection.{Shuffle}
use factom_p2p.Controller.Routing.{Router, route, PartOf, route-PartOf}
use factom_p2p.Controller.Routing.Broadcast.{IsBroadcast, route-IsBroadcast}

abbrev peer : ℕ → Peer
peer ref = record {
  ref = ref;
  hash = bytes "x";
  endpoint = record { ip = bytes "a"; port = bytes "1" };
  is_incoming = true;
}

abbrev in_order : Shuffle Peer
in_order = record { shuffle = λ l. l; permutes = λ l. Perm.refl l }

abbrev router : Router
router = record {
  order = in_order;
  shuffler = in_order;
  drawn = λ n. 0;
  special = λ p. false;
  has_payload = λ payload p. false;
}

abbrev one_peer : PeerStore
one_peer = (add new_peer_store (some (peer 0))).0

one_peer-IsConsistent : IsConsistent peer one_peer
one_peer-IsConsistent =
    add-IsConsistent peer new_peer_store (new_peer_store-IsConsistent peer) (peer 0) refl

route-PartOf_example :
    PartOf
      (route default_p2p_configuration router one_peer
        (new_application_parcel broadcast (1 ∷ []))).1
      (values one_peer.peers)
route-PartOf_example =
    route-PartOf default_p2p_configuration router (new_application_parcel broadcast (1 ∷ [])) peer
      one_peer one_peer-IsConsistent

route-IsBroadcast_example :
    IsBroadcast default_p2p_configuration router
      (new_application_parcel broadcast (1 ∷ []))
      (values one_peer.peers)
      (route default_p2p_configuration router one_peer
        (new_application_parcel broadcast (1 ∷ []))).1
unfolding new_application_parcel str_eq
route-IsBroadcast_example =
    route-IsBroadcast default_p2p_configuration router (new_application_parcel broadcast (1 ∷ []))
      peer one_peer one_peer-IsConsistent refl refl
