-- ===== src/Controller/Routing/Broadcast.antt =====
-- Whom route sends a broadcast to.
use mathlib.Core.List.Perm
use mathlib.Core.List.{append_assoc, append-nil}
use factom_p2p.Prelude.{
  ℕ, ◌≡◌, ◌⊎◌, ◌∙◌, refl, Bool, true, false, not, List, [], ◌++◌, Perm, values, select, count_if,
  select-perm, count_if-not-select, count_if-perm, min, str_eq, string_eq, Bool-cases, inl, inr,
}
use factom_p2p.Parcel.{Parcel}
use factom_p2p.Configuration.{Configuration, broadcast, full_broadcast}
use factom_p2p.PeerStore.{Peer, PeerStore, slice}
use factom_p2p.PeerStore.Consistency.{IsConsistent, slice-perm}
use factom_p2p.Controller.Selection.{select_no_resend_peers, select_broadcast_peers}
use factom_p2p.Controller.Selection.Broadcast.{broadcast-Reaches}
use factom_p2p.Controller.Routing.{Router, selection, route}

module _ (conf : Configuration) (r : Router) (parcel : Parcel) where
  abbrev has : Peer → Bool
  has = r.has_payload parcel.payload

  abbrev is_regular : Peer → Bool
  is_regular p = not (r.special p)

  -- The connected peers are those that are chosen, those that the fanout leaves out, and those
  -- that have the payload and are left out by the filter, if it is on.
  pub record IsBroadcast (connected chosen : List Peer) : Type 0 where
    pub rest : List Peer
    pub informed : List Peer
    pub whole : Perm (chosen ++ (rest ++ informed)) connected
    pub filtered :
        ((conf.peer_resend_filter ≡ false) × (informed ≡ []))
        ⊎ ((conf.peer_resend_filter ≡ true)
            × (count_if (λ p. not (has p)) informed ≡ 0)
            × (count_if has (chosen ++ rest) ≡ 0))
    pub no_special : count_if r.special rest ≡ 0
    pub regular :
        count_if is_regular chosen ≡ min conf.fanout (count_if is_regular (chosen ++ rest))

  chosen-IsBroadcast :
      (peers connected : List Peer)
      → Perm peers connected
      → IsBroadcast connected
          (select_broadcast_peers r.shuffler r.special (selection conf r parcel peers) conf.fanout)
  chosen-IsBroadcast peers connected all = elim (Bool-cases conf.peer_resend_filter) [
    | inl on ↦
        let eligible = select (λ p. not (has p)) peers in
        let informed = select (λ p. not (not (has p))) peers in
        let chosen = select_broadcast_peers r.shuffler r.special eligible conf.fanout in
        let (rest, (p, none_special, n)) =
          broadcast-Reaches r.shuffler r.special eligible conf.fanout in
        let same : IsBroadcast connected chosen = record {
          rest = rest;
          informed = informed;
          whole = rw (← append_assoc chosen rest informed) (
              Perm.trans (Perm.append_right informed p)
                (Perm.trans (select-perm (λ p. not (has p)) peers) all));
          filtered = inr (
            on,
            count_if-not-select (λ p. not (has p)) peers,
            count_if-perm has (chosen ++ rest) eligible p ∙ count_if-not-select has peers,
          );
          no_special = none_special;
          regular = rw (count_if-perm is_regular (chosen ++ rest) eligible p) n;
        } in
        let e : selection conf r parcel peers ≡ eligible =
          unfold selection in unfold select_no_resend_peers in rw on refl in
        rw e same
    | inr off ↦
        let chosen = select_broadcast_peers r.shuffler r.special peers conf.fanout in
        let (rest, (p, none_special, n)) =
          broadcast-Reaches r.shuffler r.special peers conf.fanout in
        let same : IsBroadcast connected chosen = record {
          rest = rest;
          informed = [];
          whole = rw (append-nil rest) (Perm.trans p all);
          filtered = inl (off, refl);
          no_special = none_special;
          regular = rw (count_if-perm is_regular (chosen ++ rest) peers p) n;
        } in
        let e : selection conf r parcel peers ≡ peers = unfold selection in rw off refl in rw e same
  ]

  -- A broadcast is sent to connected peers, to each as often as it is connected at most. Those that
  -- it is not sent to are regular peers, where more of them are eligible than the fanout, and, if
  -- the resend filter is on, exactly the peers that have the payload, special ones too. So all
  -- special peers that are eligible are reached, and as many of the eligible regular ones as the
  -- fanout allows.
  pub route-IsBroadcast :
      (heap : ℕ → Peer) (ps : PeerStore)
      → IsConsistent heap ps
      → str_eq parcel.address full_broadcast ≡ false
      → str_eq parcel.address broadcast ≡ true
      → IsBroadcast (values ps.peers) (route conf r ps parcel).1
  unfolding route
  route-IsBroadcast heap ps v a b =
      rw (a, b)
        (chosen-IsBroadcast (slice r.order.shuffle ps).1 (values ps.peers)
          (slice-perm heap ps v r.order.shuffle r.order.permutes))
