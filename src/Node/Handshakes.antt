-- ===== src/Node/Handshakes.antt =====
-- That a handshake announces no new peer of an IP if it was refused, or is with another IP, and
-- that a dial keeps the ban.
use factom_p2p.Prelude.{
  ℕ, ◌+◌, ◌<◌, ◌≡◌, ◌≢◌, ◌⊎◌, true, false, str_eq, str_eq_iff, Option, none, some, List, [], ◌∷◌,
  ◌++◌, ◌==◌, string_eq, arith, All-append, Bool-cases, inl, inr,
}
use factom_p2p.Net.{GoString, IpParser}
use factom_p2p.Endpoint.{Endpoint}
use factom_p2p.Parcel.{type_peer_request}
use factom_p2p.PeerStore.{Peer}
use factom_p2p.Dialer as Dialer
use factom_p2p.Handshake.{Handshake}
use factom_p2p.Controller.Bans.{Bans, ban_end, ban_endpoint, is_banned_ip}
use factom_p2p.Controller.Admission.{State, allow_incoming}
use factom_p2p.Controller.Connect.{
  Action, announces, delivers, Remote, go_online, new_peer, handshake_incoming, Outgoing,
  ConnectError, loopback, rejected, detection_failed, send_failed, connection_rejected,
  handshake_outgoing,
}
use factom_p2p.Configuration.{Configuration}
use factom_p2p.Controller.Dialling.{
  Dialling, Dialled, fifty_years, after_error, after_handshake, after_connect, dial,
}
use factom_p2p.Controller.Connect.Outcomes.{
  Ended, handshake_incoming-Ended, handshake_incoming-allowed, handshake_outgoing-Concluded,
}
use factom_p2p.Controller.Online.{Status}
use factom_p2p.Node.{announce, Arrival}
use factom_p2p.Node.Bans.{HoldsBan, IsColonless, insert_endpoint-HoldsBan}
use factom_p2p.Node.Stored.{AllOnline}

-- Of the IP only the peers that are known already.
abbrev pub Known : GoString → (Peer → Type 0) → Peer → Type 0
Known ip Old p = p.endpoint.ip ≡ ip → Old p

-- A peer of the endpoint that handshakeOutgoing makes is known already, if it is one of the IP.
abbrev pub MayDial : GoString → (Peer → Type 0) → Endpoint → Type 0
MayDial ip Old ep = (ref id : ℕ) → Known ip Old (new_peer ref id ep false)

-- Either the handshake was refused, or the peer that it makes is known already, if it is one of the
-- IP.
abbrev pub Passes : GoString → (Peer → Type 0) → Arrival → Type 0
Passes ip Old a =
    (allow_incoming a.now a.state a.from.ip ≢ none)
    ⊎ ((ref id : ℕ) (port : GoString)
        → Known ip Old (new_peer ref id (record a.from { port = port }) true))

abbrev pub AllAnnounced : (Peer → Type 0) → List Action → Type 0
AllAnnounced P [] = Unit {0}
AllAnnounced P (announces p ∷ actions) = P p × AllAnnounced P actions
AllAnnounced P (delivers p parcel ∷ actions) = AllAnnounced P actions

pub announce-AllOnline :
    (P : Peer → Type 0) (actions : List Action) (ss : List Status)
    → AllAnnounced P actions
    → AllOnline P ss
    → AllOnline P (announce actions ss)
unfolding announce
announce-AllOnline P [] ss h k = k
announce-AllOnline P (announces p ∷ actions) ss h k =
    announce-AllOnline P actions (ss ++ record { peer = p; online = true } ∷ []) h.1
      (All-append _ ss (record { peer = p; online = true } ∷ []) k ((λ on. h.0), tt))
announce-AllOnline P (delivers p parcel ∷ actions) ss h k = announce-AllOnline P actions ss h k

go_online-AllAnnounced :
    (P : Peer → Type 0) (p : Peer) (hs : Handshake) → P p → AllAnnounced P (go_online p hs)
unfolding go_online
go_online-AllAnnounced P p hs x = elim (Bool-cases (hs.type == type_peer_request)) [
  | inl asks ↦ rw asks (x, tt)
  | inr quiet ↦ rw quiet (x, tt)
]

module _ (net : IpParser) (ip : GoString) (plain : IsColonless ip) (until : ℕ)
    (Old : Peer → Type 0) where
  str_eq-ne : (a b : GoString) → str_eq a b ≡ false → a ≢ b
  str_eq-ne a b other same = ground (arith, str_eq_iff a b)

  pub is_banned :
      (now : ℕ) (bs : Bans) → now < until → HoldsBan ip until bs → is_banned_ip now bs ip ≡ true
  unfolding is_banned_ip ban_end
  is_banned now bs early (e, found, h) = rw found (ground arith)

  banned_out :
      (now : ℕ) (c : State) (from : Endpoint)
      → now < until
      → HoldsBan ip until c.bans
      → from.ip ≡ ip
      → allow_incoming now c from.ip ≢ none
  unfolding allow_incoming
  banned_out now c from early h same e = let b = is_banned now c.bans early h in ground arith

  pub open_incoming-Passes :
      (now : ℕ) (c : State) (share : List Endpoint) (from : Endpoint)
      → now < until
      → HoldsBan ip until c.bans
      → Passes ip Old (record { now = now; state = c; share = share; from = from })
  unfolding new_peer
  open_incoming-Passes now c share from early h = elim (Bool-cases (str_eq from.ip ip)) [
    | inl same ↦ inl (banned_out now c from early h ((str_eq_iff from.ip ip).0 same))
    | inr other ↦ inr (λ ref id port same. absurd (str_eq-ne from.ip ip other same))
  ]

  pub handshake_incoming-AllAnnounced :
      (id : ℕ) (r : Remote) (a : Arrival)
      → Passes ip Old a
      → AllAnnounced (Known ip Old) (handshake_incoming net id r a.now a.state a.share a.from).2
  unfolding Ended
  handshake_incoming-AllAnnounced id r a q =
      elim (handshake_incoming-Ended net id r a.now a.state a.share a.from).1 [
        | inl (closed, failed, none_sent) ↦ rw none_sent tt
        | inr (fine, accepted) ↦
            let hs = accepted.handshake in
            let allowed =
              ((handshake_incoming-allowed net id r a.now a.state a.share a.from).0 fine).0 in
            let peer = new_peer r.ref hs.node_id (record a.from { port = hs.listen_port }) true in
            let known : Known ip Old peer = elim q [
              | inl refused ↦ absurd (refused allowed)
              | inr may ↦ may r.ref hs.node_id hs.listen_port
            ] in
            rw accepted.online (go_online-AllAnnounced (Known ip Old) peer hs known)
      ]

  -- A dial of an endpoint.
  abbrev Dials : Dialling × Dialled → Type 0
  Dials (d, out) = HoldsBan ip until d.bans × AllAnnounced (Known ip Old) out.actions

  module _ (ep : Endpoint) (may : MayDial ip Old ep) where
    after_error-Dials :
        (later : ℕ) (slice : List Peer) (s : Dialling) (o : Outgoing) (e : ConnectError)
        → HoldsBan ip until s.bans
        → Dials (after_error later slice ep s o e)
    unfolding after_error ban_endpoint
    after_error-Dials later slice s o loopback h =
        (insert_endpoint-HoldsBan ip plain until ep (later + fifty_years) s.bans h, tt)
    after_error-Dials later slice s o rejected h = (h, tt)
    after_error-Dials later slice s o detection_failed h = (h, tt)
    after_error-Dials later slice s o send_failed h = (h, tt)
    after_error-Dials later slice s o connection_rejected h = (h, tt)

    after_handshake-Dials :
        (later : ℕ) (slice : List Peer) (s : Dialling) (o : Outgoing) (e : Option ConnectError)
        → HoldsBan ip until s.bans
        → AllAnnounced (Known ip Old) o.actions
        → Dials (after_handshake later slice ep s o e)
    unfolding after_handshake
    after_handshake-Dials later slice s o none h k = (h, k)
    after_handshake-Dials later slice s o (some e) h k = after_error-Dials later slice s o e h

    outgoing-AllAnnounced :
        (id now : ℕ) (conf : Configuration) (r : Remote)
        → AllAnnounced (Known ip Old) (handshake_outgoing net id r now conf ep).actions
    outgoing-AllAnnounced id now conf r =
        elim (handshake_outgoing-Concluded net id r now conf ep).2 [
          | inl ended ↦ rw ended.3 tt
          | inr online ↦
              rw online.9
                (go_online-AllAnnounced (Known ip Old) _ online.4 (may r.ref online.4.node_id))
        ]

    after_connect-Dials :
        (id now later : ℕ) (slice : List Peer) (conf : Configuration) (s : Dialling)
        (remote : Option Remote)
        → HoldsBan ip until s.bans
        → Dials (after_connect net id now later slice conf ep s remote)
    unfolding after_connect
    after_connect-Dials id now later slice conf s none h = (h, tt)
    after_connect-Dials id now later slice conf s (some r) h =
        let o = handshake_outgoing net id r now conf ep in
        after_handshake-Dials later slice s o o.error h (outgoing-AllAnnounced id now conf r)

    pub dial-Dials :
        (id now later : ℕ) (slice : List Peer) (conf : Configuration) (s : Dialling)
        (remote : Option Remote)
        → HoldsBan ip until s.bans
        → Dials (dial net id now later slice conf remote s ep)
    unfolding dial
    dial-Dials id now later slice conf s remote h =
        elim (Bool-cases (Dialer.dial now s.dialer ep).1) [
          | inl made ↦ rw made (
              after_connect-Dials id now later slice conf
                (record s { dialer = (Dialer.dial now s.dialer ep).0 }) remote h)
          | inr soon ↦ rw soon (h, tt)
        ]
