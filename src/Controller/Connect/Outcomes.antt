-- ===== src/Controller/Connect/Outcomes.antt =====
-- How the handshakes end: with an open connection and a peer, or with neither.
use factom_p2p.Prelude.{
  ℕ, ◌+◌, ◌≤◌, ◌<◌, ◌≡◌, ◌≢◌, ◌⊎◌, ◌↔◌, refl, true, false, Option, none, some, List, [], ◌∷◌, ◌==◌,
  ==_iff, arith, inl, inr, Bool-cases,
}
use factom_p2p.Net.{IpParser}
use factom_p2p.Endpoint.{Endpoint}
use factom_p2p.Configuration.{Configuration}
use factom_p2p.Handshake.{Handshake, new_handshake}
use factom_p2p.Parcel.{type_reject_alternative}
use factom_p2p.Prelude.Int.{pos}
use factom_p2p.PeerStore as Store
use factom_p2p.Controller.Bans.{ban_end, is_banned_ip}
use factom_p2p.Controller.Special.{is_special_ip}
use factom_p2p.Controller.Admission.{State, Refusal, allow_incoming, allow_incoming_iff}
use factom_p2p.Controller.Admission.Understanding.{IsUnderstood, IsUnderstood-iff}
use factom_p2p.Controller.Admission.Negotiation.{
  ProtocolVersion, Detected, detected, failed, select_protocol, detect_protocol,
}
use factom_p2p.Controller.Connect.{
  Connection, Remote, Action, ConnectError, connection_rejected, start, hand, reject_with_share,
  new_peer, go_online, answer, admit, handshake_incoming, Outgoing, conclude, handshake_outgoing,
}

module _ (net : IpParser) (instance_id : ℕ) (r : Remote) where
  -- A peer goes online on an open connection, after the reply in the protocol that was detected.
  pub record Accepted (conf : Configuration) (ep : Endpoint) (con : Connection)
      (actions : List Action) : Type 0 where
    pub version : ProtocolVersion
    pub handshake : Handshake
    pub detection : detect_protocol net conf r.first ≡ detected version handshake
    pub open_connection : con.closed ≡ false
    pub replied :
        con.written
        ≡ (version, record (new_handshake conf instance_id) { version = handshake.version }) ∷ []
    pub online :
        actions
        ≡ go_online
            (new_peer r.ref handshake.node_id (record ep { port = handshake.listen_port }) true)
            handshake

  -- An error, a closed connection, and nothing for the controller.
  abbrev pub Refused : Connection → Option ConnectError → List Action → Type 0
  Refused con e actions = (con.closed ≡ true) × (e ≢ none) × (actions ≡ [])

  module _ (now : ℕ) (c : State) (share : List Endpoint) (ep : Endpoint) where
    unfoldable pub Ended : Connection × Option ConnectError × List Action → Type 0
    Ended (con, e, actions) =
        (con.deadline ≡ some (now + c.conf.handshake_timeout))
        × (Refused con e actions ⊎ ((e ≡ none) × Accepted c.conf ep con actions))

    answer-Ended :
        (d : Detected)
        → detect_protocol net c.conf r.first ≡ d
        → Ended (answer net instance_id r c.conf ep (start now c.conf) d)
    unfolding answer start Ended
    answer-Ended (failed e) h = (refl, inl (refl, (λ p. cc), refl))
    answer-Ended (detected v hs) h = elim (Bool-cases r.sends) [
      | inl sent ↦ rw sent (
        refl,
        inr (
          refl,
          record {
            version = v;
            handshake = hs;
            detection = h;
            open_connection = refl;
            replied = refl;
            online = refl;
          },
        ),
      )
      | inr lost ↦ rw lost (refl, inl (refl, (λ p. cc), refl))
    ]

    admit-Ended :
        (o : Option Refusal) → Ended (admit net instance_id r c.conf share ep (start now c.conf) o)
    unfolding admit reject_with_share start Ended
    admit-Ended (some refusal) = (refl, inl (refl, (λ p. cc), refl))
    admit-Ended none = answer-Ended (detect_protocol net c.conf r.first) refl

    -- An incoming connection gets the deadline of the handshake, and ends in one of two ways:
    -- closed, with an error, and with nothing sent to the controller; or open, with no error, with
    -- the reply written in the protocol that was detected, and with a peer announced under the
    -- other side's IP, listening port and node id, whose request for peers is passed on if its
    -- handshake is one.
    pub handshake_incoming-Ended : Ended (handshake_incoming net instance_id r now c share ep)
    unfolding handshake_incoming
    handshake_incoming-Ended = admit-Ended (allow_incoming now c ep.ip)

    answer_iff :
        (d : Detected)
        → ((answer net instance_id r c.conf ep (start now c.conf) d).1 ≡ none)
          ↔ ((r.sends ≡ true) × (v : ProtocolVersion) × (hs : Handshake) × (d ≡ detected v hs))
    unfolding answer
    answer_iff (failed e) = ((λ h. cc), (λ h. cc))
    answer_iff (detected v hs) = ((λ h. (ground arith, v, hs, refl)), (λ h. ground (arith, h.0)))

    admit_iff :
        (o : Option Refusal)
        → ((admit net instance_id r c.conf share ep (start now c.conf) o).1 ≡ none) ↔ (
            (o ≡ none)
            × (r.sends ≡ true)
            × (v : ProtocolVersion) × (hs : Handshake) × (detect_protocol net c.conf r.first
                ≡ detected v hs))
    unfolding admit
    admit_iff (some refusal) = ((λ h. cc), (λ h. cc))
    admit_iff none =
        let both = answer_iff (detect_protocol net c.conf r.first) in
        ((λ h. let b = both.0 h in (refl, b.0, b.1, b.2, b.3)), (λ h. both.1 (h.1, h.2, h.3, h.4)))

    pub handshake_incoming-allowed :
        ((handshake_incoming net instance_id r now c share ep).1 ≡ none) ↔ (
          (allow_incoming now c ep.ip ≡ none)
          × (r.sends ≡ true)
          × (v : ProtocolVersion) × (hs : Handshake) × (detect_protocol net c.conf r.first
              ≡ detected v hs))
    unfolding handshake_incoming
    handshake_incoming-allowed = admit_iff (allow_incoming now c ep.ip)

    -- What admits a connection from an IP with `n` connections.
    abbrev pub Admits : ℕ → Type 0
    Admits n =
        (ban_end c.bans ep.ip ≤ now)
        × ((Store.total c.peers < c.conf.max_incoming) ⊎ (is_special_ip c.specials ep.ip ≡ true))
        × ((c.conf.peer_ip_limit_incoming ≡ 0) ⊎ (n < c.conf.peer_ip_limit_incoming))
        × (r.sends ≡ true)
        × IsUnderstood net c.conf r.first

    -- The handshake succeeds exactly if no ban of the IP lasts beyond the time, there is room or
    -- the IP is special, the IP has fewer connections than its limit if there is one, the reply
    -- can be sent, and the first message is an acceptable handshake behind the signature of
    -- version 11, or one of version 9 or 10 without it.
    pub handshake_incoming_iff :
        (n : ℕ)
        → Store.count c.peers ep.ip ≡ pos n
        → ((handshake_incoming net instance_id r now c share ep).1 ≡ none) ↔ Admits n
    unfolding is_banned_ip
    handshake_incoming_iff n e =
        let (to, from) = handshake_incoming-allowed in
        let (allowed, allows) = allow_incoming_iff now c ep.ip n e in
        let (settled, settles) = IsUnderstood-iff net c.conf r.first in
        (
          λ h.
              let (a, s, v, hs, d) = to h in
              let (free, room, limit) = allowed a in
              (ground (arith, free), room, limit, s, settled (v, hs, d)),
          λ h.
              let (free, room, limit, s, d) = h in
              let (v, hs, known) = settles d in
              from (allows (ground (arith, free), room, limit), s, v, hs, known),
        )

  -- The ways in which handshakeOutgoing ends: a peer at the dialled endpoint on an open
  -- connection, or a closed connection and no peer, with alternatives of a rejection only.
  abbrev pub Concluded : ℕ → Configuration → Endpoint → Outgoing → Type 0
  Concluded now conf ep o =
      (o.connection.deadline ≡ some (now + conf.handshake_timeout))
      × (o.connection.written ≡ (select_protocol conf, new_handshake conf instance_id) ∷ [])
      × (((o.connection.closed ≡ true)
            × (o.peer ≡ none)
            × (o.error ≢ none)
            × (o.actions ≡ [])
            × ((o.alternatives ≡ []) ⊎ (o.error ≡ some connection_rejected)))
          ⊎ ((o.connection.closed ≡ false)
              × (o.error ≡ none)
              × (o.alternatives ≡ [])
              × (v : ProtocolVersion) × (reply : Handshake) × (detect_protocol net conf r.first
                  ≡ detected v reply)
              × (reply.loopback ≢ instance_id)
              × (reply.type ≢ type_reject_alternative)
              × (o.peer ≡ some (new_peer r.ref reply.node_id ep false))
              × (o.actions ≡ go_online (new_peer r.ref reply.node_id ep false) reply)))

  conclude-Concluded :
      (now : ℕ) (conf : Configuration) (ep : Endpoint) (d : Detected)
      → detect_protocol net conf r.first ≡ d
      → Concluded now conf ep (
          conclude net instance_id r conf ep
            (hand (select_protocol conf) (new_handshake conf instance_id) (start now conf))
            d)
  unfolding conclude start
  conclude-Concluded now conf ep (failed e) h =
      (refl, refl, inl (refl, refl, (λ p. cc), refl, inl refl))
  conclude-Concluded now conf ep (detected v reply) h =
      elim (Bool-cases (reply.loopback == instance_id)) [
        | inl own ↦ rw own (refl, refl, inl (refl, refl, (λ p. cc), refl, inl refl))
        | inr other ↦ elim (Bool-cases (reply.type == type_reject_alternative)) [
          | inl full ↦ rw (other, full) (refl, refl, inl (refl, refl, (λ p. cc), refl, inr refl))
          | inr taken ↦
              rw (other, taken)
                (
                  refl,
                  refl,
                  inr (
                    refl,
                    refl,
                    refl,
                    v,
                    reply,
                    h,
                    (λ e. ground (arith, ==_iff reply.loopback instance_id)),
                    (λ e. ground (arith, ==_iff reply.type type_reject_alternative)),
                    refl,
                    refl,
                  ),
                )
        ]
      ]

  -- An outgoing handshake gets its deadline, writes the node's own handshake in the protocol of
  -- its configuration, and ends in one of two ways: closed, with an error, no peer, and nothing
  -- sent to the controller, the alternatives being those of a rejection; or open, with a peer at
  -- the endpoint that was dialled, of another node than this one, announced with its request for
  -- peers.
  pub handshake_outgoing-Concluded :
      (now : ℕ) (conf : Configuration) (ep : Endpoint)
      → Concluded now conf ep (handshake_outgoing net instance_id r now conf ep)
  unfolding handshake_outgoing start
  handshake_outgoing-Concluded now conf ep = elim (Bool-cases r.sends) [
    | inl sent ↦ rw sent (conclude-Concluded now conf ep (detect_protocol net conf r.first) refl)
    | inr lost ↦ rw lost (refl, refl, inl (refl, refl, (λ p. cc), refl, inl refl))
  ]
