-- ===== src/Controller/Connect/Meeting.antt =====
-- One node dials another: the handshakes of both sides, over the messages of the protocols.
use factom_p2p.Prelude.{
  ℕ, ◌≤◌, ◌≡◌, ◌≢◌, ◌∙◌, refl, sym, true, false, Option, none, some, List, [], ◌∷◌, ◌==◌, ==_iff,
  arith, Bool-cases, inl, inr, if◌then◌else◌,
}
use factom_p2p.Net.{IpParser}
use factom_p2p.Endpoint.{Endpoint}
use factom_p2p.Endpoint.Parse.{HasPort}
use factom_p2p.Configuration.{Configuration}
use factom_p2p.Handshake.{Handshake, new_handshake}
use factom_p2p.Handshake.Checks.{IsAcceptable}
use factom_p2p.Parcel.{type_handshake, type_peer_request, type_reject_alternative}
use factom_p2p.Controller.Admission.{State, allow_incoming}
use factom_p2p.Controller.Admission.Negotiation.{
  ProtocolVersion, v9, v10, v11, detected, select_protocol, detect_protocol,
}
use factom_p2p.Controller.Connect.{
  Connection, Action, start, hand, new_peer, go_online, ConnectError, loopback, answer, admit,
  conclude, handshake_incoming, Outgoing, handshake_outgoing,
}
use factom_p2p.Controller.Connect.Wire.{Line, wire, Fits}
use factom_p2p.Controller.Connect.Heard.{number, settle, not_reject, detect_protocol-wire}

module _ (line : Line) where
  -- Two nodes of one network, each with a port, whose versions the other one takes.
  pub record Compatible (dialler listener : Configuration) : Type 0 where
    pub network : dialler.network ≡ listener.network
    pub dialler_port : HasPort dialler.listen_port
    pub listener_port : HasPort listener.listen_port
    pub lowest : 9 ≤ dialler.protocol_version
    pub highest : dialler.protocol_version ≤ 11
    pub taken : listener.protocol_version_minimum ≤ dialler.protocol_version
    pub kept :
        dialler.protocol_version_minimum
        ≤ number (settle dialler.protocol_version listener.protocol_version)

  module _ (net : IpParser) (d : Configuration) (c : State) (ok : Compatible d c.conf)
      (own other : ℕ) where
    abbrev pub settled : ProtocolVersion
    settled = settle d.protocol_version c.conf.protocol_version

    -- The handshake that the dialling node sends, and the one that it gets back.
    abbrev pub hello : Handshake
    hello = new_handshake d own

    abbrev pub reply : Handshake
    reply = record (new_handshake c.conf other) { version = number settled }

    -- The type with which the first handshake arrives.
    abbrev pub hello_type : ℕ
    hello_type = if d.protocol_version == 9 then type_peer_request else type_handshake

    hello-IsAcceptable : IsAcceptable net hello c.conf
    unfolding new_handshake
    hello-IsAcceptable = record {
      version = ok.taken;
      network = ok.network;
      port = ok.dialler_port;
      alternatives = tt;
    }

    reply-IsAcceptable : IsAcceptable net reply d
    unfolding new_handshake
    reply-IsAcceptable = record {
      version = ok.kept;
      network = sym ok.network;
      port = ok.listener_port;
      alternatives = tt;
    }

    hello_heard :
        Fits line hello
        → detect_protocol net c.conf (wire line (select_protocol d) hello)
          ≡ detected settled (record hello { type = hello_type; version = number settled })
    unfolding select_protocol new_handshake
    hello_heard f = elim (Bool-cases (d.protocol_version == 11)) [
      | inl is11 ↦
          let pv : d.protocol_version ≡ 11 = ground arith in
          let chosen : select_protocol d ≡ v11 = ground arith in
          rw chosen (
            detect_protocol-wire line net c.conf hello hello-IsAcceptable v11 f refl not_reject pv
            ∙ ground arith)
      | inr not11 ↦ elim (Bool-cases (d.protocol_version == 10)) [
        | inl is10 ↦
            let pv : d.protocol_version ≡ 10 = ground arith in
            let chosen : select_protocol d ≡ v10 = ground arith in
            rw chosen (
              detect_protocol-wire line net c.conf hello hello-IsAcceptable v10 f refl not_reject pv
              ∙ ground arith)
        | inr not10 ↦
            let low = ok.lowest in
            let high = ok.highest in
            let pv : d.protocol_version ≡ 9 = ground arith in
            let chosen : select_protocol d ≡ v9 = ground arith in
            rw chosen (
              detect_protocol-wire line net c.conf hello hello-IsAcceptable v9 f refl not_reject pv
              ∙ ground arith)
      ]
    ]

    -- The type with which the reply arrives.
    abbrev pub reply_type : ℕ
    reply_type = if number settled == 9 then type_peer_request else type_handshake

    reply_heard :
        Fits line reply
        → detect_protocol net d (wire line settled reply)
          ≡ detected settled (record reply { type = reply_type })
    unfolding new_handshake
    reply_heard f =
        detect_protocol-wire line net d reply reply-IsAcceptable settled f refl not_reject refl
        ∙ (elim (Bool-cases (d.protocol_version == 11)) [
          | inl is11 ↦ rw is11 refl
          | inr not11 ↦ elim (Bool-cases (d.protocol_version == 10)) [
            | inl is10 ↦
                let not9 : (d.protocol_version == 9) ≡ false = ground arith in
                elim (Bool-cases (c.conf.protocol_version == 9)) [
                  | inl listener9 ↦ rw (not11, is10, listener9) refl
                  | inr newer ↦ rw (not11, is10, newer, not9) refl
                ]
            | inr not10 ↦ rw (not11, not10) refl
          ]
        ])

    module _ (now later : ℕ) (share : List Endpoint) (from dialled : Endpoint) (ref ref' : ℕ) where
      -- The listening node's side, and then the dialling node's.
      abbrev pub incoming : Connection × Option ConnectError × List Action
      incoming =
          handshake_incoming net other
            (record { sends = true; first = wire line (select_protocol d) hello; ref = ref }) now c
            share from

      abbrev pub outgoing : Outgoing
      outgoing =
          handshake_outgoing net own
            (record { sends = true; first = wire line settled reply; ref = ref' }) later d dialled

      incoming_lem :
          Fits line hello
          → allow_incoming now c from.ip ≡ none
          → (incoming.1 ≡ none)
            × (incoming.0.closed ≡ false)
            × (incoming.0.written ≡ (settled, reply) ∷ [])
            × (incoming.2
                ≡ go_online
                    (new_peer ref d.node_id (record from { port = d.listen_port }) true)
                    (record hello { type = hello_type; version = number settled }))
      unfolding handshake_incoming admit answer start new_handshake
      incoming_lem f allowed = rw (allowed, hello_heard f) (refl, refl, refl, refl)

      outgoing_lem :
          Fits line reply
          → outgoing
            ≡ conclude net own
                (record { sends = true; first = wire line settled reply; ref = ref' })
                d
                dialled
                (hand (select_protocol d) hello (start later d))
                (detected settled (record reply { type = reply_type }))
      unfolding handshake_outgoing
      outgoing_lem f = rw (reply_heard f) refl

      abbrev conclusion : Outgoing
      conclusion =
          conclude net own (record { sends = true; first = wire line settled reply; ref = ref' }) d
            dialled (hand (select_protocol d) hello (start later d))
            (detected settled (record reply { type = reply_type }))

      no_rejection : (reply_type == type_reject_alternative) ≡ false
      no_rejection = ground arith

      concluded :
          own ≢ other
          → (conclusion.error ≡ none)
            × (conclusion.connection.closed ≡ false)
            × (conclusion.peer ≡ some (new_peer ref' c.conf.node_id dialled false))
      unfolding conclude start new_handshake
      concluded differ =
          let apart : (other == own) ≡ false = ground (arith, ==_iff other own) in
          rw (apart, no_rejection) (refl, refl, refl)

      concluded_self :
          own ≡ other
          → (conclusion.error ≡ some loopback)
            × (conclusion.connection.closed ≡ true)
            × (conclusion.peer ≡ none)
      unfolding conclude start new_handshake
      concluded_self same =
          let met : (other == own) ≡ true = ground arith in rw met (refl, refl, refl)

      -- A node that dials a compatible one which lets it in: the listening node replies in the
      -- version that the two settle on, the lower one of 9 and 10, or 11 where the dialling node
      -- has that, and both end with an open connection and no error; each has the other as a peer,
      -- under the node id of the other one, the listening node under the IP that the connection
      -- comes from and the port on which the dialling node listens, and the dialling node under
      -- the endpoint that it dialled.
      pub nodes_meet :
          Fits line hello
          → Fits line reply
          → allow_incoming now c from.ip ≡ none
          → own ≢ other
          → ((incoming.1 ≡ none)
              × (incoming.0.closed ≡ false)
              × (incoming.0.written ≡ (settled, reply) ∷ [])
              × (incoming.2
                  ≡ go_online
                      (new_peer ref d.node_id (record from { port = d.listen_port }) true)
                      (record hello { type = hello_type; version = number settled })))
            × ((outgoing.error ≡ none)
                × (outgoing.connection.closed ≡ false)
                × (outgoing.peer ≡ some (new_peer ref' c.conf.node_id dialled false)))
      nodes_meet f g allowed differ =
          (incoming_lem f allowed, rw (outgoing_lem g) (concluded differ))

      -- A node that dials itself finds its own loopback value in the reply, closes the connection,
      -- and has no peer.
      pub nodes_meet_self :
          Fits line reply
          → own ≡ other
          → (outgoing.error ≡ some loopback)
            × (outgoing.connection.closed ≡ true)
            × (outgoing.peer ≡ none)
      nodes_meet_self g same = rw (outgoing_lem g) (concluded_self same)
