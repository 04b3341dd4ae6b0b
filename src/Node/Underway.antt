-- ===== src/Node/Underway.antt =====
-- What the checks and the ends of handshakes leave alone while an IP is banned.
use factom_p2p.Prelude.{
  ℕ, zero, suc, ◌<◌, All, Option-cases, ◌≡◌, ◌≢◌, true, Option, none, some, List, [], ◌∷◌,
  string_eq, arith, Bool-cases, inl, inr,
}
use factom_p2p.Net.{GoString, IpParser}
use factom_p2p.Endpoint.{Endpoint}
use factom_p2p.PeerStore as Store
use factom_p2p.PeerStore.{Peer, PeerStore, get, slice}
use factom_p2p.Dialer as Dialer
use factom_p2p.Controller.Bans.{is_banned_endpoint, is_banned_ip}
use factom_p2p.Controller.Connect.{Remote, handshake_incoming, new_peer}
use factom_p2p.Controller.Dialling.{Dialling, Dialled, dial}
use factom_p2p.Controller.Replenish.{can_dial}
use factom_p2p.Node.{
  Node, Order, announce, state_of, set_controller, accept_incoming, dial_endpoint, after_dial,
  Arrival, pick, open_incoming, check_endpoint,
}
use factom_p2p.Node.Bans.{HoldsBan, IsColonless}
use factom_p2p.Node.Handshakes.{
  Known, MayDial, Passes, open_incoming-Passes, AllAnnounced, announce-AllOnline, is_banned,
  handshake_incoming-AllAnnounced, dial-Dials,
}
use factom_p2p.Node.Kept.{Keeps, stop_peers-Keeps}

module _ (ip : GoString) (plain : IsColonless ip) (until : ℕ) (Old : Peer → Type 0) where
  dialled_other :
      (net : IpParser) (checked : ℕ) (n : Node) (ep : Endpoint)
      → checked < until
      → HoldsBan ip until n.network.controller.bans
      → can_dial
          (Store.connected n.network.controller.peers ep)
          (is_banned_endpoint checked n.network.controller.bans ep)
          (Dialer.can_dial checked n.network.controller.dialer ep)
        ≡ true
      → ep.ip ≢ ip
  unfolding can_dial is_banned_endpoint is_banned_ip
  dialled_other net checked n ep early h may same =
      let b = is_banned net ip plain until Old checked n.network.controller.bans early h in
      ground (arith, may, same, b)

  pub open_incoming-Keeps :
      (net : IpParser) (now : ℕ) (share : List Endpoint) (from : Endpoint) (n : Node)
      → now < until
      → Keeps ip plain until Old n
      → Keeps ip plain until Old (open_incoming now share from n)
  unfolding open_incoming state_of
  open_incoming-Keeps net now share from n early k = record {
    banned = k.banned;
    only = record {
      stored = k.only.stored;
      online = k.only.online;
      arriving = (
        open_incoming-Passes net ip plain until Old now (state_of n) share from early k.banned,
        k.only.arriving,
      );
      dialling = k.only.dialling;
    };
  }

  pub check_endpoint-Keeps :
      (net : IpParser) (checked : ℕ) (ep : Endpoint) (n : Node)
      → checked < until
      → Keeps ip plain until Old n
      → Keeps ip plain until Old (check_endpoint checked ep n)
  unfolding check_endpoint new_peer
  check_endpoint-Keeps net checked ep n early k = elim (Option-cases n.dialling) [
    | inr (other, e) ↦ rw (e, check_endpoint) k
    | inl e ↦
        let c = n.network.controller in
        elim (Bool-cases (
          can_dial (Store.connected c.peers ep) (is_banned_endpoint checked c.bans ep)
            (Dialer.can_dial checked c.dialer ep))) [
              | inr refused ↦ rw (e, check_endpoint, refused) k
              | inl made ↦
                  let other = dialled_other net checked n ep early k.banned made in
                  let next : Keeps ip plain until Old (record n { dialling = some ep }) = record {
                    banned = k.banned;
                    only = record {
                      stored = k.only.stored;
                      online = k.only.online;
                      arriving = k.only.arriving;
                      dialling = λ ref id same. absurd (other same);
                    };
                  } in
                  rw (e, check_endpoint, made) next
            ]
  ]

  pick-Passes :
      (k : ℕ) (arrivals : List Arrival) (a : Arrival) (others : List Arrival)
      → pick k arrivals ≡ some (a, others)
      → All (Passes ip Old) arrivals
      → Passes ip Old a × All (Passes ip Old) others
  unfolding pick
  pick-Passes k [] a others e all = cc
  pick-Passes zero (b ∷ arrivals) a others e all =
      let first : b ≡ a = cc in let rest : arrivals ≡ others = cc in rw (← first, ← rest) all
  pick-Passes (suc k) (b ∷ arrivals) a others e all = elim (Option-cases (pick k arrivals)) [
    | inl f ↦ let g : none ≡ some (a, others) = rw f at e in cc
    | inr ((c, rest), f) ↦
        let g : some (c, b ∷ rest) ≡ some (a, others) = rw f at e in
        let first : c ≡ a = cc in
        let left : b ∷ rest ≡ others = cc in
        let (passes, kept) = pick-Passes k arrivals c rest f all.1 in
        rw (← first, ← left) (passes, (all.0, kept))
  ]

  module _ (net : IpParser) where
    pub accept_incoming-Keeps :
        (k : ℕ) (r : Remote) (n : Node)
        → Keeps ip plain until Old n
        → Keeps ip plain until Old (accept_incoming net k r n)
    unfolding accept_incoming
    accept_incoming-Keeps k r n kept = elim (Option-cases (pick k n.arriving)) [
      | inl e ↦ rw (e, accept_incoming) kept
      | inr ((a, others), e) ↦
          let (passes, rest) = pick-Passes k n.arriving a others e kept.only.arriving in
          let out =
            (handshake_incoming net n.network.instance_id r a.now a.state a.share a.from).2 in
          let next : Keeps ip plain until Old
              (record n { statuses = announce out n.statuses; arriving = others }) =
            record {
              banned = kept.banned;
              only = record {
                stored = kept.only.stored;
                online =
                    announce-AllOnline (Known ip Old) out n.statuses
                      (handshake_incoming-AllAnnounced net ip plain until Old n.network.instance_id
                        r a passes)
                      kept.only.online;
                arriving = rest;
                dialling = kept.only.dialling;
              };
            } in
          rw (e, accept_incoming) next
    ]

    after_dial-Keeps :
        (n : Node) (x : Dialling × Dialled)
        → HoldsBan ip until x.0.bans
        → AllAnnounced (Known ip Old) x.1.actions
        → Keeps ip plain until Old n
        → Keeps ip plain until Old (after_dial x n)
    after_dial-Keeps n (d, out) h a k =
        let n' =
          set_controller (record n.network.controller { dialer = d.dialer; bans = d.bans }) n in
        stop_peers-Keeps ip plain until Old out.stops
          (record n' { statuses = announce out.actions n.statuses })
          (record {
            banned = h;
            only = record {
              stored = k.only.stored;
              online = announce-AllOnline (Known ip Old) out.actions n.statuses a k.only.online;
              arriving = k.only.arriving;
              dialling = k.only.dialling;
            };
          })

    pub dial_endpoint-Keeps :
        (order : Order) (now later : ℕ) (remote : Option Remote) (n : Node)
        → Keeps ip plain until Old n
        → Keeps ip plain until Old (dial_endpoint net order now later remote n)
    unfolding dial_endpoint
    dial_endpoint-Keeps order now later remote n k = elim (Option-cases n.dialling) [
      | inl e ↦ rw (e, dial_endpoint) k
      | inr (ep, e) ↦
          let c = n.network.controller in
          let dialled =
            dial net n.network.instance_id now later (slice order c.peers).1 n.network.conf remote
              (record { dialer = c.dialer; bans = c.bans }) ep in
          let may : MayDial ip Old ep = rw e at k.only.dialling in
          let (h, a) =
            dial-Dials net ip plain until Old ep may n.network.instance_id now later
              (slice order c.peers).1 n.network.conf (record { dialer = c.dialer; bans = c.bans })
              remote k.banned in
          let idle : Keeps ip plain until Old (record n { dialling = none }) = record {
            banned = k.banned;
            only = record {
              stored = k.only.stored;
              online = k.only.online;
              arriving = k.only.arriving;
              dialling = tt;
            };
          } in
          rw (e, dial_endpoint) (after_dial-Keeps (record n { dialling = none }) dialled h a idle)
    ]
