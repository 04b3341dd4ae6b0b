-- ===== src/Controller/Dialling/SelfBan.antt =====
-- What Dial returns, and that a node dials itself once.
use factom_p2p.Prelude.{
  ℕ, ◌+◌, ◌<◌, ◌≡◌, ◌⊎◌, ◌∙◌, refl, Bool, true, false, Option, none, some, List, [], lookup-insert,
  str_eq_refl, string_eq, arith, Bool-cases, inl, inr,
}
use factom_p2p.Net.{IpParser}
use factom_p2p.Endpoint.{Endpoint, to_string}
use factom_p2p.Configuration.{Configuration}
use factom_p2p.Dialer as Dialer
use factom_p2p.Dialer.{Dialer}
use factom_p2p.Dialer.Throttle.{can_dial-dial}
use factom_p2p.PeerStore.{Peer}
use factom_p2p.Controller.Bans.{Bans, ban_end, ban_endpoint, is_banned_endpoint}
use factom_p2p.Controller.Connect.{Remote, ConnectError, loopback, Outgoing, handshake_outgoing}
use factom_p2p.Controller.Replenish.{can_dial}
use factom_p2p.Controller.Dialling.{
  fifty_years, Dialling, after_error, after_handshake, after_connect, dial,
}

-- A ban lasts as long as it says.
pub ban_endpoint-is_banned_endpoint :
    (now duration t : ℕ) (ep : Endpoint) (slice : List Peer) (bans : Bans)
    → t < now + duration
    → is_banned_endpoint t (ban_endpoint now duration ep slice bans).0 ep ≡ true
unfolding is_banned_endpoint ban_endpoint ban_end
ban_endpoint-is_banned_endpoint now duration t ep slice bans h = ground (
  arith,
  lookup-insert (to_string ep) (to_string ep) (now + duration) bans,
  str_eq_refl (to_string ep),
)

module _ (later : ℕ) (slice : List Peer) (ep : Endpoint) (s : Dialling) (o : Outgoing) where
  after_error_peer : (e : ConnectError) → (after_error later slice ep s o e).1.peer ≡ none
  unfolding after_error
  after_error_peer loopback = refl
  after_error_peer e = refl

  after_handshake_exclusive :
      (e : Option ConnectError)
      → let out = (after_handshake later slice ep s o e).1 in
        (out.peer ≡ none) ⊎ (out.alternatives ≡ [])
  unfolding after_handshake
  after_handshake_exclusive none = inr refl
  after_handshake_exclusive (some e) = inl (after_error_peer e)

module _ (net : IpParser) (own now later : ℕ) (slice : List Peer) (conf : Configuration)
    (r : Remote) (s : Dialling) (ep : Endpoint) where
  abbrev o : Outgoing
  o = handshake_outgoing net own r now conf ep

  -- Where the handshake finds the node itself, Dial returns nothing, and from then on the
  -- replenishing loop finds that the endpoint cannot be dialled, for fifty years.
  pub dial_self :
      (t : ℕ) (is_connected dialable : Bool)
      → Dialer.can_dial now s.dialer ep ≡ true
      → o.error ≡ some loopback
      → t < later + fifty_years
      → let (s', out) = dial net own now later slice conf (some r) s ep in
        (out.peer ≡ none)
        × (out.alternatives ≡ [])
        × (can_dial is_connected (is_banned_endpoint t s'.bans ep) dialable ≡ false)
  unfolding dial after_connect after_handshake after_error can_dial
  dial_self t is_connected dialable allowed e h =
      let made : (Dialer.dial now s.dialer ep).1 ≡ true =
        (can_dial-dial now s.dialer ep now ep).0 ∙ allowed in
      let banned = ban_endpoint-is_banned_endpoint later fifty_years t ep slice s.bans h in
      rw (made, e) (refl, refl, ground (arith, banned))

  -- Dial returns a peer or alternatives, and never both.
  pub dial_exclusive :
      (remote : Option Remote)
      → let out = (dial net own now later slice conf remote s ep).1 in
        (out.peer ≡ none) ⊎ (out.alternatives ≡ [])
  unfolding dial after_connect after_handshake
  dial_exclusive none = ground arith
  dial_exclusive (some r') = elim (Bool-cases (Dialer.dial now s.dialer ep).1) [
    | inl made ↦
        let o' = handshake_outgoing net own r' now conf ep in
        rw made (
          after_handshake_exclusive later slice ep
            (record s { dialer = (Dialer.dial now s.dialer ep).0 }) o' o'.error)
    | inr soon ↦ rw soon (inl refl)
  ]
