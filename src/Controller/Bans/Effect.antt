-- ===== src/Controller/Bans/Effect.antt =====
-- What a ban changes.
use factom_p2p.Prelude.{
  ℕ, ◌+◌, ◌≤◌, ◌<◌, ◌≡◌, ◌≢◌, refl, true, false, ◌||◌, some, List, [], ◌∷◌, lookup, insert,
  lookup-insert, str_eq, str_eq_iff, string_eq, All, arith, max, length, count_if, if◌then◌else◌,
}
use factom_p2p.Net.{GoString}
use factom_p2p.Endpoint.{to_string}
use factom_p2p.PeerStore.{Peer}
use factom_p2p.Controller.Bans.{
  Bans, ban_end, is_banned_endpoint, is_banned_ip, later_end, stops_of, ban,
}

module _ (now duration : ℕ) (peer : Peer) (slice : List Peer) (bans : Bans) where
  abbrev after : Bans
  after = (ban now duration (some peer) slice bans).0

  -- The end of the peer's ban is the later one of the new end and of the end that its IP had; both
  -- the IP and the "ip:port" get it, and no other address is touched.
  pub ban_end-ban :
      (addr : GoString)
      → ban_end (ban now duration (some peer) slice bans).0 addr ≡ (
          if str_eq (to_string peer.endpoint) addr || str_eq peer.endpoint.ip addr
          then max (now + duration) (ban_end bans peer.endpoint.ip)
          else ban_end bans addr)
  unfolding ban ban_end later_end
  ban_end-ban addr = ground (
    arith,
    lookup-insert peer.endpoint.ip addr (later_end (lookup peer.endpoint.ip bans) (now + duration))
        bans,
    lookup-insert (to_string peer.endpoint) addr
        (later_end (lookup peer.endpoint.ip bans) (now + duration))
        (insert peer.endpoint.ip (later_end (lookup peer.endpoint.ip bans) (now + duration)) bans),
    str_eq_iff peer.endpoint.ip addr,
    str_eq_iff (to_string peer.endpoint) addr,
  )

  -- A ban never lifts one of an IP: an IP other than the spelling "ip:port" of the peer that is
  -- banned at a time before the ban is banned then after it, and the peer's IP is banned until
  -- the end of the new ban at least.
  pub ban-is_banned_ip :
      (t : ℕ) (ip : GoString)
      → ip ≢ to_string peer.endpoint
      → (is_banned_ip t bans ip ≡ true
          → is_banned_ip t (ban now duration (some peer) slice bans).0 ip ≡ true)
        × (t < now + duration
            → is_banned_ip t (ban now duration (some peer) slice bans).0 peer.endpoint.ip ≡ true)
  unfolding is_banned_ip
  ban-is_banned_ip t ip ne = (
    λ h. ground (
      arith,
      ban_end-ban ip,
      str_eq_iff (to_string peer.endpoint) ip,
      str_eq_iff peer.endpoint.ip ip,
    ),
    λ h. ground (arith, ban_end-ban peer.endpoint.ip, str_eq_iff peer.endpoint.ip peer.endpoint.ip),
  )

  -- A ban can shorten one of the endpoint itself: where only the "ip:port" has a ban that ends
  -- later than the new one, the endpoint is free again once the new one is over.
  pub ban_shortens :
      (t : ℕ)
      → ban_end bans peer.endpoint.ip ≤ now + duration
      → now + duration ≤ t
      → t < ban_end bans (to_string peer.endpoint)
      → (is_banned_endpoint t bans peer.endpoint ≡ true)
        × (is_banned_endpoint t (ban now duration (some peer) slice bans).0 peer.endpoint ≡ false)
  unfolding is_banned_endpoint
  ban_shortens t a b c = (
    ground arith,
    ground (
      arith,
      ban_end-ban peer.endpoint.ip,
      ban_end-ban (to_string peer.endpoint),
      str_eq_iff peer.endpoint.ip peer.endpoint.ip,
      str_eq_iff (to_string peer.endpoint) (to_string peer.endpoint),
    ),
  )

stops_of-peer :
    (peer : Peer) (slice : List Peer)
    → All (λ q. q ≡ peer) (stops_of peer slice)
      × (length (stops_of peer slice)
          ≡ count_if (λ (p : Peer). str_eq p.endpoint.ip peer.endpoint.ip) slice)
unfolding stops_of
stops_of-peer peer [] = (tt, refl)
stops_of-peer peer (p ∷ ps) = ground (arith, stops_of-peer peer ps)

-- However many peers there are from the banned address, Stop is called on the peer of the hash
-- alone, once for each of them: the others stay connected.
pub ban-stops :
    (now duration : ℕ) (peer : Peer) (slice : List Peer) (bans : Bans)
    → All (λ q. q ≡ peer) (ban now duration (some peer) slice bans).1
      × (length (ban now duration (some peer) slice bans).1
          ≡ count_if (λ (p : Peer). str_eq p.endpoint.ip peer.endpoint.ip) slice)
unfolding ban
ban-stops now duration peer slice bans = stops_of-peer peer slice
