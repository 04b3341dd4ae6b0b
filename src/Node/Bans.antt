-- ===== src/Node/Bans.antt =====
-- That a banned IP stays out of the store until its ban ends.
use factom_p2p.Prelude.{
  ℕ, ◌+◌, ◌≤◌, ◌<◌, ◌≡◌, refl, true, false, Option, none, some, List, [], ◌∷◌, ◌++◌, lookup, insert,
  lookup-insert, str_eq, str_eq_iff, string_eq, ltb, arith, Bool-cases, inl, inr,
}
use factom_p2p.Net.{GoString, has_byte}
use factom_p2p.Endpoint.{Endpoint, to_string}
use factom_p2p.PeerStore.{Peer}
use factom_p2p.Controller.Bans.{Bans, ban, later_end}
use factom_p2p.Controller.Bans.Cache.{drop_expired}

-- The IP is banned until `until`, or longer.
abbrev pub HoldsBan : GoString → ℕ → Bans → Type 0
HoldsBan ip until bans = (e : ℕ) × (lookup ip bans ≡ some e) × (until ≤ e)

-- No colon, which an IP of version 4 and a host name do not have.
abbrev pub IsColonless : GoString → Type 0
IsColonless ip = has_byte b':' ip ≡ false

to_string-has_byte : (a b : GoString) → has_byte b':' (a ++ b':' ∷ b) ≡ true
to_string-has_byte [] b = ground arith
to_string-has_byte (c ∷ a) b = ground (arith, to_string-has_byte a b)

-- No "ip:port" is the IP.
pub to_string-ne :
    (ip : GoString) (ep : Endpoint) → IsColonless ip → str_eq (to_string ep) ip ≡ false
unfolding to_string
to_string-ne ip ep h =
    ground (arith, to_string-has_byte ep.ip ep.port, str_eq_iff (to_string ep) ip)

module _ (ip : GoString) (plain : IsColonless ip) (until : ℕ) where
  pub insert_endpoint-HoldsBan :
      (ep : Endpoint) (end : ℕ) (bans : Bans)
      → HoldsBan ip until bans
      → HoldsBan ip until (insert (to_string ep) end bans)
  insert_endpoint-HoldsBan ep end bans (e, found, h) =
      (e, ground (arith, lookup-insert (to_string ep) ip end bans, to_string-ne ip ep plain), h)

  later_end-le : (o : Option ℕ) (e end : ℕ) → o ≡ some e → e ≤ later_end o end
  unfolding later_end
  later_end-le none e end h = cc
  later_end-le (some x) e end h = ground arith

  pub ban-HoldsBan :
      (now duration : ℕ) (found : Option Peer) (slice : List Peer) (bans : Bans)
      → HoldsBan ip until bans
      → HoldsBan ip until (ban now duration found slice bans).0
  unfolding ban
  ban-HoldsBan now duration none slice bans h = h
  ban-HoldsBan now duration (some peer) slice bans (e, found, h) =
      let end = later_end (lookup peer.endpoint.ip bans) (now + duration) in
      insert_endpoint-HoldsBan peer.endpoint end (insert peer.endpoint.ip end bans)
        (elim (Bool-cases (str_eq peer.endpoint.ip ip)) [
          | inl same ↦
              let i : peer.endpoint.ip ≡ ip = (str_eq_iff peer.endpoint.ip ip).0 same in
              (
                end,
                ground (arith, lookup-insert peer.endpoint.ip ip end bans),
                ground (
                  arith,
                  i,
                  h,
                  later_end-le (lookup peer.endpoint.ip bans) e (now + duration) (rw i found),
                ),
              )
          | inr other ↦ (e, ground (arith, lookup-insert peer.endpoint.ip ip end bans), h)
        ])

  pub drop_expired-HoldsBan :
      (now : ℕ) (bans : Bans)
      → now < until
      → HoldsBan ip until bans
      → HoldsBan ip until (drop_expired now bans)
  unfolding drop_expired lookup
  drop_expired-HoldsBan now [] early (e, found, h) = cc
  drop_expired-HoldsBan now ((addr, end) ∷ bans) early (e, found, h) =
      elim (Bool-cases (str_eq addr ip)) [
        | inl same ↦
            let first : some end ≡ some e = rw same at found in
            let i : end ≡ e = cc in
            let kept : ltb end now ≡ false = ground (arith, i, h, early) in
            rw (kept, same) (end, refl, omega (arith, i, h))
        | inr other ↦
            let later : lookup ip bans ≡ some e = rw other at found in
            let rest = drop_expired-HoldsBan now bans early (e, later, h) in
            elim (Bool-cases (ltb end now)) [
              | inl over ↦ rw over rest
              | inr kept ↦ rw (kept, other) rest
            ]
      ]
