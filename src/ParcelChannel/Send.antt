-- ===== src/ParcelChannel/Send.antt =====
-- One send.
use factom_p2p.Prelude.{
  ℕ, suc, ◌-◌, ◌/◌, ◌≤◌, ◌<◌, ◌≡◌, refl, ap, true, List, [], ◌∷◌, ◌++◌, arith, length, drop,
  length-drop, ltb, if◌then◌else◌, Bool-cases, inl, inr,
}
use native.Mathlib.Nat.{zero-sub}
use factom_p2p.ParcelChannel.{Channel, drain, send}

module _ {ℓ} {A : Type ℓ} where
  pub drain-drop :
      (limit : ℕ) (xs : List A)
      → ((drain limit xs).0 ≡ drop (length xs - limit) xs)
        × ((drain limit xs).1 ≡ length xs - limit)
  unfolding drain
  drain-drop limit [] = (rw zero-sub, omega arith)
  drain-drop limit (x ∷ xs) = elim (Bool-cases (ltb limit (suc (length xs)))) [
    | inl more ↦
        let e : suc (length xs) - limit ≡ suc (length xs - limit) = ground arith in
        rw (more, e) ((drain-drop limit xs).0, ap suc (drain-drop limit xs).1)
    | inr fits ↦ let e : suc (length xs) - limit ≡ 0 = ground arith in rw (fits, e) (refl, refl)
  ]

  -- On a channel with room for a parcel at all, and no more in it than its capacity, a send puts
  -- the new parcel last, drops the `d` oldest and no other, and succeeds: `d` is 0 while there is
  -- room, and leaves half of the capacity otherwise. The capacity is kept.
  pub send_lem :
      (c : Channel A) (parcel : A)
      → 0 < c.capacity
      → length c.queue ≤ c.capacity
      → let d = if ltb (length c.queue) c.capacity then 0 else c.capacity - c.capacity / 2 in
        send c parcel
        ≡ (record { capacity = c.capacity; queue = drop d c.queue ++ parcel ∷ [] }, true, d)
  unfolding send
  send_lem c parcel h l = elim (Bool-cases (ltb (length c.queue) c.capacity)) [
    | inl room ↦ rw (room, send) refl
    | inr full ↦
        let filled : length c.queue ≡ c.capacity = ground arith in
        let (left, gone) = drain-drop (c.capacity / 2) c.queue in
        ground (arith, left, gone, length-drop (length c.queue - c.capacity / 2) c.queue)
  ]
