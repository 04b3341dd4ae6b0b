-- ===== src/ParcelChannel.antt =====
-- parcelChannel.go: a buffered channel of parcels whose send does not block. The channel is its
-- capacity and the queue of what it holds, oldest first; a receive takes the oldest. The two
-- `select` statements of Send and its loop run here without another sender between them.
pub mod Send
pub mod Stream
mod Tests
use factom_p2p.Prelude.{
  ℕ, zero, suc, ◌+◌, ◌/◌, Bool, true, false, Option, none, some, List, [], ◌∷◌, ◌++◌, length, ltb,
  if◌then◌else◌,
}

pub record Channel {ℓ} (A : Type ℓ) : Type ℓ where
  pub capacity : ℕ
  pub queue : List A

module _ {ℓ} {A : Type ℓ} where
  unfoldable pub new_channel : ℕ → Channel A
  new_channel capacity = record { capacity = capacity; queue = [] }

  -- `for len(pc) > cap(pc)/2 { <-pc; dropped++ }`: what is left, and how many were dropped
  unfoldable pub drain : ℕ → List A → List A × ℕ
  drain limit [] = ([], 0)
  drain limit (x ∷ xs) =
      let (rest, dropped) = drain limit xs in
      if ltb limit (length (x ∷ xs)) then (rest, suc dropped) else (x ∷ xs, 0)

  -- case pc <- parcel
  unfoldable pub offer : Channel A → A → Channel A × Bool
  offer c parcel =
      if ltb (length c.queue) c.capacity
      then (record c { queue = c.queue ++ parcel ∷ [] }, true)
      else (c, false)

  -- The channel, whether the parcel was taken, and how many old ones were dropped for it.
  unfoldable pub send : Channel A → A → Channel A × Bool × ℕ
  unfolding offer
  send c parcel =
      let (first, taken) = offer c parcel in
      let (rest, dropped) = drain (c.capacity / 2) c.queue in
      let (second, ok) = offer (record c { queue = rest }) parcel in
      if taken then (first, true, 0) else (second, ok, dropped)

  -- parcel := <-pc, on a channel that holds one
  unfoldable pub receive : Channel A → Option (A × Channel A)
  receive c = elim c.queue [ [] ↦ none | x ∷ xs ↦ some (x, record c { queue = xs }) ]
