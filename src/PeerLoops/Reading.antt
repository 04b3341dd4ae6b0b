-- ===== src/PeerLoops/Reading.antt =====
-- What readLoop delivers.
use mathlib.Core.List.{append_assoc, append-nil}
use factom_p2p.Prelude.{
  ◌≡◌, ◌∙◌, refl, sym, Bool, true, false, Option, none, some, List, [], ◌∷◌, ◌++◌, Bool-cases, inl,
  inr, if◌then◌else◌,
}
use factom_p2p.Net.{GoString}
use factom_p2p.Parcel.{Parcel, ParcelError, valid, is_application_message}
use factom_p2p.PeerLoops.{PeerState, read, read_checked, read_loop, remember, deliver, stop}

abbrev unless_error : Option ParcelError → Parcel → List Parcel → List Parcel
unless_error none parcel rest = parcel ∷ rest
unless_error (some e) parcel rest = []

-- The specification: the valid parcels up to the first error, with the peer's hash for address.
unfoldable pub accepted : GoString → List (Bool × Option Parcel) → List Parcel
accepted hash [] = []
accepted hash ((wins, none) ∷ rs) = []
accepted hash ((wins, some msg) ∷ rs) =
    unless_error (valid (some msg)) (record msg { address = hash }) (accepted hash rs)

module _ (p : PeerState) (msg : Parcel) where
  remember-kept :
      ((remember p msg).stopped ≡ p.stopped)
      × ((remember p msg).hash ≡ p.hash)
      × ((remember p msg).delivered ≡ p.delivered)
  unfolding remember
  remember-kept = elim (Bool-cases p.resend_filter) [
    | inl on ↦ elim (Bool-cases (is_application_message msg)) [
      | inl app ↦ rw (on, app) (refl, refl, refl)
      | inr other ↦ rw (on, other) (refl, refl, refl)
    ]
    | inr off ↦ rw off (refl, refl, refl)
  ]

  -- The state after a valid parcel of a peer that is not stopped.
  abbrev after : PeerState
  after = record (remember p msg) {
    delivered = (remember p msg).delivered ++ record msg { address = p.hash } ∷ [];
  }

  read-valid : (wins : Bool) → p.stopped ≡ false → read_checked wins p msg none ≡ (after, true)
  unfolding read_checked deliver
  read-valid wins s =
      let t : (remember p msg).stopped ≡ false = remember-kept.0 ∙ s in rw (deliver, t) refl

  next :
      (rs : List (Bool × Option Parcel)) (wins : Bool) (e : Option ParcelError)
      → p.stopped ≡ false
      → ((read_loop after rs).delivered ≡ after.delivered ++ accepted after.hash rs)
      → (if (read_checked wins p msg e).1
          then read_loop (read_checked wins p msg e).0 rs
          else (read_checked wins p msg e).0).delivered
        ≡ p.delivered ++ unless_error e (record msg { address = p.hash }) (accepted p.hash rs)
  unfolding read_checked stop
  next rs wins (some e) s h = rw s (sym (append-nil p.delivered))
  next rs wins none s h = rw (read-valid wins s) (
      h
      ∙ rw (remember-kept.1, remember-kept.2)
          (append_assoc p.delivered (record msg { address = p.hash } ∷ []) (accepted p.hash rs)))

-- From a peer that is not stopped, the loop delivers exactly the valid parcels that it receives
-- up to the first error or invalid parcel, in order and with the peer's hash for address.
pub read_loop-accepted :
    (p : PeerState) (rs : List (Bool × Option Parcel))
    → p.stopped ≡ false
    → (read_loop p rs).delivered ≡ p.delivered ++ accepted p.hash rs
unfolding read_loop accepted read stop
read_loop-accepted p [] s = sym (append-nil p.delivered)
read_loop-accepted p ((wins, none) ∷ rs) s = rw s (sym (append-nil p.delivered))
read_loop-accepted p ((wins, some msg) ∷ rs) s =
    next p msg rs wins (valid (some msg)) s
      (read_loop-accepted (after p msg) rs ((remember-kept p msg).0 ∙ s))
