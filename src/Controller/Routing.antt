-- ===== src/Controller/Routing.antt =====
-- route of controller_routing.go: the peers that a parcel of the application is sent to, in the
-- order of the calls of Peer.Send (Peer.antt). The peers' caches are a test on a payload, which
-- is that of Has at the payload's SHA-1 at the time of the call.
pub mod Broadcast
mod Tests
use mathlib.Core.List.Perm
use mathlib.Core.List.{append_assoc, append-nil}
use factom_p2p.Prelude.{
  ℕ, zero, suc, ◌<◌, ◌≡◌, ◌∙◌, refl, Bool, true, false, not, ◌||◌, Option, none, some, List, [],
  ◌∷◌, ◌++◌, Perm, GoMap, lookup, values, get_elem?, length, select, count_if, str_eq, string_eq,
  select-perm, count_if-not-select, count_if-append, count_if-perm, arith, Bool-cases, Option-cases,
  inl, inr, if◌then◌else◌,
}
use factom_p2p.Net.{GoString, is_empty}
use factom_p2p.Parcel.{Parcel}
use factom_p2p.Configuration.{Configuration, broadcast, full_broadcast, random_peer_flag}
use factom_p2p.PeerStore.{Peer, PeerStore, slice, get}
use factom_p2p.PeerStore.Consistency.{IsConsistent, slice-perm}
use factom_p2p.Controller.Selection.{Shuffle, pick, select_no_resend_peers, select_broadcast_peers}
use factom_p2p.Controller.Selection.Broadcast.{broadcast-Reaches}

-- What the controller reads while it routes a parcel: the order in which a range over the peers'
-- map goes, rng.Shuffle, rng.Intn, isSpecial of a peer's endpoint, and the caches.
pub record Router : Type 0 where
  pub order : Shuffle Peer
  pub shuffler : Shuffle Peer
  pub drawn : ℕ → ℕ
  pub special : Peer → Bool
  pub has_payload : List ℕ → Peer → Bool

abbrev at_most_one : Option Peer → List Peer
at_most_one none = []
at_most_one (some p) = p ∷ []

-- The two branches for broadcasts start with this.
unfoldable pub selection : Configuration → Router → Parcel → List Peer → List Peer
selection conf r parcel peers =
    if conf.peer_resend_filter
    then select_no_resend_peers (r.has_payload parcel.payload) peers
    else peers

-- The store, whose slice may be made by the call, and the receivers.
unfoldable pub route : Configuration → Router → PeerStore → Parcel → PeerStore × List Peer
unfolding selection
route conf r ps parcel =
    let (ps', peers) = slice r.order.shuffle ps in
    if str_eq parcel.address full_broadcast
    then (ps', selection conf r parcel peers)
    else if str_eq parcel.address broadcast
    then (
      ps',
      select_broadcast_peers r.shuffler r.special (selection conf r parcel peers) conf.fanout,
    )
    else if is_empty parcel.address || str_eq parcel.address random_peer_flag
    then (ps', at_most_one (pick (r.drawn (length peers)) peers))
    else (ps, at_most_one (get ps parcel.address))

-- The first list is a part of the second, with multiplicities.
abbrev pub PartOf {ℓ} : {A : Type ℓ} → List A → List A → Type ℓ
PartOf {A = A} xs ys = (rest : List A) × Perm (xs ++ rest) ys

module _ {A : Type 0} where
  PartOf-cons : (x y : A) (xs : List A) → PartOf (x ∷ []) xs → PartOf (x ∷ []) (y ∷ xs)
  PartOf-cons x y xs (rest, p) = (y ∷ rest, Perm.trans (Perm.swap y x rest) (Perm.cons y p))

  PartOf-Perm : (xs ys zs : List A) → PartOf xs ys → Perm ys zs → PartOf xs zs
  PartOf-Perm xs ys zs (rest, p) q = (rest, Perm.trans p q)

  PartOf-trans : (xs ys zs : List A) → PartOf xs ys → PartOf ys zs → PartOf xs zs
  PartOf-trans xs ys zs (r, p) (s, q) =
      (r ++ s, rw (← append_assoc xs r s) (Perm.trans (Perm.append_right s p) q))

  get_elem?-PartOf : (xs : List A) (n : ℕ) (x : A) → get_elem? xs n ≡ some x → PartOf (x ∷ []) xs
  get_elem?-PartOf [] n x e = ground (arith, e)
  get_elem?-PartOf (y ∷ xs) zero x e =
      let same : x ≡ y = ground (arith, e) in (xs, rw same (Perm.refl _))
  get_elem?-PartOf (y ∷ xs) (suc n) x e = PartOf-cons x y xs (get_elem?-PartOf xs n x e)

  select-PartOf : (p : A → Bool) (xs : List A) → PartOf (select p xs) xs
  select-PartOf p xs = (select (λ x. not (p x)) xs, select-perm p xs)

lookup-PartOf :
    (k : GoString) (m : GoMap GoString Peer) (p : Peer)
    → lookup k m ≡ some p
    → PartOf (p ∷ []) (values m)
unfolding lookup values
lookup-PartOf k [] p e = ground (arith, e)
lookup-PartOf k ((j, q) ∷ m) p e = elim (Bool-cases (str_eq j k)) [
  | inl found ↦ let same : p ≡ q = ground arith in (values m, rw same (Perm.refl _))
  | inr other ↦ PartOf-cons p q (values m) (lookup-PartOf k m p (ground arith))
]

module _ (conf : Configuration) (r : Router) (parcel : Parcel) where
  selection-PartOf : (peers : List Peer) → PartOf (selection conf r parcel peers) peers
  unfolding selection select_no_resend_peers
  selection-PartOf peers = elim (Bool-cases conf.peer_resend_filter) [
    | inl on ↦ rw on (select-PartOf _ peers)
    | inr off ↦ rw off ([], rw (append-nil peers) (Perm.refl peers))
  ]

  picked-PartOf : (n : ℕ) (peers : List Peer) → PartOf (at_most_one (pick n peers)) peers
  unfolding pick
  picked-PartOf n peers = elim (Option-cases (get_elem? peers n)) [
    | inl e ↦ rw e (peers, Perm.refl peers)
    | inr (p, e) ↦ rw e (get_elem?-PartOf peers n p e)
  ]

  chosen-PartOf :
      (peers : List Peer)
      → PartOf (select_broadcast_peers r.shuffler r.special peers conf.fanout) peers
  chosen-PartOf peers =
      let reached = broadcast-Reaches r.shuffler r.special peers conf.fanout in
      (reached.0, reached.1.0)

  module _ (heap : ℕ → Peer) (ps : PeerStore) (v : IsConsistent heap ps) where
    abbrev sliced : List Peer
    sliced = (slice r.order.shuffle ps).1

    from_slice : (xs : List Peer) → PartOf xs sliced → PartOf xs (values ps.peers)
    from_slice xs h =
        PartOf-Perm xs sliced (values ps.peers) h
          (slice-perm heap ps v r.order.shuffle r.order.permutes)

    got-PartOf : PartOf (at_most_one (get ps parcel.address)) (values ps.peers)
    unfolding get
    got-PartOf = elim (Option-cases (lookup parcel.address ps.peers)) [
      | inl e ↦ rw e (values ps.peers, Perm.refl _)
      | inr (p, e) ↦ rw e (lookup-PartOf parcel.address ps.peers p e)
    ]

    -- Whatever its address, a parcel is sent to peers that are connected, and to none of them
    -- twice.
    pub route-PartOf : PartOf (route conf r ps parcel).1 (values ps.peers)
    unfolding route
    route-PartOf = elim (Bool-cases (str_eq parcel.address full_broadcast)) [
      | inl a ↦ rw a (from_slice _ (selection-PartOf sliced))
      | inr a ↦ elim (Bool-cases (str_eq parcel.address broadcast)) [
        | inl b ↦
            rw (a, b)
              (from_slice _ (
                PartOf-trans _ (selection conf r parcel sliced) sliced
                  (chosen-PartOf (selection conf r parcel sliced)) (selection-PartOf sliced)))
        | inr b ↦
            elim (Bool-cases (is_empty parcel.address || str_eq parcel.address random_peer_flag)) [
              | inl c ↦ rw (a, b, c) (from_slice _ (picked-PartOf (r.drawn (length sliced)) sliced))
              | inr c ↦ rw (a, b, c) got-PartOf
            ]
      ]
    ]
