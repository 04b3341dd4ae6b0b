-- ===== src/Controller/Selection/Share.antt =====
-- The lists of endpoints that peers are given and give.
use mathlib.Core.List.Perm
use mathlib.Core.List.{append_assoc, append-nil}
use factom_p2p.Prelude.{
  ℕ, zero, suc, ◌+◌, ◌-◌, ◌<◌, ◌≡◌, ◌∙◌, refl, sym, ap, Bool, false, not, none, some, List, [], ◌∷◌,
  ◌++◌, Perm, length, take, drop, select, count_if, leb, arith, min, length-append, length-take,
  length-select, count_if-perm, select-perm, take-append-drop, All, any_of, Bool-cases, inl, inr,
  if◌then◌else◌,
}
use factom_p2p.Endpoint.{Endpoint, equal}
use factom_p2p.Controller.Selection.{
  Shuffle, share_loop, make_peer_share, process_loop, process_peer_share,
}

abbrev others : Endpoint → List Endpoint → List Endpoint
others exclude = select (λ ep. not (equal exclude ep))

take-nil : (n : ℕ) → take {A = Endpoint} n [] ≡ []
take-nil zero = refl
take-nil (suc n) = refl

take-All : (P : Endpoint → Type 0) (n : ℕ) (eps : List Endpoint) → All P eps → All P (take n eps)
take-All P zero eps h = tt
take-All P (suc n) [] h = tt
take-All P (suc n) (ep ∷ eps) h = (h.0, take-All P n eps h.1)

share_loop_lem :
    (exclude : Endpoint) (amount : ℕ) (eps list : List Endpoint)
    → length list < amount
    → share_loop exclude amount eps list ≡ list ++ take (amount - length list) (others exclude eps)
unfolding share_loop
share_loop_lem exclude amount [] list h =
    sym (ap (◌++◌ list) (take-nil (amount - length list)) ∙ append-nil list)
share_loop_lem exclude amount (ep ∷ eps) list h = elim (Bool-cases (equal exclude ep)) [
  | inl same ↦ rw same (share_loop_lem exclude amount eps list h)
  | inr other ↦
      let longer : length (list ++ ep ∷ []) ≡ length list + 1 = length-append list (ep ∷ []) in
      elim (Bool-cases (leb amount (length (list ++ ep ∷ [])))) [
        | inl full ↦
            let one : amount - length list ≡ 1 = ground (arith, longer) in
            rw (other, full, one) refl
        | inr short ↦
            let next : amount - length list ≡ suc (amount - length (list ++ ep ∷ [])) =
              ground (arith, longer) in
            rw (other, short, next)
              (share_loop_lem exclude amount eps (list ++ ep ∷ []) (ground arith)
                ∙ append_assoc list (ep ∷ []) _)
      ]
]

make_peer_share_lem :
    (sh : Shuffle Endpoint) (amount : ℕ) (exclude : Endpoint) (eps : List Endpoint)
    → 0 < amount
    → make_peer_share sh amount exclude eps ≡ take amount (others exclude (sh.shuffle eps))
unfolding make_peer_share
make_peer_share_lem sh amount exclude eps h =
    let e : amount - 0 ≡ amount = omega arith in
    rw e at (share_loop_lem exclude amount (sh.shuffle eps) [] h)

others-All :
    (exclude : Endpoint) (eps : List Endpoint)
    → All (λ ep. equal exclude ep ≡ false) (others exclude eps)
others-All exclude [] = tt
others-All exclude (ep ∷ eps) = ground (arith, others-All exclude eps)

-- With an amount above 0, a node shares the endpoints of its peers, each as often as it has a
-- peer there, leaving out the endpoint of the one who asks, and as many as the amount allows.
pub make_peer_share-perm :
    (sh : Shuffle Endpoint) (amount : ℕ) (exclude : Endpoint) (eps : List Endpoint)
    → 0 < amount
    → let share = make_peer_share sh amount exclude eps in
      ((rest : List Endpoint) × Perm (share ++ rest) eps)
      × All (λ ep. equal exclude ep ≡ false) share
      × (length share ≡ min amount (count_if (λ ep. not (equal exclude ep)) eps))
make_peer_share-perm sh amount exclude eps h =
    let kept = others exclude (sh.shuffle eps) in
    rw (make_peer_share_lem sh amount exclude eps h) (
      (
        drop amount kept ++ select (λ ep. not (not (equal exclude ep))) (sh.shuffle eps),
        rw (← append_assoc (take amount kept) (drop amount kept) _, take-append-drop amount kept)
            (Perm.trans (select-perm (λ ep. not (equal exclude ep)) (sh.shuffle eps))
              (sh.permutes eps)),
      ),
      take-All _ amount kept (others-All exclude (sh.shuffle eps)),
      omega (
        arith,
        length-take amount kept,
        length-select (λ ep. not (equal exclude ep)) (sh.shuffle eps),
        count_if-perm (λ ep. not (equal exclude ep)) (sh.shuffle eps) eps (sh.permutes eps),
      ),
    )

process_loop_lem :
    (is_valid is_banned : Endpoint → Bool) (eps : List Endpoint)
    → process_loop is_valid is_banned eps ≡ (
        if any_of (λ ep. not (is_valid ep)) eps
        then none
        else some (select (λ ep. not (is_banned ep)) eps))
unfolding process_loop
process_loop_lem is_valid is_banned [] = refl
process_loop_lem is_valid is_banned (ep ∷ eps) =
    ground (arith, process_loop_lem is_valid is_banned eps)

-- Of a received share a node takes the endpoints that it has not banned, in order, if all of them
-- are valid, and none of them if one is not.
pub process_peer_share_lem :
    (is_valid is_banned : Endpoint → Bool) (eps : List Endpoint)
    → process_peer_share is_valid is_banned (some eps)
      ≡ (if any_of (λ ep. not (is_valid ep)) eps then [] else select (λ ep. not (is_banned ep)) eps)
unfolding process_peer_share
process_peer_share_lem is_valid is_banned eps =
    ground (arith, process_loop_lem is_valid is_banned eps)
