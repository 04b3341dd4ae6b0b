-- ===== src/Controller/Selection.antt =====
-- The choice of peers in controller_routing.go and controller_cat.go. A peer stands with what the
-- choice reads of it. Shuffles and the iteration in the order of rng.Perm are a function that
-- permutes a list; rng.Intn(n) is a number below n.
pub mod Broadcast
pub mod Share
mod Tests
use factom_p2p.Prelude.{
  ℕ, zero, suc, ◌+◌, ◌%◌, ◌≤◌, Bool, true, false, not, Option, none, some, List, [], ◌∷◌, ◌++◌, map,
  Perm, length, take, select, leb, ltb, ◌==◌, get_elem?, if◌then◌else◌,
}
use factom_p2p.Endpoint.{Endpoint, equal}

-- A source of randomness that orders a list.
pub record Shuffle {ℓ} (A : Type ℓ) : Type ℓ where
  pub shuffle : List A → List A
  pub permutes : (xs : List A) → Perm (shuffle xs) xs

module _ {A : Type 0} where
  -- peers[rng.Intn(len(peers))] with the number that was drawn, nil where there are none
  unfoldable pub pick : ℕ → List A → Option A
  pick drawn peers = get_elem? peers drawn

  -- randomPeerConditional; randomPeer is the case of no condition.
  unfoldable pub random_peer_conditional : (A → Bool) → ℕ → List A → Option A
  unfolding pick
  random_peer_conditional condition drawn peers = pick drawn (select condition peers)

  -- selectNoResendPeers: the peers whose cache has not the hash
  unfoldable pub select_no_resend_peers : (A → Bool) → List A → List A
  select_no_resend_peers has_hash all = select (λ p. not (has_hash p)) all

  module _ (sh : Shuffle A) where
    unfoldable pub select_broadcast_peers : (A → Bool) → List A → ℕ → List A
    select_broadcast_peers is_special peers fanout =
        let special = select is_special peers in
        let regular = select (λ p. not (is_special p)) peers in
        if leb (length peers) fanout
        then peers
        else if ltb (length regular) fanout
        then special ++ regular
        else special ++ take fanout (sh.shuffle regular)

    -- shuffleTrimShare
    unfoldable pub shuffle_trim_share : ℕ → List A → List A
    shuffle_trim_share amount list =
        if length list == 0
        then []
        else let shuffled = sh.shuffle list in
          if ltb amount (length shuffled) then take amount shuffled else shuffled

-- The loop of makePeerShare over the peers in random order, `list` being what it has so far.
unfoldable pub share_loop : Endpoint → ℕ → List Endpoint → List Endpoint → List Endpoint
share_loop exclude amount [] list = list
share_loop exclude amount (ep ∷ eps) list =
    let skipped = share_loop exclude amount eps list in
    let list' = list ++ ep ∷ [] in
    let more = share_loop exclude amount eps list' in
    if equal exclude ep then skipped else if leb amount (length list') then list' else more

unfoldable pub make_peer_share : Shuffle Endpoint → ℕ → Endpoint → List Endpoint → List Endpoint
unfolding share_loop
make_peer_share sh amount exclude endpoints = share_loop exclude amount (sh.shuffle endpoints) []

-- processPeerShare of the list that the protocol parsed: nil as soon as one endpoint is not
-- valid, the ones that are not banned otherwise. `none` is an error of the protocol.
unfoldable pub process_loop :
    (Endpoint → Bool) → (Endpoint → Bool) → List Endpoint → Option (List Endpoint)
process_loop is_valid is_banned [] = some []
process_loop is_valid is_banned (ep ∷ eps) =
    let rest : Option (List Endpoint) = elim (process_loop is_valid is_banned eps) [
      | none ↦ none
      | some res ↦ some (if is_banned ep then res else ep ∷ res)
    ] in
    if is_valid ep then rest else none

abbrev or_nil : Option (List Endpoint) → List Endpoint
or_nil none = []
or_nil (some res) = res

unfoldable pub process_peer_share :
    (Endpoint → Bool) → (Endpoint → Bool) → Option (List Endpoint) → List Endpoint
unfolding process_loop
process_peer_share is_valid is_banned none = []
process_peer_share is_valid is_banned (some list) = or_nil (process_loop is_valid is_banned list)
