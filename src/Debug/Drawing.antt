-- ===== src/Debug/Drawing.antt =====
-- That a drawing is made for any peers.
use mathlib.Core.List.{append_assoc, append-nil}
use factom_p2p.Prelude.{
  ℕ, zero, suc, ◌^◌, ◌<◌, ◌≡◌, refl, sym, ap, ◌∙◌, false, Option, none, some, List, [], ◌∷◌, ◌++◌,
  ◌==◌, ltb, ◌||◌, All, arith, Bool-cases, inl, inr, if◌then◌else◌,
}
use factom_p2p.Net.{GoString, has_byte}
use factom_p2p.Endpoint.{to_string}
use factom_p2p.PeerStore.{Peer}
use factom_p2p.PeerHash.{peer_hash}
use factom_p2p.Debug.{id, id_from_hash, color, styled, edge_of, line_of, drawn, draw}
use factom_p2p.Debug.Ids.{byte_swapped, id_from_hash-peer_hash}

styled-color : (n : ℕ) → n < 4 → (n == 0) ≡ false → (e : GoString) × (styled (color n) ≡ some e)
styled-color zero h k = absurd (ground arith)
styled-color (suc zero) h k = (_, refl)
styled-color (suc (suc zero)) h k = (_, refl)
styled-color (suc (suc (suc zero))) h k = (_, refl)
styled-color (suc (suc (suc (suc n)))) h k = absurd (omega (arith, h))

-- The index of a color is never out of range.
edge_of-some : (a b : ℕ) → (e : GoString) × (edge_of a b ≡ some e)
unfolding edge_of
edge_of-some a b =
    let least = if ltb b a then b else a in
    elim (Bool-cases (ltb a 4 || ltb b 4)) [
      | inr far ↦ rw far ([], refl)
      | inl near ↦ elim (Bool-cases (least == 0)) [
        | inl none_of ↦ rw (near, none_of) ([], refl)
        | inr one ↦
            let small : least < 4 = ground (arith, near) in
            rw (near, one) (styled-color least small one)
      ]
    ]

abbrev or_plain : Option GoString → GoString
or_plain none = []
or_plain (some e) = e

-- The lines of peers with the ids in their hashes.
unfoldable pub lines : ℕ → GoString → List (Peer × ℕ) → GoString
lines node_id own [] = []
lines node_id own ((p, i) ∷ ps) =
    line_of own p (or_plain (edge_of node_id (byte_swapped i))) ++ lines node_id own ps

abbrev pub peers_of : List (Peer × ℕ) → List Peer
peers_of [] = []
peers_of ((p, i) ∷ ps) = p ∷ peers_of ps

-- The hash is newPeer's for a node id of 32 bits, and the "ip:port" has no space.
abbrev pub IsHashed : Peer × ℕ → Type 0
IsHashed (p, i) =
    (p.hash ≡ peer_hash p.endpoint i)
    × (i < 2 ^ 32)
    × (has_byte b' ' (to_string p.endpoint) ≡ false)

-- Peers with the hashes that newPeer makes of node ids of 32 bits and of an "ip:port" without a
-- space are all drawn, without a panic, one line each and in order; but the id by which an edge is
-- colored is that of the peer's node with its bytes swapped.
pub draw-lines :
    (node_id : ℕ) (own text : GoString) (ps : List (Peer × ℕ))
    → All IsHashed ps
    → draw node_id own text (peers_of ps) ≡ drawn (text ++ lines node_id own ps)
unfolding draw lines
draw-lines node_id own text [] h = ap drawn (sym (append-nil text))
draw-lines node_id own text ((p, i) ∷ ps) (hashed, h) =
    let read : id_from_hash p.hash ≡ id (byte_swapped i) =
      rw hashed.0 (id_from_hash-peer_hash p.endpoint i hashed.2 hashed.1) in
    let (edge, e) = edge_of-some node_id (byte_swapped i) in
    let line = line_of own p edge in
    rw (read, draw, e)
      (draw-lines node_id own (text ++ line) ps h
        ∙ ap drawn (append_assoc text line (lines node_id own ps)))
