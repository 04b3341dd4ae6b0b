-- ===== src/Debug.antt =====
-- DebugHalfviz of debug.go: the text that draws a node's connections, and the ids that it reads off
-- the hashes of its peers.
pub mod Drawing
pub mod Ids
mod Tests
use factom_p2p.Prelude.{
  ℕ, zero, suc, ◌+◌, ◌*◌, ◌^◌, Bool, true, false, Option, none, some, List, [], ◌∷◌, ◌++◌, length,
  ◌==◌, ltb, ◌||◌, not, if◌then◌else◌,
}
use factom_p2p.Net.{GoString, bytes}
use factom_p2p.Endpoint.{Endpoint, to_string}
use factom_p2p.PeerStore.{Peer}
use factom_p2p.PeerHash.{digit_value}

-- strings.Split(s, " "), the part before the first space and the others.
unfoldable pub split : GoString → GoString × List GoString
split [] = ([], [])
split (c ∷ s) =
    let (first, others) = split s in if c == b' ' then ([], first ∷ others) else (c ∷ first, others)

-- hex.DecodeString, two digits to a byte.
unfoldable pub decode_hex : GoString → Option (List ℕ)
decode_hex [] = some []
decode_hex (c ∷ []) = none
decode_hex (c ∷ d ∷ s) = elim (digit_value c) [
  | none ↦ none
  | some high ↦ elim (digit_value d) [
    | none ↦ none
    | some low ↦ elim (decode_hex s) [ none ↦ none | some bs ↦ some ((high * 16 + low) ∷ bs) ]
  ]
]

-- binary.LittleEndian.Uint32
unfoldable pub little_endian_uint32 : List ℕ → ℕ
little_endian_uint32 (a ∷ b ∷ c ∷ d ∷ bs) = a + b * 2 ^ 8 + c * 2 ^ 16 + d * 2 ^ 24
little_endian_uint32 _ = 0

-- What idFromHash returns: an id, or the code -1 or -2.
pub data HashId : Type 0 where
  id : ℕ → HashId
  no_parts no_digits : HashId

abbrev pub id_of_digits : Option (List ℕ) → HashId
id_of_digits none = no_digits
id_of_digits (some dec) = id (little_endian_uint32 dec)

abbrev pub id_of_parts : GoString × List GoString → HashId
id_of_parts (first, []) = no_parts
id_of_parts (first, part ∷ []) =
    if length part == 8 then id_of_digits (decode_hex part) else no_parts
id_of_parts (first, part ∷ other ∷ parts) = no_parts

unfoldable pub id_from_hash : GoString → HashId
unfolding split decode_hex little_endian_uint32
id_from_hash s = id_of_parts (split s)

-- `[]string{"red", "green", "blue"}[min-1]`, none being the panic
abbrev pub color : ℕ → Option GoString
color (suc zero) = some (bytes "red")
color (suc (suc zero)) = some (bytes "green")
color (suc (suc (suc zero))) = some (bytes "blue")
color _ = none

abbrev pub styled : Option GoString → Option GoString
styled none = none
styled (some c) = some (bytes " {color:" ++ (c ++ bytes ", weight=3}"))

-- The style of an edge, from the node's own id and that of the peer.
unfoldable pub edge_of : ℕ → ℕ → Option GoString
edge_of node_id peer_id =
    let least = if ltb peer_id node_id then peer_id else node_id in
    if ltb node_id 4 || ltb peer_id 4
    then if least == 0 then some [] else styled (color least)
    else some []

-- The line of a peer; `own` is "BindIP:ListenPort".
unfoldable pub line_of : GoString → Peer → GoString → GoString
line_of own p edge =
    if p.is_incoming
    then to_string p.endpoint ++ (bytes " -> " ++ (own ++ (edge ++ bytes "\n")))
    else own ++ (bytes " -> " ++ (to_string p.endpoint ++ (edge ++ bytes "\n")))

pub data Halfviz : Type 0 where
  drawn : GoString → Halfviz
  -- "unable to get id" of this hash, with the code
  unable : GoString → HashId → Halfviz
  panics : Halfviz

-- The loop over the peers, with what is drawn so far.
unfoldable pub draw : ℕ → GoString → GoString → List Peer → Halfviz
unfolding id_from_hash edge_of line_of
draw node_id own text [] = drawn text
draw node_id own text (p ∷ ps) = elim (id_from_hash p.hash) [
  | no_parts ↦ unable p.hash no_parts
  | no_digits ↦ unable p.hash no_digits
  | id n ↦ elim (edge_of node_id n) [
    | none ↦ panics
    | some edge ↦ draw node_id own (text ++ line_of own p edge) ps
  ]
]
