-- ===== src/Net/HostPort.antt =====
-- net.SplitHostPort against the format "host:port".
use factom_p2p.Prelude.{ℕ, ◌≡◌, refl, true, false, none, some, [], ◌∷◌, ◌++◌, arith}
use factom_p2p.Net.{GoString, has_byte, split_last, host_port, split_host_port}

-- A text without the byte is not split.
pub split_last-has_byte : (c : ℕ) (s : GoString) → has_byte c s ≡ false → split_last c s ≡ none
unfolding split_last
split_last-has_byte c [] h = refl
split_last-has_byte c (x ∷ xs) h = ground (arith, split_last-has_byte c xs)

pub split_last-append :
    (c : ℕ) (s t : GoString) → has_byte c t ≡ false → split_last c (s ++ c ∷ t) ≡ some (s, t)
unfolding split_last
split_last-append c [] t h = rw (split_last-has_byte c t h, split_last) (ground arith)
split_last-append c (x ∷ xs) t h = rw (split_last-append c xs t h, split_last) refl

-- No `:`, `[` or `]`.
abbrev pub IsPlain : GoString → Type 0
IsPlain s = (has_byte b':' s ≡ false) × (has_byte b'[' s ≡ false) × (has_byte b']' s ≡ false)

host_port-IsPlain :
    (host port : GoString) → IsPlain host → IsPlain port → host_port host port ≡ some (host, port)
unfolding host_port
host_port-IsPlain [] port h k = ground arith
host_port-IsPlain (c ∷ cs) port h k = ground arith

-- A plain host and a plain port joined by a colon split into the two.
pub split_host_port-append :
    (host port : GoString)
    → IsPlain host
    → IsPlain port
    → split_host_port (host ++ b':' ∷ port) ≡ some (host, port)
unfolding split_host_port
split_host_port-append host port h k =
    rw (split_last-append b':' host port k.0, split_host_port) (host_port-IsPlain host port h k)

host_port-colon :
    (host port : GoString)
    → has_byte b':' host ≡ true
    → has_byte b'[' host ≡ false
    → host_port host port ≡ none
unfolding host_port
host_port-colon [] port h k = ground arith
host_port-colon (c ∷ cs) port h k = ground arith

-- A host with a colon of its own and no brackets is refused.
pub split_host_port-colon :
    (host port : GoString)
    → has_byte b':' host ≡ true
    → has_byte b'[' host ≡ false
    → has_byte b':' port ≡ false
    → split_host_port (host ++ b':' ∷ port) ≡ none
unfolding split_host_port
split_host_port-colon host port h b k =
    rw (split_last-append b':' host port k, split_host_port) (host_port-colon host port h b)
