-- ===== src/Net.antt =====
-- What the program uses of Go's packages strconv and net: `strconv.Atoi` and `net.SplitHostPort`
-- over strings as lists of bytes, and the results of `net.ParseIP` as a parameter.
pub mod HostPort
use Prim.Native.Char.{code}
use Prim.Native.String.{String}
use factom_p2p.Prelude.{
  ℕ, zero, suc, ◌+◌, ◌-◌, ◌*◌, ◌^◌, ◌≡◌, ◌⊎◌, Bool, true, false, ◌&&◌, ◌||◌, not, Option, none,
  some, List, [], ◌∷◌, ◌++◌, leb, ltb, ◌==◌, length, any_of, if◌then◌else◌,
}
use factom_p2p.Prelude.Int.{ℤ, pos, negsuc}

abbrev pub GoString : Type 0
GoString = List ℕ

abbrev pub has_byte : ℕ → GoString → Bool
has_byte c = any_of (λ x. x == c)

unfoldable pub is_digit : ℕ → Bool
is_digit c = leb b'0' c && leb c b'9'

unfoldable pub digits : ℕ → GoString → Option ℕ
unfolding is_digit
digits n [] = some n
digits n (c ∷ cs) = let rest = digits (n * 10 + (c - 48)) cs in if is_digit c then rest else none

-- An empty run of digits is a syntax error.
unfoldable pub magnitude : GoString → Option ℕ
unfolding digits
magnitude [] = none
magnitude (c ∷ cs) = digits 0 (c ∷ cs)

abbrev negate : ℕ → ℤ
negate zero = pos 0
negate (suc n) = negsuc n

abbrev positive_int64 : Option ℕ → Option ℤ
positive_int64 none = none
positive_int64 (some n) = if ltb n (2 ^ 63) then some (pos n) else none

abbrev negative_int64 : Option ℕ → Option ℤ
negative_int64 none = none
negative_int64 (some n) = if leb n (2 ^ 63) then some (negate n) else none

-- strconv.Atoi on a 64-bit platform: an optional sign, then decimal digits that fit an int64.
unfoldable pub atoi : GoString → Option ℤ
unfolding magnitude
atoi [] = none
atoi (c ∷ cs) =
    if c == b'-'
    then negative_int64 (magnitude cs)
    else if c == b'+'
    then positive_int64 (magnitude cs)
    else positive_int64 (magnitude (c ∷ cs))

-- The text before and after the last byte `c`.
unfoldable pub split_last : ℕ → GoString → Option (GoString × GoString)
split_last c [] = none
split_last c (x ∷ xs) = elim (split_last c xs) [
  | none ↦ if x == c then some ([], xs) else none
  | some (before, after) ↦ some (x ∷ before, after)
]

-- The text before and after the first byte `c`.
unfoldable pub split_first : ℕ → GoString → Option (GoString × GoString)
split_first c [] = none
split_first c (x ∷ xs) =
    let rest : Option (GoString × GoString) = elim (split_first c xs) [
      | none ↦ none
      | some (before, after) ↦ some (x ∷ before, after)
    ] in
    if x == c then some ([], xs) else rest

abbrev pub is_empty : GoString → Bool
is_empty [] = true
is_empty (x ∷ xs) = false

-- What is left of "[host]" behind its bracket: the first `]` has to be its last byte.
bracketed : Option (GoString × GoString) → GoString → Option (GoString × GoString)
bracketed none port = none
bracketed (some (host, behind)) port =
    if is_empty behind && not (has_byte b'[' host || (has_byte b'[' port || has_byte b']' port))
    then some (host, port)
    else none

bare : GoString → GoString → Option (GoString × GoString)
bare host port =
    if has_byte b':' host
      || (has_byte b'[' host || (has_byte b'[' port || (has_byte b']' host || has_byte b']' port)))
    then none
    else some (host, port)

-- The text before the last colon starts with a bracket, or is the host.
host_port : GoString → GoString → Option (GoString × GoString)
unfolding bare bracketed split_first
host_port [] port = bare [] port
host_port (c ∷ cs) port =
    if c == b'[' then bracketed (split_first b']' cs) port else bare (c ∷ cs) port

-- net.SplitHostPort; `none` is its error.
unfoldable pub split_host_port : GoString → Option (GoString × GoString)
unfolding split_last host_port
split_host_port s = elim (split_last b':' s) [
  | none ↦ none
  | some (before, port) ↦ host_port before port
]

-- net.ParseIP: `none` for nil, or the four or sixteen bytes of the address.
pub record IpParser : Type 0 where
  pub parse_ip : GoString → Option (List ℕ)
  pub parse_ip_length :
      (s : GoString) (ip : List ℕ) → parse_ip s ≡ some ip → (length ip ≡ 4) ⊎ (length ip ≡ 16)

-- The bytes of a text in ASCII.
abbrev pub bytes : String → GoString
bytes String.[] = []
bytes (String.◌∷◌ c s) = code c ∷ bytes s

pub no_addresses_length :
    (s : GoString) (ip : List ℕ)
    → ◌≡◌ {A = Option (List ℕ)} none (some ip)
    → (length ip ≡ 4) ⊎ (length ip ≡ 16)
no_addresses_length s ip h = cc

-- A parser that knows no address.
abbrev pub no_addresses : IpParser
no_addresses = record { parse_ip = λ s. none; parse_ip_length = no_addresses_length }
