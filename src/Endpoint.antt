-- ===== src/Endpoint.antt =====
-- endpoint.go, and `parseSpecial` of util.go. Strings are lists of bytes; net.ParseIP is the
-- parameter `IpParser`, and the regular expression for hostnames is its matcher.
pub mod Parse
pub mod Special
mod Tests
use factom_p2p.Prelude.{
  ℕ, zero, suc, ◌+◌, ◌≡◌, Bool, true, false, ◌&&◌, ◌||◌, not, Option, none, some, List, [], ◌∷◌,
  ◌++◌, arith, leb, ltb, ◌==◌, length, Eq, str_eq, str_eq_iff, if◌then◌else◌, ◌↔◌,
}
use factom_p2p.Prelude.Int.{ℤ, pos, negsuc}
use factom_p2p.Net.{GoString, IpParser, is_digit, is_empty, atoi, split_host_port}

pub record Endpoint : Type 0 where
  pub ip : GoString
  pub port : GoString

-- ep.IP == o.IP && ep.Port == o.Port
unfoldable pub equal : Endpoint → Endpoint → Bool
equal ep o = str_eq ep.ip o.ip && str_eq ep.port o.port

pub equal_iff : (a b : Endpoint) → (equal a b ≡ true) ↔ (a ≡ b)
unfolding equal
equal_iff a b = ground (arith, str_eq_iff a.ip b.ip, str_eq_iff a.port b.port)

instance abbrev pub endpoint_eq : Eq Endpoint
endpoint_eq = record { beq = equal; beq_iff = equal_iff }

-- fmt.Sprintf("%s:%s", ep.IP, ep.Port)
unfoldable pub to_string : Endpoint → GoString
to_string ep = ep.ip ++ b':' ∷ ep.port

unfoldable pub is_alphanumeric : ℕ → Bool
unfolding is_digit
is_alphanumeric c = is_digit c || (leb b'A' c && leb c b'Z' || leb b'a' c && leb c b'z')

-- The rest of a name behind `n` bytes of a label, `n` being 0 at a label's start: a label is a
-- letter or digit and at most 62 letters, digits and hyphens; a dot ends it.
unfoldable pub match_labels : ℕ → GoString → Bool
unfolding is_alphanumeric
match_labels n [] = ltb 0 n
match_labels n (c ∷ cs) =
    let ends = match_labels 0 cs in
    let goes_on = match_labels (suc n) cs in
    if c == b'.'
    then ltb 0 n && ends
    else if is_alphanumeric c || (c == b'-' && ltb 0 n)
    then ltb n 63 && goes_on
    else false

-- hostnameRegex.MatchString
unfoldable pub match_hostname : GoString → Bool
unfolding match_labels
match_hostname = match_labels 0

-- `p, err := strconv.Atoi(ep.Port); err != nil || p == 0`
abbrev pub port_refused : Option ℤ → Bool
port_refused none = true
port_refused (some (pos n)) = n == 0
port_refused (some (negsuc n)) = false

-- `p < 1 || p > 65535`
abbrev pub out_of_range : ℤ → Bool
out_of_range (pos n) = ltb n 1 || ltb 65535 n
out_of_range (negsuc n) = true

abbrev is_address : Option (List ℕ) → Bool
is_address none = false
is_address (some ip) = true

module _ (net : IpParser) where
  unfoldable pub valid : Endpoint → Bool
  valid ep =
      if is_empty ep.ip || (is_empty ep.port || ltb 253 (length ep.ip))
      then false
      else if port_refused (atoi ep.port)
      then false
      else if is_address (net.parse_ip ep.ip)
      then true
      else match_hostname ep.ip

  -- `none` is the error.
  unfoldable pub new_endpoint : GoString → GoString → Option Endpoint
  new_endpoint ip port =
      let ep : Endpoint = record { ip = ip; port = port } in if valid ep then some ep else none

  -- `p, err := strconv.Atoi(port)`, the test of the range, and NewEndpoint
  check_port : Option ℤ → GoString → GoString → Option Endpoint
  check_port none ip port = none
  check_port (some p) ip port = if out_of_range p then none else new_endpoint ip port

  unfoldable pub parse_endpoint : GoString → Option Endpoint
  unfolding check_port
  parse_endpoint s = elim (split_host_port s) [
    | none ↦ none
    | some (ip, port) ↦ check_port (atoi port) ip port
  ]
