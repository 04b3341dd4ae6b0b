-- ===== src/Endpoint/Parse.antt =====
-- ParseEndpoint against String.
use factom_p2p.Prelude.{
  ℕ, ◌≡◌, ◌≢◌, ◌⊎◌, refl, ◌∙◌, ◌≤◌, true, false, none, some, arith, ◌↔◌, Option, Option-cases, inl,
  inr, [], ◌∷◌, length,
}
use factom_p2p.Prelude.Int.{ℤ, pos, negsuc}
use factom_p2p.Net.{GoString, IpParser, atoi, has_byte, is_empty, split_host_port}
use factom_p2p.Net.HostPort.{IsPlain, split_host_port-append, split_host_port-colon}
use factom_p2p.Endpoint.{
  Endpoint, to_string, valid, new_endpoint, check_port, parse_endpoint, out_of_range,
  match_hostname, port_refused,
}

-- The port reads as a number of 1 to 65535.
abbrev pub HasPort : GoString → Type 0
HasPort port = (p : ℤ) × (atoi port ≡ some p) × (out_of_range p ≡ false)

-- The port is a number from 1 to 65535.
abbrev pub HasPortNumber : GoString → Type 0
HasPortNumber port = (n : ℕ) × (atoi port ≡ some (pos n)) × (1 ≤ n) × (n ≤ 65535)

module _ (net : IpParser) where
  check_port-valid :
      (ep : Endpoint)
      → HasPort ep.port
      → check_port net (atoi ep.port) ep.ip ep.port ≡ new_endpoint net ep.ip ep.port
  unfolding check_port
  check_port-valid ep (p, read, range) = ground arith

  new_endpoint-valid :
      (ep : Endpoint) → valid net ep ≡ true → new_endpoint net ep.ip ep.port ≡ some ep
  unfolding new_endpoint
  new_endpoint-valid ep h = ground arith

  -- ParseEndpoint reads back what String writes, for a valid endpoint with a port in range
  -- and neither colons nor brackets in its two parts.
  pub parse_endpoint-to_string :
      (ep : Endpoint)
      → IsPlain ep.ip
      → IsPlain ep.port
      → HasPort ep.port
      → valid net ep ≡ true
      → parse_endpoint net (to_string ep) ≡ some ep
  unfolding parse_endpoint to_string
  parse_endpoint-to_string ep i p r v =
      rw (split_host_port-append ep.ip ep.port i p, parse_endpoint)
        (check_port-valid ep r ∙ new_endpoint-valid ep v)

  check_port-some :
      (o : Option ℤ) (ip port : GoString) (ep : Endpoint)
      → check_port net o ip port ≡ some ep
      → ((p : ℤ) × (o ≡ some p) × (out_of_range p ≡ false))
        × (ep ≡ record { ip = ip; port = port })
        × (valid net ep ≡ true)
  unfolding check_port new_endpoint
  check_port-some none ip port ep h = cc
  check_port-some (some p) ip port ep h = ((p, refl, ground arith), ground arith, ground arith)

  parse_endpoint-some :
      (s : GoString) (ep : Endpoint)
      → parse_endpoint net s ≡ some ep
      → (split_host_port s ≡ some (ep.ip, ep.port)) × HasPort ep.port × (valid net ep ≡ true)
  unfolding parse_endpoint
  parse_endpoint-some s ep h = elim (Option-cases (split_host_port s)) [
    | inl e ↦ cc (rw (e, parse_endpoint) at h)
    | inr ((ip, port), e) ↦
        let (read, same, v) =
          check_port-some (atoi port) ip port ep (rw (e, parse_endpoint) at h) in
        (ground arith, rw same read, v)
  ]

  -- An IP, or a host name, of 1 to 253 bytes.
  abbrev pub IsHost : GoString → Type 0
  IsHost ip =
      (ip ≢ []) × (length ip ≤ 253) × ((net.parse_ip ip ≢ none) ⊎ (match_hostname ip ≡ true))

  number : (port : GoString) → HasPort port → HasPortNumber port
  number port (pos n, read, range) = (n, read, ground (arith, range), ground (arith, range))
  number port (negsuc n, read, range) = cc

  in_range : (port : GoString) → HasPortNumber port → HasPort port
  in_range port (n, read, low, high) = (pos n, read, ground (arith, low, high))

  host : (ep : Endpoint) → valid net ep ≡ true → IsHost ep.ip
  unfolding valid
  host ep h = (λ e. ground (arith, h, e), ground (arith, h), named)
    where
      named : (net.parse_ip ep.ip ≢ none) ⊎ (match_hostname ep.ip ≡ true)
      named = elim (Option-cases (net.parse_ip ep.ip)) [
        | inl e ↦ inr (ground (arith, h, e))
        | inr (a, e) ↦ inl (λ k. cc (k, e))
      ]

  atoi-nil : {p : ℤ} → atoi [] ≡ some p → ⊥
  unfolding atoi
  atoi-nil h = cc

  named_valid : (ep : Endpoint) → HasPortNumber ep.port → IsHost ep.ip → valid net ep ≡ true
  unfolding valid
  named_valid ep (n, read, low, high) (full, short, named) =
      let port : ep.port ≢ [] = λ e. atoi-nil (rw e at read) in
      elim (Option-cases (net.parse_ip ep.ip)) [
        | inl e ↦ ground (arith, read, low, full, short, named, e, port)
        | inr (a, e) ↦ ground (arith, read, low, full, short, e, port)
      ]

  parse_endpoint-valid_iff :
      (s : GoString) (ep : Endpoint)
      → (parse_endpoint net s ≡ some ep)
        ↔ ((split_host_port s ≡ some (ep.ip, ep.port)) × HasPort ep.port × (valid net ep ≡ true))
  unfolding parse_endpoint
  parse_endpoint-valid_iff s ep = (
    parse_endpoint-some s ep,
    λ h. rw (h.0, parse_endpoint) (check_port-valid ep h.1 ∙ new_endpoint-valid ep h.2),
  )

  -- ParseEndpoint returns an endpoint exactly if net.SplitHostPort splits the text into its two
  -- parts, the port reads as a number from 1 to 65535, and the host has 1 to 253 bytes and is an
  -- IP address or matches the expression for host names.
  pub parse_endpoint_iff :
      (s : GoString) (ep : Endpoint)
      → (parse_endpoint net s ≡ some ep)
        ↔ ((split_host_port s ≡ some (ep.ip, ep.port)) × HasPortNumber ep.port × IsHost ep.ip)
  parse_endpoint_iff s ep =
      let (to, from) = parse_endpoint-valid_iff s ep in
      (
        λ h. let (split, port, v) = to h in (split, number ep.port port, host ep v),
        λ h.
            let (split, port, named) = h in
            from (split, in_range ep.port port, named_valid ep port named),
      )

  -- An address with colons and no brackets, such as that of an IPv6 endpoint, is not read back:
  -- String puts no brackets round it, and ParseEndpoint refuses what it writes.
  pub parse_endpoint-to_string_colon :
      (ep : Endpoint)
      → has_byte b':' ep.ip ≡ true
      → has_byte b'[' ep.ip ≡ false
      → has_byte b':' ep.port ≡ false
      → parse_endpoint net (to_string ep) ≡ none
  unfolding parse_endpoint to_string
  parse_endpoint-to_string_colon ep c b p =
      rw (split_host_port-colon ep.ip ep.port c b p, parse_endpoint) refl

  -- NewEndpoint takes a host name with any port that reads as a number other than 0, in the range
  -- of ports or not.
  pub new_endpoint_any_port :
      (ip port : GoString) (p : ℤ)
      → is_empty ip ≡ false
      → length ip ≤ 253
      → match_hostname ip ≡ true
      → atoi port ≡ some p
      → port_refused (some p) ≡ false
      → new_endpoint net ip port ≡ some (record { ip = ip; port = port })
  new_endpoint_any_port ip [] p e l m a r = absurd (atoi-nil a)
  new_endpoint_any_port ip (c ∷ cs) p e l m a r = unfold new_endpoint valid in ground arith
