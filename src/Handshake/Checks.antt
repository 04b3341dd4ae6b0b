-- ===== src/Handshake/Checks.antt =====
-- What Valid accepts.
use factom_p2p.Prelude.{
  ℕ, ◌≤◌, ◌≡◌, ◌↔◌, refl, true, false, Option, none, some, List, [], ◌∷◌, All, arith,
}
use factom_p2p.Prelude.Int.{ℤ}
use factom_p2p.Net.{IpParser, atoi}
use factom_p2p.Endpoint.{Endpoint, out_of_range}
use factom_p2p.Endpoint as Endpoint
use factom_p2p.Endpoint.Parse.{HasPort}
use factom_p2p.Configuration.{Configuration, check}
use factom_p2p.Handshake.{Handshake, port_out_of_range, valid, check_tail, all_valid, new_handshake}

module _ (net : IpParser) where
  valid_list→All :
      (eps : List Endpoint)
      → all_valid net eps ≡ true
      → All (λ ep. Endpoint.valid net ep ≡ true) eps
  unfolding all_valid
  valid_list→All [] h = tt
  valid_list→All (ep ∷ eps) h = (ground arith, valid_list→All eps (ground arith))

  All→all_valid :
      (eps : List Endpoint)
      → All (λ ep. Endpoint.valid net ep ≡ true) eps
      → all_valid net eps ≡ true
  unfolding all_valid
  All→all_valid [] h = refl
  All→all_valid (ep ∷ eps) h = ground (arith, All→all_valid eps h.1, h.0)

  check_tail-none :
      (port : Option ℤ) (eps : List Endpoint)
      → check_tail net port eps ≡ none
      → ((p : ℤ) × (port ≡ some p) × (out_of_range p ≡ false)) × (all_valid net eps ≡ true)
  unfolding check_tail
  check_tail-none none eps h = cc
  check_tail-none (some p) eps h = ((p, refl, ground arith), ground arith)

  pub record IsAcceptable (h : Handshake) (conf : Configuration) : Type 0 where
    pub version : conf.protocol_version_minimum ≤ h.version
    pub network : h.network ≡ conf.network
    pub port : HasPort h.listen_port
    pub alternatives : All (λ ep. Endpoint.valid net ep ≡ true) h.alternatives

  IsAcceptable→valid :
      (h : Handshake) (conf : Configuration) → IsAcceptable h conf → valid net h conf ≡ none
  unfolding valid
  IsAcceptable→valid h conf a =
      let (p, read, range) = a.port in
      ground (arith, a.version, a.network, read, range, All→all_valid h.alternatives a.alternatives)

  valid→tail :
      (h : Handshake) (conf : Configuration)
      → valid net h conf ≡ none
      → (conf.protocol_version_minimum ≤ h.version)
        × (h.network ≡ conf.network)
        × (check_tail net (atoi h.listen_port) h.alternatives ≡ none)
  unfolding valid
  valid→tail h conf e = ground arith

  valid→IsAcceptable :
      (h : Handshake) (conf : Configuration) → valid net h conf ≡ none → IsAcceptable h conf
  valid→IsAcceptable h conf e =
      let (v, n, t) = valid→tail h conf e in
      let (port, alts) = check_tail-none (atoi h.listen_port) h.alternatives t in
      record {
        version = v;
        network = n;
        port = port;
        alternatives = valid_list→All h.alternatives alts;
      }

  -- A handshake is valid exactly if its version is not below the minimum, its network is the
  -- configured one, its port reads as a number from 1 to 65535, and each alternative is valid.
  pub valid_iff :
      (h : Handshake) (conf : Configuration) → (valid net h conf ≡ none) ↔ IsAcceptable h conf
  valid_iff h conf = (valid→IsAcceptable h conf, IsAcceptable→valid h conf)

  -- A configuration that passes Check and whose port is out of range gives a handshake that a
  -- node of the same network refuses, whatever minimum it has that the version meets.
  pub new_handshake_port :
      (conf other : Configuration) (loopback : ℕ) (p : ℤ)
      → check net conf ≡ none
      → atoi conf.listen_port ≡ some p
      → out_of_range p ≡ true
      → other.network ≡ conf.network
      → other.protocol_version_minimum ≤ conf.protocol_version
      → valid net (new_handshake conf loopback) other ≡ some port_out_of_range
  unfolding valid new_handshake
  new_handshake_port conf other loopback p c a r n m = ground arith
