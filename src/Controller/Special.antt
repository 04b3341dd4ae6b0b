-- ===== src/Controller/Special.antt =====
-- The special peers of controller.go.
use factom_p2p.Prelude.{
  ◌≡◌, refl, Bool, true, false, Option, none, some, List, [], ◌∷◌, GoMap, lookup, insert,
  lookup-insert, str_eq, str_eq_iff, string_eq, any_of, arith, ◌||◌, if◌then◌else◌, Option-cases,
  inl, inr,
}
use factom_p2p.Net.{GoString, IpParser, is_empty}
use factom_p2p.Endpoint.{Endpoint, to_string}
use factom_p2p.Endpoint.Special.{parse_special}

pub record Specials : Type 0 where
  pub special : GoMap GoString Bool
  pub special_endpoints : List Endpoint

abbrev or_false : Option Bool → Bool
or_false none = false
or_false (some b) = b

-- isSpecialIP, and isSpecial at the endpoint's text
unfoldable pub is_special_ip : Specials → GoString → Bool
is_special_ip s ip = or_false (lookup ip s.special)

unfoldable pub is_special : Specials → Endpoint → Bool
unfolding is_special_ip
is_special s ep = is_special_ip s (to_string ep)

unfoldable pub register : List Endpoint → GoMap GoString Bool → GoMap GoString Bool
register [] m = m
register (ep ∷ eps) m = register eps (insert ep.ip true (insert (to_string ep) true m))

-- An unparseable text changes nothing.
unfoldable pub set_special : IpParser → GoString → Specials → Specials
set_special net raw s =
    if is_empty raw
    then record { special = []; special_endpoints = [] }
    else (elim (parse_special net raw) [
      | none ↦ s
      | some eps ↦ record { special = register eps []; special_endpoints = eps }
    ])

-- Whether the text is the IP or the "ip:port" of one of the endpoints.
abbrev pub names : GoString → List Endpoint → Bool
names addr = any_of (λ ep. str_eq ep.ip addr || str_eq (to_string ep) addr)

lookup-register :
    (eps : List Endpoint) (m : GoMap GoString Bool) (addr : GoString)
    → or_false (lookup addr (register eps m)) ≡ (names addr eps || or_false (lookup addr m))
unfolding register
lookup-register [] m addr = refl
lookup-register (ep ∷ eps) m addr = ground (
  arith,
  lookup-register eps (insert ep.ip true (insert (to_string ep) true m)) addr,
  lookup-insert ep.ip addr true (insert (to_string ep) true m),
  lookup-insert (to_string ep) addr true m,
  str_eq_iff ep.ip addr,
  str_eq_iff (to_string ep) addr,
)

abbrev pub specials_after : GoString → Option (List Endpoint) → Specials → GoString → Bool
specials_after [] parsed s addr = false
specials_after (c ∷ cs) none s addr = is_special_ip s addr
specials_after (c ∷ cs) (some eps) s addr = names addr eps

-- After SetSpecial an address is special exactly if it is the IP or the "ip:port" of an endpoint
-- of the new list; no address is after the empty text, and a text that does not parse leaves
-- every address as it was.
pub is_special_ip-set_special :
    (net : IpParser) (raw : GoString) (s : Specials) (addr : GoString)
    → is_special_ip (set_special net raw s) addr ≡ specials_after raw (parse_special net raw) s addr
unfolding is_special_ip set_special lookup
is_special_ip-set_special net [] s addr = refl
is_special_ip-set_special net (c ∷ cs) s addr = elim (Option-cases (parse_special net (c ∷ cs))) [
  | inl e ↦ rw e refl
  | inr (eps, e) ↦ rw e (ground (arith, lookup-register eps [] addr))
]
