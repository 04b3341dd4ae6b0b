-- ===== src/Seed/Page.antt =====
-- Which endpoints the page of a seed lists.
use mathlib.Core.List.{append-nil, append_assoc}
use factom_p2p.Prelude.{
  ◌≡◌, refl, sym, ◌∙◌, ◌⊎◌, inl, inr, true, Bool-cases, Option, none, some, List, [], ◌∷◌, ◌++◌,
  arith,
}
use factom_p2p.Net.{GoString, IpParser, is_empty, split_host_port}
use factom_p2p.Endpoint.{Endpoint, valid, new_endpoint}
use factom_p2p.Endpoint.Special.{trim_space}
use factom_p2p.Seed.{Response, scan, web_scanner, read_line, read_parts}

-- The endpoints of one response.
unfoldable pub endpoints_of : IpParser → Option Response → List Endpoint
unfolding web_scanner
endpoints_of net resp = (web_scanner (read_line net) resp []).0

module _ (net : IpParser) where
  -- The line without its white space splits into the host and the port of a valid endpoint.
  abbrev pub Reads : GoString → Endpoint → Type 0
  Reads line ep =
      (split_host_port (trim_space line) ≡ some (ep.ip, ep.port)) × (valid net ep ≡ true)

  -- One endpoint for every line that reads as one, in the order of the lines; the others are
  -- passed over.
  abbrev pub Contents : List GoString → List Endpoint → Type 0
  Contents [] [] = Unit {0}
  Contents [] (ep ∷ eps) = ⊥
  Contents (line ∷ lines) eps =
      (((ep : Endpoint) → Reads line ep → ⊥) × Contents lines eps)
      ⊎ ((ep : Endpoint) × (rest : List Endpoint) × (eps ≡ ep ∷ rest)
          × Reads line ep
          × Contents lines rest)

  -- What a line does to any list of endpoints.
  Line : GoString → Type 0
  Line line =
      (((ep : Endpoint) → Reads line ep → ⊥)
        × ((eps : List Endpoint) → read_line net line eps ≡ eps))
      ⊎ ((ep : Endpoint) × Reads line ep
          × ((eps : List Endpoint) → read_line net line eps ≡ eps ++ ep ∷ []))

  split_host_port-empty : (s : GoString) → is_empty s ≡ true → split_host_port s ≡ none
  unfolding split_host_port
  split_host_port-empty [] h = refl
  split_host_port-empty (c ∷ cs) h = ground (arith, h)

  some-none : {p : GoString × GoString} → some p ≡ none → ⊥
  some-none h = cc

  Splitting : Option (GoString × GoString) → Type 0
  Splitting o =
      (((ep : Endpoint) → (o ≡ some (ep.ip, ep.port)) × (valid net ep ≡ true) → ⊥)
        × ((eps : List Endpoint) → read_parts net o eps ≡ eps))
      ⊎ ((ep : Endpoint) × ((o ≡ some (ep.ip, ep.port)) × (valid net ep ≡ true))
          × ((eps : List Endpoint) → read_parts net o eps ≡ eps ++ ep ∷ []))

  read_parts-Splitting : (o : Option (GoString × GoString)) → Splitting o
  unfolding read_parts new_endpoint Splitting
  read_parts-Splitting none = inl ((λ ep h. cc), (λ eps. refl))
  read_parts-Splitting (some (host, port)) =
      let ep : Endpoint = record { ip = host; port = port } in
      elim (Bool-cases (valid net ep)) [
        | inl h ↦ inr (ep, (refl, h), (λ eps. rw h refl))
        | inr h ↦ inl ((λ e k. ground (arith, h, k)), (λ eps. rw h refl))
      ]

  read_line-Line : (line : GoString) → Line line
  unfolding read_line Line Splitting
  read_line-Line line = elim (Bool-cases (is_empty (trim_space line))) [
    | inl h ↦ inl (
      (λ e k. absurd (some-none (sym k.0 ∙ split_host_port-empty (trim_space line) h))),
      (λ eps. rw h refl),
    )
    | inr h ↦ rw h (read_parts-Splitting (split_host_port (trim_space line)))
  ]

  scan-Contents :
      (lines : List GoString) (acc : List Endpoint)
      → (eps : List Endpoint) × (scan (read_line net) lines acc ≡ acc ++ eps) × Contents lines eps
  unfolding scan Line
  scan-Contents [] acc = ([], sym (append-nil acc), tt)
  scan-Contents (line ∷ lines) acc = elim (read_line-Line line) [
    | inl (no_endpoint, kept) ↦
        let (eps, e, h) = scan-Contents lines acc in (eps, rw (kept acc) e, inl (no_endpoint, h))
    | inr (ep, reads, appended) ↦
        let (eps, e, h) = scan-Contents lines (acc ++ ep ∷ []) in
        (
          ep ∷ eps,
          rw (appended acc) (e ∙ append_assoc acc (ep ∷ []) eps),
          inr (ep, eps, refl, reads, h),
        )
  ]

  -- Of a page that is served with status 200 the endpoints are read line by line: every line that
  -- splits, without its white space, into the host and the port of a valid endpoint gives that one,
  -- in the order of the lines, and empty lines and all others are passed over.
  pub endpoints_of-Contents :
      (lines : List GoString)
      → Contents lines (endpoints_of net (some (record { status_code = 200; lines = lines })))
  unfolding endpoints_of web_scanner
  endpoints_of-Contents lines = let (eps, e, h) = scan-Contents lines [] in rw e h
