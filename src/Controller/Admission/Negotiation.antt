-- ===== src/Controller/Admission/Negotiation.antt =====
-- selectProtocol and detectProtocolFromFirstMessage of controller_connections.go. The first four
-- bytes tell version 11 from gob; reading a handshake is a function of the version's, and so is
-- the list of errors that it can give.
use factom_p2p.Prelude.{
  ℕ, ◌≡◌, ◌↔◌, ◌⊎◌, ◌≢◌, refl, ◌&&◌, Option, none, some, List, ltb, ◌==◌, str_eq, str_eq_iff, arith,
  if◌then◌else◌, Option-cases, Bool-cases, inl, inr,
}
use factom_p2p.Net.{IpParser}
use factom_p2p.Configuration.{Configuration}
use factom_p2p.Handshake.{Handshake, valid}
use factom_p2p.Handshake.Checks.{IsAcceptable, valid_iff}
use factom_p2p.Protocol.V11.{v11_signature}

pub data ProtocolVersion : Type 0 where
  v9 v10 v11 : ProtocolVersion

unfoldable pub select_protocol : Configuration → ProtocolVersion
select_protocol conf =
    if conf.protocol_version == 11 then v11 else if conf.protocol_version == 10 then v10 else v9

pub data DetectError : Type 0 where
  peek_failed read_failed invalid_handshake below_minimum unsupported : DetectError

pub data Detected : Type 0 where
  detected : ProtocolVersion → Handshake → Detected
  failed : DetectError → Detected

-- What the first message reads as: the first four bytes, `none` if there are fewer, and the
-- handshake that each decoder would read, `none` for its error.
pub record FirstMessage : Type 0 where
  pub signature : Option (List ℕ)
  pub as_v11 : Option Handshake
  pub as_gob : Option Handshake

-- `hs.Version == 10 && conf.ProtocolVersion == 9` falls back to version 9.
unfoldable pub fall_back : Configuration → Handshake → Handshake
fall_back conf hs = record hs {
  version = if (hs.version == 10) && (conf.protocol_version == 9) then 9 else hs.version;
}

abbrev by_version : Handshake → Detected
by_version hs =
    if hs.version == 9
    then detected v9 hs
    else if hs.version == 10
    then detected v10 hs
    else failed unsupported

module _ (net : IpParser) (conf : Configuration) where
  unfoldable pub detect_v11 : Option Handshake → Detected
  detect_v11 none = failed read_failed
  detect_v11 (some hs) = elim (valid net hs conf) [
    | some e ↦ failed invalid_handshake
    | none ↦ detected v11 hs
  ]

  unfoldable pub detect_gob : Option Handshake → Detected
  unfolding fall_back
  detect_gob none = failed read_failed
  detect_gob (some hs) = elim (valid net hs conf) [
    | some e ↦ failed invalid_handshake
    | none ↦
        if ltb hs.version conf.protocol_version_minimum
        then failed below_minimum
        else by_version (fall_back conf hs)
  ]

  unfoldable pub detect_protocol : FirstMessage → Detected
  unfolding detect_v11 detect_gob
  detect_protocol m = elim m.signature [
    | none ↦ failed peek_failed
    | some sig ↦ if str_eq sig v11_signature then detect_v11 m.as_v11 else detect_gob m.as_gob
  ]

  -- The handshake that an accepted protocol goes with.
  abbrev pub Agreed : FirstMessage → ProtocolVersion → Handshake → Type 0
  Agreed m v9 hs =
      (h : Handshake) × (m.as_gob ≡ some h)
      × IsAcceptable net h conf
      × (hs ≡ record h { version = 9 })
      × ((h.version ≡ 9) ⊎ ((h.version ≡ 10) × (conf.protocol_version ≡ 9)))
  Agreed m v10 hs =
      (m.as_gob ≡ some hs)
      × IsAcceptable net hs conf
      × (hs.version ≡ 10)
      × (conf.protocol_version ≢ 9)
  Agreed m v11 hs = (m.as_v11 ≡ some hs) × IsAcceptable net hs conf

  pub detect_v11-detected :
      (o : Option Handshake) (v : ProtocolVersion) (hs : Handshake)
      → detect_v11 o ≡ detected v hs
      → (v ≡ v11) × (o ≡ some hs) × IsAcceptable net hs conf
  unfolding detect_v11
  detect_v11-detected none v hs h = cc
  detect_v11-detected (some h) v hs e =
      let ok : valid net h conf ≡ none = ground arith in
      let same : h ≡ hs = ground arith in
      (ground arith, ground arith, rw (← same) ((valid_iff net h conf).0 ok))

  pub detect_gob-detected :
      (o : Option Handshake) (v : ProtocolVersion) (hs : Handshake)
      → detect_gob o ≡ detected v hs
      → (h : Handshake) × (o ≡ some h)
        × IsAcceptable net h conf
        × (by_version (fall_back conf h) ≡ detected v hs)
  unfolding detect_gob
  detect_gob-detected none v hs e = cc
  detect_gob-detected (some h) v hs e =
      let ok : valid net h conf ≡ none = ground arith in
      (h, refl, (valid_iff net h conf).0 ok, ground arith)

  gob-Agreed :
      (m : FirstMessage) (h : Handshake) (v : ProtocolVersion) (hs : Handshake)
      → m.as_gob ≡ some h
      → IsAcceptable net h conf
      → by_version (fall_back conf h) ≡ detected v hs
      → Agreed m v hs
  unfolding fall_back
  gob-Agreed m h v9 hs o a e = (h, o, a, ground arith, ground arith)
  gob-Agreed m h v10 hs o a e =
      let same : h ≡ hs = ground arith in (ground arith, rw (← same) a, ground arith, ground arith)
  gob-Agreed m h v11 hs o a e = ground arith

  not_v11 : (h : Handshake) {hs : Handshake} → by_version (fall_back conf h) ≡ detected v11 hs → ⊥
  unfolding fall_back
  not_v11 h e = ground arith

  pub signature_cases :
      (m : FirstMessage) (v : ProtocolVersion) (hs : Handshake)
      → detect_protocol m ≡ detected v hs
      → ((m.signature ≡ some v11_signature) × (detect_v11 m.as_v11 ≡ detected v hs))
        ⊎ ((m.signature ≢ some v11_signature) × (detect_gob m.as_gob ≡ detected v hs))
  unfolding detect_protocol
  signature_cases m v hs e = elim (Option-cases m.signature) [
    | inl n ↦ cc (rw (n, detect_protocol) at e)
    | inr (sig, s) ↦ elim (Bool-cases (str_eq sig v11_signature)) [
      | inl yes11 ↦
          inl (ground (arith, str_eq_iff sig v11_signature), rw (s, detect_protocol, yes11) at e)
      | inr no11 ↦
          inr (
            (λ f. ground (arith, str_eq_iff sig v11_signature)),
            rw (s, detect_protocol, no11) at e,
          )
    ]
  ]

  -- A protocol is only settled with an acceptable handshake: version 11 with the one behind its
  -- signature, and without that signature version 10 with one of version 10, where the node's
  -- own version is not 9, and version 9 with one of version 9, or with one of version 10 that is
  -- taken as of version 9 since the node's own version is 9.
  pub detect_protocol-Agreed :
      (m : FirstMessage) (v : ProtocolVersion) (hs : Handshake)
      → detect_protocol m ≡ detected v hs
      → ((m.signature ≡ some v11_signature) ↔ (v ≡ v11)) × Agreed m v hs
  detect_protocol-Agreed m v hs e = elim (signature_cases m v hs e) [
    | inl (s, d) ↦
        let (is11, o, a) = detect_v11-detected m.as_v11 v hs d in
        ((λ _. is11, λ _. s), rw is11 (o, a))
    | inr (s, d) ↦
        let (h, o, a, b) = detect_gob-detected m.as_gob v hs d in
        (((λ t. absurd (s t)), (λ t. absurd (not_v11 h (rw t at b)))), gob-Agreed m h v hs o a b)
  ]
