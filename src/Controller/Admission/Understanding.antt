-- ===== src/Controller/Admission/Understanding.antt =====
-- Which first messages detectProtocolFromFirstMessage settles a protocol with.
use factom_p2p.Prelude.{
  ℕ, ◌≡◌, ◌≢◌, ◌↔◌, ◌⊎◌, refl, true, false, some, List, ltb, ◌==◌, str_eq, str_eq_iff, str_eq_refl,
  arith, Bool-cases, Option-cases, inl, inr,
}
use factom_p2p.Net.{IpParser}
use factom_p2p.Configuration.{Configuration}
use factom_p2p.Handshake.{Handshake}
use factom_p2p.Handshake.Checks.{IsAcceptable, valid_iff}
use factom_p2p.Protocol.V11.{v11_signature}
use factom_p2p.Controller.Admission.Negotiation.{
  ProtocolVersion, v9, v10, v11, detected, FirstMessage, fall_back, detect_v11, detect_gob,
  detect_protocol, signature_cases, detect_v11-detected, detect_gob-detected,
}

module _ (net : IpParser) (conf : Configuration) where
  -- An acceptable handshake behind the signature of version 11, or one of version 9 or 10 over gob.
  abbrev pub IsUnderstood : FirstMessage → Type 0
  IsUnderstood m =
      ((m.signature ≡ some v11_signature)
        × (hs : Handshake) × (m.as_v11 ≡ some hs)
        × IsAcceptable net hs conf)
      ⊎ ((sig : List ℕ) × (m.signature ≡ some sig)
          × (sig ≢ v11_signature)
          × (hs : Handshake) × (m.as_gob ≡ some hs)
          × IsAcceptable net hs conf
          × ((hs.version ≡ 9) ⊎ (hs.version ≡ 10)))

  abbrev pub Settles : FirstMessage → Type 0
  Settles m =
      (v : ProtocolVersion) × (hs : Handshake) × (detect_protocol net conf m ≡ detected v hs)

  Settles-v11 :
      (m : FirstMessage) (hs : Handshake)
      → m.signature ≡ some v11_signature
      → m.as_v11 ≡ some hs
      → IsAcceptable net hs conf
      → Settles m
  unfolding detect_protocol detect_v11
  Settles-v11 m hs s o a =
      let ok = (valid_iff net hs conf).1 a in
      (v11, hs, rw (s, detect_protocol, str_eq_refl v11_signature, o, ok, detect_v11) refl)

  fall_back_ten :
      (hs : Handshake)
      → (hs.version ≡ 9) ⊎ (hs.version ≡ 10)
      → ((fall_back conf hs).version == 9) ≡ false
      → ((fall_back conf hs).version == 10) ≡ true
  unfolding fall_back
  fall_back_ten hs v other = ground (arith, v, other)

  detect_gob-acceptable :
      (hs : Handshake)
      → IsAcceptable net hs conf
      → (hs.version ≡ 9) ⊎ (hs.version ≡ 10)
      → (v : ProtocolVersion) × (h : Handshake) × (detect_gob net conf (some hs) ≡ detected v h)
  unfolding detect_gob
  detect_gob-acceptable hs a v =
      let ok = (valid_iff net hs conf).1 a in
      let low : ltb hs.version conf.protocol_version_minimum ≡ false = ground (arith, a.version) in
      elim (Bool-cases ((fall_back conf hs).version == 9)) [
        | inl nine ↦ (v9, fall_back conf hs, rw (ok, detect_gob, low, nine) refl)
        | inr other ↦
            let ten : ((fall_back conf hs).version == 10) ≡ true = fall_back_ten hs v other in
            (v10, fall_back conf hs, rw (ok, detect_gob, low, other, ten) refl)
      ]

  Settles-gob :
      (m : FirstMessage) (sig : List ℕ) (hs : Handshake)
      → m.signature ≡ some sig
      → sig ≢ v11_signature
      → m.as_gob ≡ some hs
      → IsAcceptable net hs conf
      → (hs.version ≡ 9) ⊎ (hs.version ≡ 10)
      → Settles m
  unfolding detect_protocol
  Settles-gob m sig hs s n o a v =
      let other : str_eq sig v11_signature ≡ false = ground (arith, str_eq_iff sig v11_signature) in
      let (version, h, d) = detect_gob-acceptable hs a v in
      (version, h, rw (s, detect_protocol, other, o) d)

  version_of :
      (h : Handshake) (v : ProtocolVersion) (hs : Handshake)
      → detect_gob net conf (some h) ≡ detected v hs
      → (h.version ≡ 9) ⊎ (h.version ≡ 10)
  unfolding detect_gob fall_back
  version_of h v hs e = ground (arith, e)

  understood :
      (m : FirstMessage) (v : ProtocolVersion) (hs : Handshake)
      → detect_protocol net conf m ≡ detected v hs
      → IsUnderstood m
  unfolding detect_protocol
  understood m v hs e = elim (signature_cases net conf m v hs e) [
    | inl (s, d) ↦
        let (is11, o, a) = detect_v11-detected net conf m.as_v11 v hs d in inl (s, hs, o, a)
    | inr (s, d) ↦
        let (h, o, a, b) = detect_gob-detected net conf m.as_gob v hs d in
        elim (Option-cases m.signature) [
          | inl n ↦ cc (rw (n, detect_protocol) at e)
          | inr (sig, t) ↦
              inr (sig, t, (λ k. s (rw k at t)), h, o, a, version_of h v hs (rw o at d))
        ]
  ]

  pub IsUnderstood-iff : (m : FirstMessage) → Settles m ↔ IsUnderstood m
  IsUnderstood-iff m = (λ h. understood m h.0 h.1 h.2, back)
    where
      back : IsUnderstood m → Settles m
      back (inl (s, hs, o, a)) = Settles-v11 m hs s o a
      back (inr (sig, s, n, hs, o, a, v)) = Settles-gob m sig hs s n o a v
