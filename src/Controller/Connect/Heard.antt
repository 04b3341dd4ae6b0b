-- ===== src/Controller/Connect/Heard.antt =====
-- What a node makes of a handshake that another one sends to it.
use factom_p2p.Prelude.{
  ℕ, ◌≡◌, ◌≢◌, ◌∙◌, not, ◌&&◌, none, some, [], str_eq_iff, str_eq_refl, ◌==◌, arith, if◌then◌else◌,
}
use factom_p2p.Net.{IpParser}
use factom_p2p.Configuration.{Configuration}
use factom_p2p.Handshake.{Handshake, valid}
use factom_p2p.Handshake.Checks.{IsAcceptable, valid_iff}
use factom_p2p.Parcel.{type_handshake, type_reject_alternative}
use factom_p2p.Protocol.V9.Handshakes.{wire_type}
use factom_p2p.Protocol.V11.{v11_signature}
use factom_p2p.Controller.Admission.Negotiation.{
  ProtocolVersion, v9, v10, v11, Detected, detected, fall_back, detect_protocol, detect_gob,
  detect_v11,
}
use factom_p2p.Controller.Connect.Wire.{Line, wire, Fits, gob_message, wire-v9, wire-v10, wire-v11}

abbrev pub number : ProtocolVersion → ℕ
number v9 = 9
number v10 = 10
number v11 = 11

-- The version that a dialling node and a listening one settle on.
abbrev pub settle : ℕ → ℕ → ProtocolVersion
settle dialler listener =
    if dialler == 11 then v11 else if dialler == 10 && not (listener == 9) then v10 else v9

-- What a node makes of a handshake that is sent to it with a protocol.
abbrev pub heard : Configuration → Handshake → ProtocolVersion → Detected
heard conf hs v9 = detected v9 (record hs { type = wire_type hs; version = 9 })
heard conf hs v10 =
    if conf.protocol_version == 9 then detected v9 (record hs { version = 9 }) else detected v10 hs
heard conf hs v11 = detected v11 hs

pub not_reject : type_handshake ≢ type_reject_alternative
not_reject = λ e. ground arith

module _ (line : Line) where
  module _ (net : IpParser) (conf : Configuration) (hs : Handshake)
      (a : IsAcceptable net hs conf) where
    accepted : (t : ℕ) → valid net (record hs { type = t }) conf ≡ none
    unfolding valid
    accepted t = (valid_iff net (record hs { type = t }) conf).1 (record {
      version = a.version;
      network = a.network;
      port = a.port;
      alternatives = a.alternatives;
    })

    detect_gob-heard :
        (t : ℕ)
        → detect_protocol net conf (gob_message line (record hs { type = t }))
          ≡ detect_gob net conf (some (record hs { type = t }))
    unfolding detect_protocol
    detect_gob-heard t =
        ground (arith, str_eq_iff line.gob_signature v11_signature, line.gob_signature-ne)

    detect_gob-v9 :
        (t : ℕ)
        → hs.version ≡ 9
        → detect_gob net conf (some (record hs { type = t }))
          ≡ detected v9 (record hs { type = t; version = 9 })
    unfolding detect_gob fall_back
    detect_gob-v9 t e = let ok = accepted t in ground (arith, ok, a.version, e)

    detect_gob-v10 : hs.version ≡ 10 → detect_gob net conf (some hs) ≡ heard conf hs v10
    unfolding detect_gob fall_back
    detect_gob-v10 e = let ok = accepted hs.type in ground (arith, ok, a.version, e)

    -- A handshake of the version that its protocol has is detected as what it is.
    pub detect_protocol-wire :
        (v : ProtocolVersion)
        → Fits line hs
        → hs.alternatives ≡ []
        → hs.type ≢ type_reject_alternative
        → hs.version ≡ number v
        → detect_protocol net conf (wire line v hs) ≡ heard conf hs v
    detect_protocol-wire v9 f n t e =
        rw (wire-v9 line hs f n t)
          (detect_gob-heard (wire_type hs) ∙ detect_gob-v9 (wire_type hs) e)
    detect_protocol-wire v10 f n t e =
        rw (wire-v10 line hs f n t) (detect_gob-heard hs.type ∙ detect_gob-v10 e)
    detect_protocol-wire v11 f n t e =
        let ok = accepted hs.type in
        rw (wire-v11 line hs f)
          (unfold detect_protocol detect_v11 in ground (arith, ok, str_eq_refl v11_signature))
