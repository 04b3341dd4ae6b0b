-- ===== src/Network/Creation.antt =====
-- What NewNetwork makes of a configuration.
use factom_p2p.Prelude.{
  ◌≤◌, ◌<◌, ◌≡◌, ◌≢◌, refl, true, false, Option, none, some, List, [], ◌∷◌, inl, inr, arith,
  Bool-cases, Option-cases, ◌==◌, if◌then◌else◌,
}
use factom_p2p.Net.{GoString, IpParser}
use factom_p2p.NetworkId.{Sha256, string_to_uint32}
use factom_p2p.Configuration.{Configuration, ConfigError, check, sanitize}
use factom_p2p.Configuration.Checks.{IsUsable, check_iff}
use factom_p2p.Endpoint.{Endpoint}
use factom_p2p.Endpoint.Special.{parse_special}
use factom_p2p.Controller.Special.{
  Specials, is_special_ip, set_special, names, is_special_ip-set_special,
}
use factom_p2p.ParcelChannel.{new_channel}
use factom_p2p.Network.{
  Network, bad_configuration, no_source, no_dialer, Created, refused, created, Startup,
  new_controller, set_node_id, assemble, new_checked, new_network,
}

-- The special endpoints that the text of a configuration lists.
abbrev pub Lists : IpParser → GoString → List Endpoint → Type 0
Lists net [] eps = eps ≡ []
Lists net (c ∷ cs) eps = parse_special net (c ∷ cs) ≡ some eps

-- The network that comes of a configuration.
pub record Ready (net : IpParser) (sha : Sha256) (s : Startup) (conf : Configuration) (n : Network)
    : Type 0 where
  pub incoming_bound : n.conf.max_incoming ≤ n.conf.max_peers
  pub drop_bound : n.conf.drop_to ≤ n.conf.max_peers
  pub node_id :
      n.conf.node_id
      ≡ (if conf.node_id == 0 then string_to_uint32 sha conf.node_name else conf.node_id)
  pub capacities : (0 < n.to_network.capacity) × (n.from_network.capacity ≡ n.to_network.capacity)
  pub empty : (n.to_network.queue ≡ []) × (n.from_network.queue ≡ [])
  pub specials :
      (eps : List Endpoint) × Lists net conf.special eps
      × ((addr : GoString) → is_special_ip n.controller.specials addr ≡ names addr eps)
  pub not_started : (n.stopped ≡ false) × (n.starts ≡ 0)

-- What each result of NewNetwork means.
unfoldable pub Makes : IpParser → Sha256 → Startup → Configuration → Created → Type 0
Makes net sha s conf (refused (bad_configuration e)) = check net conf ≡ some e
Makes net sha s conf (refused no_source) = IsUsable net conf × (s.source ≡ false)
Makes net sha s conf (refused no_dialer) = IsUsable net conf × (s.source ≡ true) × (s.bound ≡ false)
Makes net sha s conf (created n) =
    IsUsable net conf × (s.source ≡ true) × (s.bound ≡ true) × Ready net sha s conf n

module _ (net : IpParser) where
  abbrev no_specials : Specials
  no_specials = record { special = []; special_endpoints = [] }

  specials_Lists :
      (raw : GoString)
      → (raw ≢ [] → parse_special net raw ≢ none)
      → (eps : List Endpoint) × Lists net raw eps
        × ((addr : GoString)
            → is_special_ip (set_special net raw no_specials) addr ≡ names addr eps)
  specials_Lists [] h = ([], refl, λ addr. is_special_ip-set_special net [] no_specials addr)
  specials_Lists (c ∷ cs) h = elim (Option-cases (parse_special net (c ∷ cs))) [
    | inl e ↦ absurd (h (λ k. cc) e)
    | inr (eps, e) ↦ (
      eps,
      e,
      λ addr. let r = is_special_ip-set_special net (c ∷ cs) no_specials addr in rw e at r,
    )
  ]

  module _ (sha : Sha256) (s : Startup) (conf : Configuration) where
    abbrev configured : Configuration
    configured = set_node_id net sha (sanitize conf)

    set_node_id-sanitize :
        (configured.max_incoming ≤ configured.max_peers)
        × (configured.drop_to ≤ configured.max_peers)
        × (configured.node_id
            ≡ (if conf.node_id == 0 then string_to_uint32 sha conf.node_name else conf.node_id))
        × (configured.channel_capacity ≡ conf.channel_capacity)
        × (configured.special ≡ conf.special)
    unfolding set_node_id sanitize
    set_node_id-sanitize = elim (Bool-cases (conf.node_id == 0)) [
      | inl e ↦ rw e (ground arith, ground arith, refl, refl, refl)
      | inr e ↦ rw e (ground arith, ground arith, refl, refl, refl)
    ]

    assemble-Makes :
        check net conf ≡ none
        → s.source ≡ true
        → Makes net sha s conf (assemble net s configured (new_controller net s configured))
    unfolding assemble new_controller new_channel Makes
    assemble-Makes h source = elim (Bool-cases s.bound) [
      | inl bound ↦
          let u = (check_iff net conf).0 h in
          let c = set_node_id-sanitize in
          simp bound (
            u,
            source,
            refl,
            record {
              incoming_bound = c.0;
              drop_bound = c.1;
              node_id = c.2;
              capacities = (omega (arith, c.3, u.channel_capacity), refl);
              empty = (refl, refl);
              specials = rw c.4 (specials_Lists conf.special u.special);
              not_started = (refl, refl);
            },
          )
      | inr unbound ↦ simp unbound ((check_iff net conf).0 h, source, refl)
    ]

    new_checked-Makes :
        (e : Option ConfigError)
        → check net conf ≡ e
        → Makes net sha s conf (new_checked net sha s conf e)
    unfolding Makes
    new_checked-Makes (some e) h = h
    new_checked-Makes none h = elim (Bool-cases s.source) [
      | inl source ↦ simp source (assemble-Makes h source)
      | inr missing ↦ simp missing ((check_iff net conf).0 h, refl)
    ]

    -- NewNetwork fails with Check's error where Check finds one, without a random source and
    -- without an address to bind to, and otherwise, for a usable configuration, gives a network
    -- that is not started: its limits are no higher than the peer limit, its id is the one that is
    -- configured or, where that is 0, the hash of the name, its channels are empty and hold at least
    -- one parcel, and special is exactly what the configuration lists.
    pub new_network-Makes : Makes net sha s conf (new_network net sha s conf)
    unfolding new_network
    new_network-Makes = new_checked-Makes (check net conf) refl
