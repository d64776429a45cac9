-- ===== src/Config/Checks.antt =====
-- What Validate of config/config.go accepts.
use magic_tun.Base.{
  ℕ, ◌<◌, ◌≡◌, refl, ◌↔◌, ◌⊎◌, inl, inr, Bool, true, false, Option, none, List, [], ◌∷◌, arith,
  Result, ok, err, ◌>>◌, fail_if, length, All, Option-cases,
}
use magic_tun.Base.Int.{ℤ, pos, is_negative}
use magic_tun.Net.Prefix.{IpNet}
use magic_tun.Config.{
  Config, Error, is_empty, check_duration, check_networks, validate, duration_or_zero,
  route_advertisement_interval, push_interval, probe_interval, session_gc_interval,
}

then_ok : (m k : Result Error (Unit {0})) → (m >> k) ≡ ok tt → (m ≡ ok tt) × (k ≡ ok tt)
then_ok (ok tt) k e = (refl, e)
then_ok (err x) k e = cc
then_ok Result.panic k e = cc

fail_if_ok : (b : Bool) (x : Error) → fail_if b x ≡ ok tt → b ≡ false
fail_if_ok true x e = cc
fail_if_ok false x e = refl

nonempty_iff : (s : List ℕ) → (is_empty s ≡ false) ↔ (0 < length s)
nonempty_iff s = ground arith

module _ (parse_duration : List ℕ → Option ℤ) (parse_cidr : List ℕ → Option IpNet) where
  abbrev pub IsDuration : List ℕ → Type 0
  IsDuration s = (length s ≡ 0) ⊎ ¬ (parse_duration s ≡ none)

  abbrev pub IsNetwork : List ℕ → Type 0
  IsNetwork s = ¬ (parse_cidr s ≡ none)

  -- What a configuration has to be.
  pub record IsConfig (c : Config) : Type 0 where
    pub listens : 0 < length c.node.listen_addr
    pub serves : 0 < length c.node.socks5_addr
    pub advertises : IsDuration c.routing.route_advertisement_interval_s
    pub pushes : IsDuration c.gossip.push_interval_s
    pub times_out : IsDuration c.gossip.peer_timeout_s
    pub probes : IsDuration c.gossip.probe_interval_s
    pub expires : IsDuration c.udp.session_ttl_s
    pub collects : IsDuration c.udp.session_gc_interval
    pub fans_out : is_negative c.gossip.fanout ≡ false
    pub bounded : is_negative c.udp.max_datagram_size ≡ false
    pub networks : All IsNetwork c.routing.direct_networks

  check_duration_iff :
      (s : List ℕ) → (check_duration parse_duration parse_cidr s ≡ ok tt) ↔ IsDuration s
  check_duration_iff s = elim (Option-cases (parse_duration s)) [
    | inl bad ↦ rw (bad, check_duration) (ground arith)
    | inr (d, good) ↦ rw (good, check_duration) (ground arith)
  ]

  check_networks_iff :
      (nets : List (List ℕ))
      → (check_networks parse_duration parse_cidr nets ≡ ok tt) ↔ All IsNetwork nets
  unfolding check_networks
  check_networks_iff [] = (λ _. tt, λ _. refl)
  check_networks_iff (nw ∷ nets) = elim (Option-cases (parse_cidr nw)) [
    | inl bad ↦ rw (bad, check_networks) ((λ e. cc), (λ h. absurd (h.0 refl)))
    | inr (net, good) ↦
        rw (good, check_networks)
          (
            (λ e. ((λ q. cc), (check_networks_iff nets).0 e)),
            (λ h. (check_networks_iff nets).1 h.1),
          )
  ]

  -- Validate accepts a configuration exactly if both listening addresses are given, each of the six
  -- durations is empty or can be parsed, the fanout and the datagram size are not negative, and every
  -- direct network can be parsed.
  pub validate_iff : (c : Config) → (validate parse_duration parse_cidr c ≡ ok tt) ↔ IsConfig c
  unfolding validate
  validate_iff c = (
    λ e.
        let (listens, e1) = then_ok _ _ e in
        let (serves, e2) = then_ok _ _ e1 in
        let (advertises, e3) = then_ok _ _ e2 in
        let (pushes, e4) = then_ok _ _ e3 in
        let (times_out, e5) = then_ok _ _ e4 in
        let (probes, e6) = then_ok _ _ e5 in
        let (expires, e7) = then_ok _ _ e6 in
        let (collects, e8) = then_ok _ _ e7 in
        let (fans_out, e9) = then_ok _ _ e8 in
        let (bounded, e10) = then_ok _ _ e9 in
        record {
          listens = (nonempty_iff c.node.listen_addr).0 (fail_if_ok _ _ listens);
          serves = (nonempty_iff c.node.socks5_addr).0 (fail_if_ok _ _ serves);
          advertises = (check_duration_iff _).0 advertises;
          pushes = (check_duration_iff _).0 pushes;
          times_out = (check_duration_iff _).0 times_out;
          probes = (check_duration_iff _).0 probes;
          expires = (check_duration_iff _).0 expires;
          collects = (check_duration_iff _).0 collects;
          fans_out = fail_if_ok _ _ fans_out;
          bounded = fail_if_ok _ _ bounded;
          networks = (check_networks_iff _).0 e10;
        },
    λ h. rw ((nonempty_iff c.node.listen_addr).1 h.listens) (
        rw ((nonempty_iff c.node.socks5_addr).1 h.serves) (
          rw ((check_duration_iff _).1 h.advertises) (
            rw ((check_duration_iff _).1 h.pushes) (
              rw ((check_duration_iff _).1 h.times_out) (
                rw ((check_duration_iff _).1 h.probes) (
                  rw ((check_duration_iff _).1 h.expires) (
                    rw ((check_duration_iff _).1 h.collects)
                      (rw h.fans_out (rw h.bounded ((check_networks_iff _).1 h.networks)))))))))),
  )

  -- The configuration with empty texts for the four intervals of tickers.
  abbrev pub without_intervals : Config → Config
  without_intervals c = record c {
    routing = record c.routing { route_advertisement_interval_s = [] };
    gossip = record c.gossip { push_interval_s = []; probe_interval_s = [] };
    udp = record c.udp { session_gc_interval = [] };
  }

  without_intervals-IsConfig : (c : Config) → IsConfig c → IsConfig (without_intervals c)
  without_intervals-IsConfig c h = record {
    listens = h.listens;
    serves = h.serves;
    advertises = inl refl;
    pushes = inl refl;
    times_out = h.times_out;
    probes = inl refl;
    expires = h.expires;
    collects = inl refl;
    fans_out = h.fans_out;
    bounded = h.bounded;
    networks = h.networks;
  }

  -- Validate lets through a configuration whose four tickers have no interval: any configuration that it
  -- accepts, it accepts as well with empty texts for these intervals, and each of them is then 0, if an
  -- empty text is no duration.
  pub validate-without_intervals :
      (c : Config)
      → parse_duration [] ≡ none
      → validate parse_duration parse_cidr c ≡ ok tt
      → (validate parse_duration parse_cidr (without_intervals c) ≡ ok tt)
        × (route_advertisement_interval parse_duration parse_cidr (without_intervals c) ≡ pos 0)
        × (push_interval parse_duration parse_cidr (without_intervals c) ≡ pos 0)
        × (probe_interval parse_duration parse_cidr (without_intervals c) ≡ pos 0)
        × (session_gc_interval parse_duration parse_cidr (without_intervals c) ≡ pos 0)
  validate-without_intervals c empty valid =
      let zero : duration_or_zero parse_duration parse_cidr (parse_duration []) ≡ pos 0 =
        rw empty refl in
      let good = without_intervals-IsConfig c ((validate_iff c).0 valid) in
      ((validate_iff (without_intervals c)).1 good, zero, zero, zero, zero)
