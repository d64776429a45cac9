-- ===== src/Config.antt =====
-- config/config.go: the configuration, its defaults and its checks. `parse_duration` is
-- time.ParseDuration, in nanoseconds, and `parse_cidr` net.ParseCIDR; an error of theirs is `none`.
pub mod Checks
mod Examples
use magic_tun.Base.{
  ℕ, Bool, true, false, Option, none, some, List, [], ◌∷◌, Result, ok, err, panic, ◌>>=◌, ◌>>◌,
  fail_if, if◌then◌else◌, eqb, length,
}
use magic_tun.Base.Int.{ℤ, pos, is_negative}
use magic_tun.Net.Prefix.{IpNet}

pub record NodeConfig : Type 0 where
  pub name : List ℕ
  pub identity_file : List ℕ
  pub listen_addr : List ℕ
  pub socks5_addr : List ℕ
  pub socks5_auth : List ℕ
  pub health_addr : List ℕ

pub record RoutingConfig : Type 0 where
  pub direct_networks : List (List ℕ)
  pub local_preference : ℕ
  pub max_as_path_length : ℤ
  pub route_advertisement_interval_s : List ℕ

pub record GossipConfig : Type 0 where
  pub bootstrap_peers : List (List ℕ)
  pub push_interval_s : List ℕ
  pub peer_timeout_s : List ℕ
  pub probe_interval_s : List ℕ
  pub fanout : ℤ

pub record UdpConfig : Type 0 where
  pub session_ttl_s : List ℕ
  pub session_gc_interval : List ℕ
  pub max_datagram_size : ℤ

pub record LoggingConfig : Type 0 where
  pub level : List ℕ
  pub format : List ℕ

pub record Config : Type 0 where
  pub node : NodeConfig
  pub routing : RoutingConfig
  pub gossip : GossipConfig
  pub udp : UdpConfig
  pub logging : LoggingConfig

pub data Error : Type 0 where
  no_listen_addr no_socks5_addr bad_duration bad_fanout bad_datagram_size bad_network : Error

-- The texts of the defaults, as bytes: "30s" and so on
abbrev seconds_text : List ℕ → List ℕ
seconds_text [] = b's' ∷ []
seconds_text (d ∷ ds) = d ∷ seconds_text ds

-- DefaultConfig
abbrev pub default_config : Config
default_config = record {
  node = record {
    name = [];
    identity_file = [];
    listen_addr =
        b'0' ∷ b'.' ∷ b'0' ∷ b'.' ∷ b'0' ∷ b'.' ∷ b'0' ∷ b':' ∷ b'9' ∷ b'4' ∷ b'4' ∷ b'3' ∷ [];
    socks5_addr =
        b'1' ∷ b'2' ∷ b'7' ∷ b'.' ∷ b'0' ∷ b'.' ∷ b'0' ∷ b'.' ∷ b'1' ∷ b':' ∷ b'1' ∷ b'0' ∷ b'8'
        ∷ b'0' ∷ [];
    socks5_auth = b'n' ∷ b'o' ∷ b'a' ∷ b'u' ∷ b't' ∷ b'h' ∷ [];
    health_addr = [];
  };
  routing = record {
    direct_networks = [];
    local_preference = 100;
    max_as_path_length = pos 32;
    route_advertisement_interval_s = seconds_text (b'3' ∷ b'0' ∷ []);
  };
  gossip = record {
    bootstrap_peers = [];
    push_interval_s = seconds_text (b'5' ∷ []);
    peer_timeout_s = seconds_text (b'1' ∷ b'5' ∷ []);
    probe_interval_s = seconds_text (b'3' ∷ []);
    fanout = pos 3;
  };
  udp = record {
    session_ttl_s = seconds_text (b'1' ∷ b'2' ∷ b'0' ∷ []);
    session_gc_interval = seconds_text (b'3' ∷ b'0' ∷ []);
    max_datagram_size = pos 1200;
  };
  logging = record {
    level = b'i' ∷ b'n' ∷ b'f' ∷ b'o' ∷ [];
    format = b'j' ∷ b's' ∷ b'o' ∷ b'n' ∷ [];
  };
}

-- `s == ""`
abbrev pub is_empty : List ℕ → Bool
is_empty s = eqb (length s) 0

module _ (parse_duration : List ℕ → Option ℤ) (parse_cidr : List ℕ → Option IpNet) where
  -- `if s != "" { if _, err := time.ParseDuration(s); err != nil { … } }`
  abbrev pub check_duration : List ℕ → Result Error (Unit {0})
  check_duration s =
      if is_empty s
      then ok tt
      else elim (parse_duration s) [ none ↦ err bad_duration | some d ↦ ok tt ]

  -- The loop over DirectNetworks
  unfoldable pub check_networks : List (List ℕ) → Result Error (Unit {0})
  check_networks [] = ok tt
  check_networks (nw ∷ nets) = elim (parse_cidr nw) [
    | none ↦ err bad_network
    | some net ↦ check_networks nets
  ]

  unfoldable pub validate : Config → Result Error (Unit {0})
  validate c = do
    fail_if (is_empty c.node.listen_addr) no_listen_addr
    fail_if (is_empty c.node.socks5_addr) no_socks5_addr
    check_duration c.routing.route_advertisement_interval_s
    check_duration c.gossip.push_interval_s
    check_duration c.gossip.peer_timeout_s
    check_duration c.gossip.probe_interval_s
    check_duration c.udp.session_ttl_s
    check_duration c.udp.session_gc_interval
    fail_if (is_negative c.gossip.fanout) bad_fanout
    fail_if (is_negative c.udp.max_datagram_size) bad_datagram_size
    check_networks c.routing.direct_networks

  -- parseDuration, which drops the error
  abbrev pub duration_or_zero : Option ℤ → ℤ
  duration_or_zero none = pos 0
  duration_or_zero (some d) = d

  abbrev pub route_advertisement_interval : Config → ℤ
  route_advertisement_interval c =
      duration_or_zero (parse_duration c.routing.route_advertisement_interval_s)

  abbrev pub push_interval : Config → ℤ
  push_interval c = duration_or_zero (parse_duration c.gossip.push_interval_s)

  abbrev pub peer_timeout : Config → ℤ
  peer_timeout c = duration_or_zero (parse_duration c.gossip.peer_timeout_s)

  abbrev pub probe_interval : Config → ℤ
  probe_interval c = duration_or_zero (parse_duration c.gossip.probe_interval_s)

  abbrev pub session_ttl : Config → ℤ
  session_ttl c = duration_or_zero (parse_duration c.udp.session_ttl_s)

  abbrev pub session_gc_interval : Config → ℤ
  session_gc_interval c = duration_or_zero (parse_duration c.udp.session_gc_interval)
