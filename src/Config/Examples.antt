-- ===== src/Config/Examples.antt =====
-- The default configuration, with a reader of durations that takes every text but the empty one, and one
-- of networks that takes none.
use magic_tun.Base.{ℕ, ◌≡◌, refl, ◌↔◌, Option, none, some, List, [], ◌∷◌, ok}
use magic_tun.Base.Int.{ℤ, pos}
use magic_tun.Net.Prefix.{IpNet}
use magic_tun.Config.{
  default_config, validate, check_networks, route_advertisement_interval, push_interval,
  probe_interval, session_gc_interval,
}
use magic_tun.Config.Checks.{IsConfig, validate_iff, without_intervals, validate-without_intervals}

abbrev parse_duration : List ℕ → Option ℤ
parse_duration [] = none
parse_duration (b ∷ bs) = some (pos 1000)

abbrev parse_cidr : List ℕ → Option IpNet
parse_cidr text = none

default_valid : validate parse_duration parse_cidr default_config ≡ ok tt
unfolding validate check_networks
default_valid = refl

validate_iff_example :
    (validate parse_duration parse_cidr default_config ≡ ok tt)
    ↔ IsConfig parse_duration parse_cidr default_config
validate_iff_example = validate_iff parse_duration parse_cidr default_config

validate-without_intervals_example :
    (validate parse_duration parse_cidr (without_intervals parse_duration parse_cidr default_config)
      ≡ ok tt)
    × (route_advertisement_interval parse_duration parse_cidr
          (without_intervals parse_duration parse_cidr default_config)
        ≡ pos 0)
    × (push_interval parse_duration parse_cidr
          (without_intervals parse_duration parse_cidr default_config)
        ≡ pos 0)
    × (probe_interval parse_duration parse_cidr
          (without_intervals parse_duration parse_cidr default_config)
        ≡ pos 0)
    × (session_gc_interval parse_duration parse_cidr
          (without_intervals parse_duration parse_cidr default_config)
        ≡ pos 0)
validate-without_intervals_example =
    validate-without_intervals parse_duration parse_cidr default_config refl default_valid
