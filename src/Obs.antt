-- ===== src/Obs.antt =====
-- obs/health.go: the numbers of a running node, and the two answers about them. A response is its status
-- and the values of its JSON object; a time is in nanoseconds, and an uptime is left as one, where the
-- code prints it.
use magic_tun.Base.{ℕ, ◌-◌, ◌/◌, ◌≡◌, refl, Bool, true, false, List, [], ◌∷◌, if◌then◌else◌, arith}

-- `started` is the field Uptime.
pub record Stats : Type 0 where
  pub peer_count : ℕ
  pub route_count : ℕ
  pub started : ℕ
  pub connected : Bool

abbrev pub new_stats : ℕ → Stats
new_stats now = record { peer_count = 0; route_count = 0; started = now; connected = true }

-- Update
abbrev pub update : ℕ → ℕ → Stats → Stats
update peers routes s = record s { peer_count = peers; route_count = routes }

pub record HealthAnswer : Type 0 where
  pub code : ℕ
  pub is_healthy : Bool
  pub uptime : ℕ

pub record MetricsAnswer : Type 0 where
  pub uptime_seconds : ℕ
  pub peer_count : ℕ
  pub route_count : ℕ

unfoldable pub handle_health : ℕ → Stats → HealthAnswer
handle_health now s =
    if s.connected
    then record { code = 200; is_healthy = true; uptime = now - s.started }
    else record { code = 503; is_healthy = false; uptime = now - s.started }

unfoldable pub handle_metrics : ℕ → Stats → MetricsAnswer
handle_metrics now s = record {
  uptime_seconds = (now - s.started) / 1000000000;
  peer_count = s.peer_count;
  route_count = s.route_count;
}

-- The updates of a node's life
unfoldable pub update_all : List (ℕ × ℕ) → Stats → Stats
update_all [] s = s
update_all ((peers, routes) ∷ rest) s = update_all rest (update peers routes s)

connected-update_all :
    (updates : List (ℕ × ℕ)) (s : Stats)
    → ((update_all updates s).connected ≡ s.connected)
      × ((update_all updates s).started ≡ s.started)
unfolding update_all
connected-update_all [] s = (refl, refl)
connected-update_all ((peers, routes) ∷ rest) s = connected-update_all rest (update peers routes s)

-- Whatever updates come, the answer about the node's health is 200: nothing unsets `connected`.
pub handle_health-update_all :
    (start now : ℕ) (updates : List (ℕ × ℕ))
    → handle_health now (update_all updates (new_stats start))
      ≡ record { code = 200; is_healthy = true; uptime = now - start }
unfolding handle_health
handle_health-update_all start now updates =
    let (up, since) = connected-update_all updates (new_stats start) in ground (arith, up, since)
