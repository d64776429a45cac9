-- ===== src/Gossip/Examples.antt =====
-- Two nodes, 1 and 2, of which the first knows a third.
use magic_tun.Base.{
  ℕ, keep, ◌≤◌, eqb, not, ◌≡◌, refl, inl, inr, false, ◌&&◌, none, some, [], ◌∷◌, arith, replicate,
  length, if◌then◌else◌, All, bytes_beq, bytes_eq, ◌==◌, get, put,
}
use Prim.Native.Nat.{min}
use magic_tun.Identity.{NodeId, equal}
use magic_tun.Wire.Gossip.{peer_alive}
use magic_tun.Wire.Gossip.RoundTrip.{IsPeerEntry}
use magic_tun.Gossip.Peer.{
  values, Peer, PeerManager, add_or_update, get_peer, mark_suspect, get_random,
}
use magic_tun.Gossip.Peer.Views.{accepts, stored, get_peer-add_or_update}
use magic_tun.Gossip.Peer.Invariant.{IsManager, suspects, step}
use magic_tun.Gossip.Peer.Distinct.{times}
use magic_tun.Gossip.Peer.Random.{IsCandidate, get_random_lem}
use magic_tun.Gossip.Engine.{Engine, build_gossip_push, entry_of, push_entries, handle_message}
use magic_tun.Gossip.Engine.Knowledge.{IsKnownAt, handle_message-build_gossip_push}

abbrev node : ℕ → NodeId
node n = replicate 16 n

abbrev third : Peer
third = record {
  id = node 3;
  pub_key = replicate 32 7;
  addr = 97 ∷ 58 ∷ 57 ∷ [];
  state = 0;
  version = 4;
  last_seen = 0;
  direct_nets = [];
}

abbrev known : PeerManager
known = record { peers = (node 3, third) ∷ []; self_id = node 1 }

known_valid : IsManager known
unfolding bytes_beq get
known_valid = record { known = ((refl, refl), tt); keys = (refl, tt) }

get_peer-add_or_update_example :
    (get_peer (node 3) (add_or_update 9 (record third { version = 5 }) known).1 ≡ (
      if accepts (record third { version = 5 }) known && node 3 == node 3
      then some (stored 9 (record third { version = 5 }) (get_peer (node 3) known))
      else get_peer (node 3) known))
    × ((add_or_update 9 (record third { version = 5 }) known).0
        ≡ accepts (record third { version = 5 }) known)
get_peer-add_or_update_example =
    get_peer-add_or_update 9 (record third { version = 5 }) known (node 3)

abbrev suspect : Peer
suspect = record third { state = 1; version = 5 }

third_known : get_peer (node 3) known ≡ some third
unfolding get bytes_beq
third_known = refl

third_suspected : get_peer (node 3) (step known (suspects (node 3))) ≡ some suspect
unfolding step mark_suspect get put bytes_beq
third_suspected = refl

get_random_lem_example :
    (length (get_random 3 (node 0) 1 known).0
      ≡ min 3 (
          length
            (keep (λ p. eqb p.state peer_alive && not (equal p.id (node 0))) (values known.peers))))
    × All (IsCandidate (node 0) known) (get_random 3 (node 0) 1 known).0
    × (times (node 3) (get_random 3 (node 0) 1 known).0 ≤ 1)
get_random_lem_example = get_random_lem 3 1 (node 0) (node 3) known known_valid

abbrev engine : ℕ → PeerManager → Engine
engine n pm = record {
  self_id = node n;
  self_addr = 98 ∷ 58 ∷ 57 ∷ [];
  pub_key = replicate 32 n;
  peers = pm;
  config = record { push_interval = 5; probe_interval = 3; peer_timeout = 15; fanout = 3 };
  conns = [];
  sign_func = none;
}

abbrev first : Engine
first = engine 1 known

abbrev second : Engine
second = engine 2 (record { peers = []; self_id = node 2 })

first_entries : All IsPeerEntry (push_entries first)
first_entries = (
  record { id_size = refl; key_size = refl; version_u64 = omega arith; addr_size = omega arith },
  (
    record { id_size = refl; key_size = refl; version_u64 = omega arith; addr_size = omega arith },
    tt,
  ),
)

third_not_second : equal (node 3) (node 2) ≡ false
unfolding bytes_beq
third_not_second = refl

handle_message-build_gossip_push_example :
    IsKnownAt 0 (node 3) (handle_message 9 (node 1) (build_gossip_push first) second).1.0.peers
    × (IsKnownAt 0 (node 3) second.peers
        → IsKnownAt 4
            (node 3)
            (handle_message 9 (node 1) (build_gossip_push first) second).1.0.peers)
handle_message-build_gossip_push_example =
    handle_message-build_gossip_push 9 first second (node 1) (entry_of third) (omega arith)
      first_entries refl (inr (inl refl)) third_not_second
