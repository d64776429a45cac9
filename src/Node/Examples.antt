-- ===== src/Node/Examples.antt =====
-- A node 9 with a peer 1, whose key is known, and a toy scheme of signatures.
mod Timing
use magic_tun.Base.{
  ℕ, ◌+◌, ◌-◌, ◌*◌, ◌^◌, ◌≤◌, ◌<◌, ◌≡◌, refl, ◌⊎◌, inl, inr, Bool, true, false, not, Option, none,
  some, List, [], ◌∷◌, ◌++◌, arith, ok, panic, eqb, eqb_iff, length, replicate, keep, All,
  if◌then◌else◌, bytes_beq, bytes_eq, nat_eq, get, put, ◌==◌,
}
use mathlib.Core.Option
use magic_tun.Net.Ip.{to4}
use magic_tun.Net.Mask.{cidr_mask, mask_bytes}
use magic_tun.Net.Prefix.{IpNet}
use magic_tun.Identity.{NodeId}
use magic_tun.Wire.{msg_pong}
use magic_tun.Wire.Sign.{Ed25519, sign_message}
use magic_tun.Wire.Route.{route_flag_update}
use magic_tun.Wire.Route.RoundTrip.{IsRouteMessage}
use magic_tun.Route.Path
use magic_tun.Wire.Gossip.RoundTrip.{IsPeerEntry}
use magic_tun.Route.Table.{Route, RoutingTable, get_all_routes}
use magic_tun.Route.Propagation.{message_of, encode_route_with_self}
use magic_tun.Route.Propagation.Receive.{taken_over}
use magic_tun.Route.Propagation.Withdraw.{involves}
use magic_tun.Gossip.Peer.{Peer, PeerManager, get_peer}
use magic_tun.Gossip.Peer.Views.{died}
use magic_tun.Gossip.Peer.Invariant.{IsManager}
use magic_tun.Gossip.Engine.{Conn, Engine, Config, push_entries, build_gossip_push, handle_message}
use magic_tun.Forward.Session.{UdpAddr, new_session_table}
use magic_tun.Node.{Link, Node, Effect, peers_func, get_peer_conn}
use magic_tun.Node.Dispatch.{dispatch_verified, dispatch_control_msg, with_routes}
use magic_tun.Node.Dispatch.Signed.{
  IsSignedBy, dispatch_control_msg-IsSignedBy, dispatch_control_msg-panic,
  dispatch_control_msg-encode_route_with_self,
}
use magic_tun.Node.{reconnects}
use magic_tun.Node.Peers.{
  Host, begin_connect, begin_reconnect, has_handle, connection_lost, try_mark_dialing, is_dialing,
}
use magic_tun.Node.Peers.Loss.{
  announced, connection_lost_lem, reconnected, get_peer-handle_message-reconnected,
}
use magic_tun.Node.Peers.Dialing.{Dials, Reach, start, later, connects, IsExclusive}
use magic_tun.Node.Peers.Dialing
use magic_tun.Node.Peers.Dialing.Exclusive.{Reach-IsExclusive}
use magic_tun.Node.Lifecycle.{
  Event, message, forwards, lost, session_tick, step, run, node_with, new_node, parse_networks,
}
use magic_tun.Node.Invariant.{IsNode, IsNoDelivery}
use magic_tun.Node.Invariant.Events.{run-new_node}

abbrev first_or : ℕ → List ℕ → ℕ
first_or d [] = d
first_or d (b ∷ bs) = b

-- A signature is 64 times the key, and verifies if its first byte is the key's.
abbrev toy : Ed25519
toy = record {
  PrivateKey = ℕ;
  public = λ k. replicate 32 k;
  sign = λ k m. replicate 64 k;
  verify = λ key m sig. eqb (first_or 0 key) (first_or 1 sig);
  length-sign = λ k m. refl;
  verify-sign = λ k m. (eqb_iff k k).1 refl;
}

abbrev id : ℕ → NodeId
id n = replicate 16 n

abbrev neighbour : Peer
neighbour = record {
  id = id 1;
  pub_key = replicate 32 7;
  addr = 97 ∷ 58 ∷ 57 ∷ [];
  state = 0;
  version = 1;
  last_seen = 0;
  direct_nets = [];
}

abbrev config : Config
config = record { push_interval = 5; probe_interval = 3; peer_timeout = 15; fanout = 3 }

abbrev link : Link
link = record {
  handle = 0;
  conn = record { remote_addr = 97 ∷ 58 ∷ 57 ∷ []; writes = λ bytes. true };
}

abbrev fresh : Node
fresh = node_with toy 3 (id 9) (98 ∷ 58 ∷ 57 ∷ []) (replicate 32 3) config 120 []

abbrev here : Node
here = record fresh {
  engine = record fresh.engine {
    peers = record { peers = (id 1, neighbour) ∷ []; self_id = id 9 };
  };
  peer_conns = (id 1, link) ∷ [];
}

abbrev host : Host
host = record {
  split_host_port = λ addr. some (addr, []);
  join_host_port = λ host port. host;
  resolve_udp_addr = λ addr. none;
}

neighbour_known : get_peer (id 1) here.engine.peers ≡ some neighbour
unfolding get bytes_beq
neighbour_known = refl

dispatch_control_msg-IsSignedBy_example :
    (dispatch_control_msg toy 3 5 (id 1) (msg_pong ∷ []) here ≡ ok (here, []))
    ⊎ ((msg : List ℕ) × IsSignedBy toy (replicate 32 7) (msg_pong ∷ []) msg
        × (dispatch_control_msg toy 3 5 (id 1) (msg_pong ∷ []) here
            ≡ dispatch_verified toy 3 5 (id 1) msg here))
dispatch_control_msg-IsSignedBy_example =
    dispatch_control_msg-IsSignedBy toy 3 5 (id 1) (msg_pong ∷ []) here neighbour neighbour_known
      refl

dispatch_control_msg-panic_example :
    dispatch_control_msg toy 3 5 (id 1) (replicate 64 7) here ≡ panic
dispatch_control_msg-panic_example =
    dispatch_control_msg-panic toy 3 5 (id 1) 7 here neighbour neighbour_known refl refl

abbrev wide_net : IpNet
wide_net = record { ip = 10 ∷ 0 ∷ 0 ∷ 0 ∷ []; mask = 255 ∷ 0 ∷ 0 ∷ 0 ∷ [] }

abbrev wide : Route
wide = record {
  destination = wide_net;
  next_hop = id 1;
  as_path = [];
  cost = 1;
  origin = id 1;
  local_pref = 100;
  timestamp = 0;
}

wide_valid : IsRouteMessage (message_of route_flag_update wide (id 1 ∷ []))
unfolding to4 cidr_mask mask_bytes Path.to_wire
wide_valid = record {
  ones = 8;
  prefix_length = inl ((10 ∷ 0 ∷ 0 ∷ 0 ∷ []), refl, refl, omega arith);
  cost_u32 = omega arith;
  pref_u32 = omega arith;
  origin_id = refl;
  hop_ids = (refl, tt);
  short_path = omega arith;
}

dispatch_control_msg-encode_route_with_self_example :
    dispatch_control_msg toy 3 5
      (id 1)
      (sign_message toy (encode_route_with_self (id 1) wide) 7)
      here
    ≡ ok (with_routes toy 3 here (taken_over 5 (id 1) wide (peers_func here) here.routes))
dispatch_control_msg-encode_route_with_self_example =
    dispatch_control_msg-encode_route_with_self toy 3 5 (id 1) wide 7 here neighbour wide_valid
      neighbour_known refl refl

connection_lost_lem_example :
    (get_peer_conn (id 1) (connection_lost toy 3 host true (id 1) link here).0
      ≡ (if id 1 == id 1 then none else get_peer_conn (id 1) here))
    × (get (id 1) (connection_lost toy 3 host true (id 1) link here).0.engine.conns
        ≡ (if id 1 == id 1 then none else get (id 1) here.engine.conns))
    × (has_handle 1 (connection_lost toy 3 host true (id 1) link here).0.closed
        ≡ (if eqb link.handle 1 then true else has_handle 1 here.closed))
    × (get_peer (id 1) (connection_lost toy 3 host true (id 1) link here).0.engine.peers ≡ (
        if id 1 == id 1
        then Option.map died (get_peer (id 1) here.engine.peers)
        else get_peer (id 1) here.engine.peers))
    × (get_all_routes (connection_lost toy 3 host true (id 1) link here).0.routes
        ≡ keep (λ r. not (involves (id 1) r)) (get_all_routes here.routes))
    × ((connection_lost toy 3 host true (id 1) link here).1
        ≡ announced
            (connection_lost toy 3 host true (id 1) link here).0.engine
            (keep (involves (id 1)) (get_all_routes here.routes))
          ++ (if true then reconnects (id 1) ∷ [] else []))
connection_lost_lem_example = connection_lost_lem toy 3 host true (id 1) (id 1) link 1 here

abbrev other_engine : Engine
other_engine = record {
  self_id = id 1;
  self_addr = 97 ∷ 58 ∷ 57 ∷ [];
  pub_key = replicate 32 7;
  peers = record { peers = []; self_id = id 1 };
  config = config;
  conns = [];
  sign_func = none;
}

get_peer-handle_message-reconnected_example :
    get_peer
      (id 1)
      (handle_message 8
        (id 1)
        (build_gossip_push other_engine)
        (reconnected toy 3 host 7 (id 1) (97 ∷ 58 ∷ 57 ∷ []) link link here).engine).1.0.peers
    ≡ some (died neighbour)
get_peer-handle_message-reconnected_example =
    get_peer-handle_message-reconnected toy 3 host 7 8 other_engine (97 ∷ 58 ∷ 57 ∷ []) link link
      here neighbour neighbour_known (omega arith) (omega arith) (record { known = tt; keys = tt })
      refl (omega arith)
      (
        record {
          id_size = refl;
          key_size = refl;
          version_u64 = omega arith;
          addr_size = omega arith;
        },
        tt,
      )

-- Goroutine 1 connects to a peer at the address 5, and goroutine 2 reconnects to the neighbour.
abbrev marked_one : Node
marked_one = record here { reconnecting = (5 ∷ []) ∷ [] }

abbrev marked_two : Node
marked_two = record here { reconnecting = neighbour.addr ∷ (5 ∷ []) ∷ [] }

marks_one : begin_connect toy 3 host (id 2) (5 ∷ []) here ≡ (true, marked_one)
unfolding begin_connect try_mark_dialing is_dialing get bytes_beq
marks_one = refl

marks_two : begin_reconnect toy 3 host (id 1) marked_one ≡ (some neighbour.addr, marked_two)
unfolding begin_reconnect try_mark_dialing is_dialing get bytes_beq
marks_two = refl

two_dialing :
    Reach toy 3 host
      (record { node = marked_two; dialers = put 2 neighbour.addr (put 1 (5 ∷ []) []) })
unfolding get put
two_dialing =
    later (later (start here refl) (connects 1 (id 2) (5 ∷ []) refl marks_one))
      (Dialing.Step.reconnects 2 (id 1) neighbour.addr refl marks_two)

Reach-IsExclusive_example :
    IsExclusive (record { node = marked_two; dialers = put 2 neighbour.addr (put 1 (5 ∷ []) []) })
Reach-IsExclusive_example = Reach-IsExclusive toy 3 host two_dialing

abbrev target : UdpAddr
target = record { ip = 10 ∷ 0 ∷ 0 ∷ 1 ∷ []; port = 53 }

abbrev events : List Event
events = forwards 5 (id 1) target (1 ∷ 2 ∷ []) ∷ session_tick 6 ∷ lost true (id 1) link ∷ []

starts :
    new_node toy 3 (λ text. none) (id 9) (98 ∷ 58 ∷ 57 ∷ []) (replicate 32 3) config 120 []
    ≡ some fresh
unfolding new_node parse_networks
starts = refl

happens : (done : Node × List Effect) × (run toy 3 host (λ ip. ip) events fresh ≡ ok done)
unfolding run step
happens = (_, refl)

run-new_node_example : IsNode happens.0.0 × All IsNoDelivery happens.0.1
run-new_node_example =
    run-new_node toy 3 host (λ ip. ip) (λ text. none) (id 9) (98 ∷ 58 ∷ 57 ∷ []) (replicate 32 3)
      config 120 [] fresh events happens.0 starts happens.1
