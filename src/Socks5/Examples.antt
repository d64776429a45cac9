-- ===== src/Socks5/Examples.antt =====
-- A client that asks for 10.0.0.7:443, and one that sends a datagram there.
use magic_tun.Base.{
  ℕ, ◌≡◌, refl, true, none, some, List, [], ◌∷◌, ◌++◌, arith, if◌then◌else◌, replicate, bytes_beq,
}
use magic_tun.Net.Ip.{v4_prefix, to4, to16}
use magic_tun.Net.Texts.{target_of}
use magic_tun.Net.Examples.{toy_texts, toy_texts-IsTexts}
use magic_tun.Net.Mask.{shift_ones, all_zero, simple_mask_length, mask_size}
use magic_tun.Net.Prefix.{IpNet, network_number_and_mask, masked_eq, shorten, contains, cidr_key}
use magic_tun.Identity.{is_zero}
use magic_tun.Route.Table.{Route, RoutingTable, consider, scan_bucket, scan, find_direct, lookup}
use magic_tun.Socks5.Handshake.{no_auth_offered}
use magic_tun.Socks5.Handshake.Accepts.{v4, greeting, request}
use magic_tun.Socks5.Association.{Received}
use magic_tun.Socks5.Udp.{UdpAssociate, direct, forwarded, get_session_id, handle_udp_datagram}
use magic_tun.Socks5.Udp.Routing.{datagram, handle_udp_datagram-datagram}
use magic_tun.Socks5.Server.{closes, handle_connection}
use magic_tun.Socks5.Server.Requests.{answered, handle_connection-request}
use magic_tun.Forward.Session.{UdpAddr}

abbrev host : List ℕ
host = 10 ∷ 0 ∷ 0 ∷ 7 ∷ []

abbrev same : List ℕ → List ℕ
same a = a

abbrev join : List ℕ → ℕ → List ℕ
join h p = h ++ (p ∷ [])

abbrev net : IpNet
net = record { ip = 10 ∷ 0 ∷ 0 ∷ 0 ∷ []; mask = 255 ∷ 0 ∷ 0 ∷ 0 ∷ [] }

abbrev route : Route
route = record {
  destination = net;
  next_hop = replicate 16 1;
  as_path = replicate 16 1 ∷ [];
  cost = 2;
  origin = replicate 16 1;
  local_pref = 100;
  timestamp = 0;
}

abbrev table : RoutingTable
table = record {
  routes = (cidr_key net, route ∷ []) ∷ [];
  self_id = replicate 16 9;
  direct_networks = [];
}

abbrev client : UdpAddr
client = record { ip = 127 ∷ 0 ∷ 0 ∷ 1 ∷ []; port = 5000 }

abbrev associate : UdpAssociate
associate = record { client_addr = client; sessions = [] }

abbrev server : UdpAddr
server = record { ip = host; port = 443 }

found : lookup table host ≡ some route
unfolding lookup find_direct scan scan_bucket consider contains network_number_and_mask masked_eq
    shorten mask_size simple_mask_length shift_ones all_zero to4 bytes_beq
found = refl

handle_udp_datagram-datagram_example :
    handle_udp_datagram same some 77 table (datagram (v4 host) 443 (8 ∷ [])) associate ≡ (
      if is_zero route.next_hop then (associate, direct server (8 ∷ []) ∷ []) else (
        (get_session_id 77 client server associate).1,
        forwarded route.next_hop (get_session_id 77 client server associate).0 server (8 ∷ []) ∷ [],
      ))
handle_udp_datagram-datagram_example =
    handle_udp_datagram-datagram same some 77 443 table (v4 host) host (8 ∷ []) route associate refl
      (omega arith) (omega arith) refl found

host_long : to16 host ≡ some (v4_prefix ++ host)
unfolding to16
host_long = refl

handle_connection-request_example :
    handle_connection toy_texts
      (λ name. none)
      table
      (some (λ target. true))
      (some (λ peer target. true))
      true
      (greeting (2 ∷ 0 ∷ []) ++ (request 1 (v4 host) 443 ++ (99 ∷ [])))
    ≡ (if no_auth_offered (2 ∷ 0 ∷ [])
        then answered
            (target_of toy_texts host 443)
            (99 ∷ [])
            (λ target. true)
            (λ peer target. true)
            (lookup table (v4_prefix ++ host))
        else closes ((5 ∷ 255 ∷ []) ∷ []))
handle_connection-request_example =
    handle_connection-request toy_texts (λ name. none) table (λ target. true) (λ peer target. true)
      (2 ∷ 0 ∷ []) (v4 host) (v4_prefix ++ host) 443 (99 ∷ []) toy_texts-IsTexts (omega arith) refl
      (omega arith) host_long

abbrev number : ℕ
number = 77

abbrev received : ℕ → List ℕ → Received
received fresh payload = record {
  client_addr = client;
  bytes = datagram (v4 host) 443 payload;
  routes = table;
  fresh = fresh;
}

abbrev both : List Received
both = received 77 (8 ∷ []) ∷ received 78 (9 ∷ []) ∷ []
