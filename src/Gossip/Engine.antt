-- ===== src/Gossip/Engine.antt =====
-- gossip/gossip.go: the engine, as functions from its state to a state and the effects in their order.
-- The two goroutines are `push_to_random` and `probe_random_peer`, one turn of each loop, and
-- `probe_expired`, the end of a probe. `now` is what time.Now returns, `s` the state of fastRand.
pub mod Knowledge
use magic_tun.Base.{
  ℕ, zero, suc, ◌+◌, ◌-◌, ◌%◌, Bool, true, false, not, ◌&&◌, Option, none, some, List, [], ◌∷◌,
  ◌++◌, map, ok, err, panic, if◌then◌else◌, eqb, ltb, length, replicate, get_elem?, bytes_eq,
  bytes_beq, get, put, delete,
}
use magic_tun.Identity.{NodeId, equal, zero_id}
use magic_tun.Wire.{msg_gossip_push, msg_gossip_pull, msg_ping, msg_pong}
use magic_tun.Wire.Gossip.{
  PeerEntry, peer_alive, encode_gossip_push, decode_gossip_push, encode_ping, encode_pong,
}
use magic_tun.Gossip.Peer.{
  Peer, PeerManager, new_peer_manager, add_or_update, mark_suspect, mark_alive, get_peer, get_alive,
  get_all, get_random, fast_rand,
}

-- What the engine uses of a transport.Conn: the address of the other end, and whether a Write to the
-- control stream succeeds.
pub record Conn : Type 0 where
  pub remote_addr : List ℕ
  pub writes : List ℕ → Bool

pub record Config : Type 0 where
  pub push_interval : ℕ
  pub probe_interval : ℕ
  pub peer_timeout : ℕ
  pub fanout : ℕ

pub record Engine : Type 0 where
  pub self_id : NodeId
  pub self_addr : List ℕ
  pub pub_key : List ℕ
  pub peers : PeerManager
  pub config : Config
  pub conns : List (NodeId × Conn)
  pub sign_func : Option (List ℕ → List ℕ)

-- A Write to the control stream of a peer, and a call of onPeerDiscovered, which is taken as set.
pub data Effect : Type 0 where
  written : NodeId → List ℕ → Effect
  discovered : Peer → Effect

abbrev pub new_engine : NodeId → List ℕ → List ℕ → Config → Engine
new_engine self_id self_addr pub_key cfg = record {
  self_id = self_id;
  self_addr = self_addr;
  pub_key = pub_key;
  peers = new_peer_manager self_id;
  config = cfg;
  conns = [];
  sign_func = none;
}

abbrev sign_with : Option (List ℕ → List ℕ) → List ℕ → List ℕ
sign_with none msg = msg
sign_with (some f) msg = f msg

abbrev pub sign_msg : Engine → List ℕ → List ℕ
sign_msg e msg = sign_with e.sign_func msg

abbrev pub is_zero_pub_key : List ℕ → Bool
is_zero_pub_key [] = true
is_zero_pub_key (b ∷ bs) = let rest = is_zero_pub_key bs in if eqb b 0 then rest else false

-- `if len(p.PubKey) == 32 { copy(pk[:], p.PubKey) }`
abbrev pub key_32 : List ℕ → List ℕ
key_32 k = if eqb (length k) 32 then k else replicate 32 0

abbrev pub entry_of : Peer → PeerEntry
entry_of p = record {
  id = p.id;
  pub_key = key_32 p.pub_key;
  state = p.state;
  version = p.version;
  addr = p.addr;
}

abbrev pub self_entry : Engine → PeerEntry
self_entry e = record {
  id = e.self_id;
  pub_key = e.pub_key;
  state = peer_alive;
  version = 1;
  addr = e.self_addr;
}

abbrev pub push_entries : Engine → List PeerEntry
push_entries e = self_entry e ∷ map entry_of (get_all e.peers)

unfoldable pub build_gossip_push : Engine → List ℕ
build_gossip_push e = encode_gossip_push (push_entries e)

-- The peer that an entry of a push describes
abbrev pub peer_of : PeerEntry → Peer
peer_of entry = record {
  id = entry.id;
  pub_key = if is_zero_pub_key entry.pub_key then [] else entry.pub_key;
  addr = entry.addr;
  state = entry.state;
  version = entry.version;
  last_seen = 0;
  direct_nets = [];
}

-- One turn of the loop of handlePush
unfoldable pub handle_entry : ℕ → NodeId → PeerEntry → PeerManager → PeerManager × List Effect
handle_entry now self_id entry pm =
    let (is_new, pm') = add_or_update now (peer_of entry) pm in
    if equal entry.id self_id
    then (pm, [])
    else (pm', if is_new then discovered (peer_of entry) ∷ [] else [])

unfoldable pub handle_push : ℕ → NodeId → List PeerEntry → PeerManager → PeerManager × List Effect
handle_push now self_id [] pm = (pm, [])
handle_push now self_id (entry ∷ entries) pm =
    let (pm', out) = handle_entry now self_id entry pm in
    let (done, out') = handle_push now self_id entries pm' in (done, out ++ out')

-- SendTo: whether it returned no error, and what was written
unfoldable pub send_to : Engine → NodeId → List ℕ → Bool × List Effect
send_to e id msg = elim (get id e.conns) [
  | none ↦ (true, [])
  | some conn ↦
      let signed = sign_msg e msg in
      if conn.writes signed then (true, written id signed ∷ []) else (false, [])
]

abbrev write_all : List ℕ → List (NodeId × Conn) → List Effect
write_all msg [] = []
write_all msg ((id, conn) ∷ conns) =
    (if conn.writes msg then written id msg ∷ [] else []) ++ write_all msg conns

unfoldable pub broadcast : Engine → List ℕ → List Effect
broadcast e msg = write_all (sign_msg e msg) e.conns

-- A peer as AddDirectConnection registers it
abbrev pub direct_peer : NodeId → Conn → Peer
direct_peer id conn = record {
  id = id;
  pub_key = [];
  addr = conn.remote_addr;
  state = peer_alive;
  version = 0;
  last_seen = 0;
  direct_nets = [];
}

unfoldable pub add_direct_connection : ℕ → NodeId → Conn → Engine → Engine × List Effect
add_direct_connection now id conn e =
    let e' = record e {
      conns = put id conn e.conns;
      peers = (add_or_update now (direct_peer id conn) e.peers).1;
    } in
    let msg = sign_msg e' (build_gossip_push e') in
    (e', if conn.writes msg then written id msg ∷ [] else [])

abbrev pub remove_direct_connection : NodeId → Engine → Engine
remove_direct_connection id e = record e { conns = delete id e.conns }

-- The MsgGossipPush case of HandleMessage
abbrev pub handle_push_message : ℕ → List ℕ → Engine → Bool × (Engine × List Effect)
handle_push_message now bytes e = elim (decode_gossip_push bytes) [
  | ok entries ↦
      let (pm, out) = handle_push now e.self_id entries e.peers in
      (true, (record e { peers = pm }, out))
  | err x ↦ (true, (e, []))
  | panic ↦ (true, (e, []))
]

-- HandleMessage: whether the message was handled, and what it did.
unfoldable pub handle_message : ℕ → NodeId → List ℕ → Engine → Bool × (Engine × List Effect)
handle_message now from [] e = (false, (e, []))
handle_message now from (t ∷ bytes) e =
    if eqb t msg_gossip_push
    then handle_push_message now (t ∷ bytes) e
    else if eqb t msg_gossip_pull
    then (true, (e, (send_to e from (build_gossip_push e)).1))
    else if eqb t msg_ping
    then (true, (e, (send_to e from encode_pong).1))
    else if eqb t msg_pong
    then (true, (record e { peers = mark_alive now from e.peers }, []))
    else (false, (e, []))

abbrev push_to : Engine → List Peer → List Effect
push_to e [] = []
push_to e (target ∷ targets) = (send_to e target.id (build_gossip_push e)).1 ++ push_to e targets

unfoldable pub push_to_random : ℕ → Engine → List Effect × ℕ
push_to_random s e =
    let (targets, s') = get_random e.config.fanout zero_id s e.peers in (push_to e targets, s')

-- The probed peer's part of probeRandomPeer. It returns the peer, if the wait for its answer begins.
abbrev pub probe : Peer → Engine → Option NodeId × (Engine × List Effect)
probe target e = elim (get target.id e.conns) [
  | none ↦ (none, (e, []))
  | some conn ↦
      let ping = sign_msg e encode_ping in
      if conn.writes ping
      then (some target.id, (e, written target.id ping ∷ []))
      else (none, (record e { peers = mark_suspect target.id e.peers }, []))
]

abbrev probe_at : Option Peer → Engine → Option NodeId × (Engine × List Effect)
probe_at none e = (none, (e, []))
probe_at (some target) e = probe target e

unfoldable pub probe_random_peer : ℕ → Engine → (Option NodeId × (Engine × List Effect)) × ℕ
probe_random_peer s e =
    let alive = get_alive e.peers in
    let s' = fast_rand s in
    if eqb (length alive) 0
    then ((none, (e, [])), s)
    else (probe_at (get_elem? alive (s' % length alive)) e, s')

abbrev pub is_silent : ℕ → ℕ → Peer → Bool
is_silent now timeout p = eqb p.state peer_alive && ltb timeout (now - p.last_seen)

-- The timer of a probe, when it fires
unfoldable pub probe_expired : ℕ → NodeId → Engine → Engine
probe_expired now id e = elim (get_peer id e.peers) [
  | none ↦ e
  | some p ↦
      if is_silent now e.config.peer_timeout p
      then record e { peers = mark_suspect id e.peers }
      else e
]
