-- ===== src/Gossip/Peer.antt =====
-- gossip/peer.go. The map is keyed by the hexadecimal text of an identifier, which determines it
-- (Identity.Hex), so the model's keys are the identifiers. Every update stores a new copy of a peer:
-- peers are values. `now` is what time.Now returns.
pub mod Views
pub mod Invariant
pub mod Distinct
pub mod Random
use Prim.Native.Nat.{bit_xor}
use magic_tun.Base.{
  ℕ, zero, suc, ◌+◌, ◌-◌, ◌*◌, ◌/◌, ◌%◌, ◌^◌, Bool, true, false, not, ◌&&◌, ◌||◌, Option, none,
  some, List, [], ◌∷◌, map, if◌then◌else◌, eqb, ltb, leb, length, take, keep, get_elem?, set,
  bytes_eq, get, put, delete,
}
use magic_tun.Identity.{NodeId, equal}
use magic_tun.Wire.Gossip.{peer_alive, peer_suspect, peer_dead}

pub record Peer : Type 0 where
  pub id : NodeId
  pub pub_key : List ℕ
  pub addr : List ℕ
  pub state : ℕ
  pub version : ℕ
  pub last_seen : ℕ
  pub direct_nets : List (List ℕ)

pub record PeerManager : Type 0 where
  pub peers : List (NodeId × Peer)
  pub self_id : NodeId

abbrev pub new_peer_manager : NodeId → PeerManager
new_peer_manager self_id = record { peers = []; self_id = self_id }

-- `if len(p.PubKey) > 0 { cp.PubKey = p.PubKey }`
abbrev pub newer_key : List ℕ → List ℕ → List ℕ
newer_key [] old = old
newer_key (b ∷ bs) old = b ∷ bs

-- A peer that is met for the first time
abbrev pub first_copy : ℕ → Peer → Peer
first_copy now p = record p { last_seen = now; version = 1 }

-- The update of a known peer
abbrev pub updated : ℕ → Peer → Peer → Peer
updated now p existing = record existing {
  state = p.state;
  version = p.version;
  addr = p.addr;
  last_seen = now;
  direct_nets = p.direct_nets;
  pub_key = newer_key p.pub_key existing.pub_key;
}

abbrev pub supersedes : Peer → Peer → Bool
supersedes p existing =
    ltb existing.version p.version || (eqb p.version existing.version && eqb p.state peer_alive)

unfoldable pub add_or_update : ℕ → Peer → PeerManager → Bool × PeerManager
add_or_update now p pm = if equal p.id pm.self_id then (false, pm) else elim (get p.id pm.peers) [
  | none ↦ (true, record pm { peers = put p.id (first_copy now p) pm.peers })
  | some existing ↦
      if supersedes p existing
      then (true, record pm { peers = put p.id (updated now p existing) pm.peers })
      else (false, pm)
]

unfoldable pub remove : NodeId → PeerManager → PeerManager
remove id pm = record pm { peers = delete id pm.peers }

-- Get
abbrev pub get_peer : NodeId → PeerManager → Option Peer
get_peer id pm = get id pm.peers

abbrev pub values : List (NodeId × Peer) → List Peer
values = map (λ kv. kv.1)

abbrev pub get_alive : PeerManager → List Peer
get_alive pm = keep (λ p. eqb p.state peer_alive) (values pm.peers)

abbrev pub get_all : PeerManager → List Peer
get_all pm = values pm.peers

-- `cp.Version++` on a uint64
abbrev pub next_version : ℕ → ℕ
next_version v = (v + 1) % 2 ^ 64

unfoldable pub mark_suspect : NodeId → PeerManager → PeerManager
mark_suspect id pm = elim (get id pm.peers) [
  | none ↦ pm
  | some p ↦
      if eqb p.state peer_alive
      then record pm {
        peers =
            put id (record p { state = peer_suspect; version = next_version p.version }) pm.peers;
      }
      else pm
]

unfoldable pub mark_dead : NodeId → PeerManager → PeerManager
mark_dead id pm = elim (get id pm.peers) [
  | none ↦ pm
  | some p ↦ record pm {
    peers = put id (record p { state = peer_dead; version = next_version p.version }) pm.peers;
  }
]

unfoldable pub mark_alive : ℕ → NodeId → PeerManager → PeerManager
mark_alive now id pm = elim (get id pm.peers) [
  | none ↦ pm
  | some p ↦ record pm {
    peers = put id (record p { state = peer_alive; last_seen = now }) pm.peers;
  }
]

-- Count
abbrev pub count_state : ℕ → PeerManager → ℕ
count_state state pm = length (keep (λ p. eqb p.state state) (values pm.peers))

-- fastRand: the next state of the generator, which is also the number that it returns. A shift to the
-- left is cut to 32 bits.
unfoldable pub fast_rand : ℕ → ℕ
fast_rand s =
    let a = bit_xor s (s * 2 ^ 13 % 2 ^ 32) in
    let b = bit_xor a (a / 2 ^ 17) in bit_xor b (b * 2 ^ 5 % 2 ^ 32)

abbrev pub swap_values {ℓ} : {A : Type ℓ} → List A → ℕ → ℕ → Option A → Option A → List A
swap_values xs i j (some a) (some b) = set (set xs i b) j a
swap_values xs i j none b = xs
swap_values xs i j (some a) none = xs

-- result[i], result[j] = result[j], result[i]
unfoldable pub swap {ℓ} : {A : Type ℓ} → List A → ℕ → ℕ → List A
swap xs i j = swap_values xs i j (get_elem? xs i) (get_elem? xs j)

-- `for i := len(result) - 1; i > 0; i--`, with the generator's state
unfoldable pub shuffle {ℓ} : {A : Type ℓ} → ℕ → ℕ → List A → List A × ℕ
unfolding swap
shuffle zero s xs = (xs, s)
shuffle (suc i) s xs = shuffle i (fast_rand s) (swap xs (suc i) (fast_rand s % (i + 2)))

-- The candidates of GetRandom
abbrev pub candidates : NodeId → PeerManager → List Peer
candidates exclude pm =
    keep (λ p. eqb p.state peer_alive && not (equal p.id exclude)) (values pm.peers)

-- GetRandom, with the state of the generator
unfoldable pub get_random : ℕ → NodeId → ℕ → PeerManager → List Peer × ℕ
unfolding shuffle
get_random n exclude s pm =
    let alive = candidates exclude pm in
    if leb (length alive) n
    then (alive, s)
    else (let (result, s') = shuffle (length alive - 1) s alive in (take n result, s'))
