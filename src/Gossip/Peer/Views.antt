-- ===== src/Gossip/Peer/Views.antt =====
-- What each operation of gossip/peer.go does to the record of every peer.
use magic_tun.Base.{
  ℕ, ◌≡◌, refl, List, [], ◌∷◌, length, leb, inl, inr, Bool, true, not, ◌&&◌, Option, none, some,
  arith, if◌then◌else◌, eqb, Option-cases, bytes_eq, bytes_beq_iff, ◌==◌, get, get-put, get-delete,
}
use mathlib.Core.Option
use magic_tun.Identity.{NodeId, equal}
use magic_tun.Wire.Gossip.{peer_alive, peer_suspect, peer_dead}
use magic_tun.Gossip.Peer.{
  Peer, PeerManager, first_copy, updated, newer_key, supersedes, add_or_update, remove, get_peer,
  mark_suspect, mark_dead, mark_alive, next_version,
}

-- Whether AddOrUpdate takes over what it is told of a peer, and the record that it then stores.
abbrev pub is_news : Peer → Option Peer → Bool
is_news p none = true
is_news p (some existing) =
    if eqb p.version existing.version
    then eqb p.state peer_alive
    else leb existing.version p.version

abbrev pub accepts : Peer → PeerManager → Bool
accepts p pm = not (equal p.id pm.self_id) && is_news p (get_peer p.id pm)

abbrev pub told : ℕ → ℕ → List ℕ → Peer → Peer
told now version key p = record {
  id = p.id;
  pub_key = key;
  addr = p.addr;
  state = p.state;
  version = version;
  last_seen = now;
  direct_nets = p.direct_nets;
}

abbrev pub stored : ℕ → Peer → Option Peer → Peer
stored now p none = told now 1 p.pub_key p
stored now p (some existing) =
    told now p.version (if eqb (length p.pub_key) 0 then existing.pub_key else p.pub_key)
      (record p { id = existing.id })

newer_key_lem : (key old : List ℕ) → newer_key key old ≡ (if eqb (length key) 0 then old else key)
newer_key_lem [] old = refl
newer_key_lem (b ∷ bs) old = ground arith

supersedes_lem : (p existing : Peer) → supersedes p existing ≡ is_news p (some existing)
supersedes_lem p existing = ground arith

updated_lem : (now : ℕ) (p existing : Peer) → updated now p existing ≡ stored now p (some existing)
updated_lem now p existing = rw (newer_key_lem p.pub_key existing.pub_key) refl

-- AddOrUpdate changes the record of the peer that it is told of, and no other, and does so exactly if
-- that peer is not this node, and is unknown, or known with a lower version, or with the same version
-- where the news says alive; it returns whether it did. The record then has the address, the state and
-- the networks that it was told, the current time, and the version that it was told, or 1 for a peer
-- that was unknown; a key that it was told replaces an old one, and an empty one does not.
pub get_peer-add_or_update :
    (now : ℕ) (p : Peer) (pm : PeerManager) (j : NodeId)
    → (get_peer j (add_or_update now p pm).1 ≡ (
        if accepts p pm && p.id == j
        then some (stored now p (get_peer p.id pm))
        else get_peer j pm))
      × ((add_or_update now p pm).0 ≡ accepts p pm)
unfolding add_or_update
get_peer-add_or_update now p pm j = elim (Option-cases (get p.id pm.peers)) [
  | inl e ↦ rw (e, add_or_update) (ground (arith, get-put p.id j (first_copy now p) pm.peers))
  | inr (existing, e) ↦
      rw (e, add_or_update, supersedes_lem p existing, updated_lem now p existing)
        (ground (arith, get-put p.id j (stored now p (some existing)) pm.peers))
]

abbrev pub suspected : Peer → Peer
suspected p =
    if eqb p.state peer_alive
    then record p { state = peer_suspect; version = next_version p.version }
    else p

abbrev pub died : Peer → Peer
died p = record p { state = peer_dead; version = next_version p.version }

abbrev pub revived : ℕ → Peer → Peer
revived now p = record p { state = peer_alive; last_seen = now }

-- MarkSuspect, MarkDead and MarkAlive change the record of the one peer that they name, if it is known,
-- and no other: an alive peer becomes suspect, and any peer dead, each under the next version; a revived
-- peer keeps its version. Remove forgets that peer alone.
pub get_peer_marks :
    (now : ℕ) (id j : NodeId) (pm : PeerManager)
    → (get_peer j (mark_suspect id pm)
        ≡ (if id == j then Option.map suspected (get_peer id pm) else get_peer j pm))
      × (get_peer j (mark_dead id pm)
          ≡ (if id == j then Option.map died (get_peer id pm) else get_peer j pm))
      × (get_peer j (mark_alive now id pm)
          ≡ (if id == j then Option.map (revived now) (get_peer id pm) else get_peer j pm))
      × (get_peer j (remove id pm) ≡ (if id == j then none else get_peer j pm))
unfolding mark_suspect mark_dead mark_alive remove
get_peer_marks now id j pm = elim (Option-cases (get id pm.peers)) [
  | inl e ↦
      let absent : get j pm.peers ≡ (if id == j then none else get j pm.peers) =
        ground (arith, e, bytes_beq_iff id j) in
      rw (e, mark_suspect, mark_dead, mark_alive) (absent, absent, absent, get-delete id j pm.peers)
  | inr (p, e) ↦
      rw (e, mark_suspect, mark_dead, mark_alive)
        (
          ground (arith, e, bytes_beq_iff id j, get-put id j (suspected p) pm.peers),
          get-put id j (died p) pm.peers,
          get-put id j (revived now p) pm.peers,
          get-delete id j pm.peers,
        )
]
