-- ===== src/Gossip/Peer/Invariant.antt =====
-- What the operations of gossip/peer.go keep.
use magic_tun.Base.{
  ℕ, ◌+◌, ◌^◌, ◌≤◌, ◌<◌, ◌≡◌, refl, ◌∙◌, inl, inr, false, some, List, [], ◌∷◌, arith, eqb, All,
  Bool-cases, Option-cases, bytes_eq, bytes_beq_iff, get, put, HasDistinctKeys, put-HasDistinctKeys,
  delete-HasDistinctKeys, All-get, All-put, All-delete,
}
use magic_tun.Identity.{NodeId, equal}
use magic_tun.Wire.Gossip.{peer_alive}
use magic_tun.Gossip.Peer.{
  Peer, PeerManager, first_copy, updated, supersedes, add_or_update, remove, get_peer, mark_suspect,
  mark_dead, mark_alive,
}
use magic_tun.Gossip.Peer.Views.{get_peer-add_or_update, get_peer_marks}

-- Each peer stands under its own identifier, which is not this node's.
abbrev pub IsKnown : NodeId → NodeId × Peer → Type 0
IsKnown self (k, p) = (p.id ≡ k) × (equal k self ≡ false)

pub record IsManager (pm : PeerManager) : Type 0 where
  pub known : All (IsKnown pm.self_id) pm.peers
  pub keys : HasDistinctKeys pm.peers

-- The operations that change the peers.
pub data Op : Type 0 where
  news : ℕ → Peer → Op
  forgets suspects dies : NodeId → Op
  revives : ℕ → NodeId → Op

unfoldable pub step : PeerManager → Op → PeerManager
step pm (news now p) = (add_or_update now p pm).1
step pm (forgets id) = remove id pm
step pm (suspects id) = mark_suspect id pm
step pm (dies id) = mark_dead id pm
step pm (revives now id) = mark_alive now id pm

unfoldable pub run : PeerManager → List Op → PeerManager
run pm [] = pm
run pm (op ∷ ops) = run (step pm op) ops

-- A changed record in the place of a known one.
put-IsManager :
    (pm : PeerManager) (id : NodeId) (p q : Peer)
    → get id pm.peers ≡ some p
    → q.id ≡ p.id
    → IsManager pm
    → IsManager (record pm { peers = put id q pm.peers })
put-IsManager pm id p q e same h =
    let (own, other) = All-get (IsKnown pm.self_id) id p pm.peers h.known e in
    record {
      known = All-put (IsKnown pm.self_id) id q pm.peers (same ∙ own, other) h.known;
      keys = put-HasDistinctKeys id q pm.peers h.keys;
    }

pub add_or_update-IsManager :
    (now : ℕ) (p : Peer) (pm : PeerManager) → IsManager pm → IsManager (add_or_update now p pm).1
unfolding add_or_update
add_or_update-IsManager now p pm h = elim (Bool-cases (equal p.id pm.self_id)) [
  | inl own ↦ rw (own, add_or_update) h
  | inr other ↦
      rw (other, add_or_update)
        (elim (Option-cases (get p.id pm.peers)) [
          | inl e ↦ rw e (record {
            known =
                All-put (IsKnown pm.self_id) p.id (first_copy now p) pm.peers (refl, other) h.known;
            keys = put-HasDistinctKeys p.id (first_copy now p) pm.peers h.keys;
          })
          | inr (existing, e) ↦ rw e (elim (Bool-cases (supersedes p existing)) [
            | inl yes_news ↦
                rw yes_news (put-IsManager pm p.id existing (updated now p existing) e refl h)
            | inr old ↦ rw old h
          ])
        ])
]

-- Every operation keeps each peer under its own identifier, once, and this node out of its own list.
pub step-IsManager : (pm : PeerManager) (op : Op) → IsManager pm → IsManager (step pm op)
unfolding step remove mark_suspect mark_dead mark_alive
step-IsManager pm (news now p) h = add_or_update-IsManager now p pm h
step-IsManager pm (forgets id) h = record {
  known = All-delete (IsKnown pm.self_id) id pm.peers h.known;
  keys = delete-HasDistinctKeys id pm.peers h.keys;
}
step-IsManager pm (suspects id) h = elim (Option-cases (get id pm.peers)) [
  | inl e ↦ rw (e, mark_suspect) h
  | inr (p, e) ↦
      rw (e, mark_suspect)
        (elim (Bool-cases (eqb p.state peer_alive)) [
          | inl alive ↦ rw alive (put-IsManager pm id p _ e refl h)
          | inr other ↦ rw other h
        ])
]
step-IsManager pm (dies id) h = elim (Option-cases (get id pm.peers)) [
  | inl e ↦ rw (e, mark_dead) h
  | inr (p, e) ↦ rw (e, mark_dead) (put-IsManager pm id p _ e refl h)
]
step-IsManager pm (revives now id) h = elim (Option-cases (get id pm.peers)) [
  | inl e ↦ rw (e, mark_alive) h
  | inr (p, e) ↦ rw (e, mark_alive) (put-IsManager pm id p _ e refl h)
]

pub run-IsManager : (pm : PeerManager) (ops : List Op) → IsManager pm → IsManager (run pm ops)
unfolding run
run-IsManager pm [] h = h
run-IsManager pm (op ∷ ops) h = run-IsManager (step pm op) ops (step-IsManager pm op h)

-- As long as it does not wrap at 2^64, the version of a peer that stays known never falls.
pub step_version :
    (pm : PeerManager) (op : Op) (id : NodeId) (p q : Peer)
    → get_peer id pm ≡ some p
    → get_peer id (step pm op) ≡ some q
    → p.version + 1 < 2 ^ 64
    → p.version ≤ q.version
unfolding step
step_version pm (news now n) id p q old new room =
    ground (arith, get_peer-add_or_update now n pm id, bytes_beq_iff n.id id)
step_version pm (forgets x) id p q old new room =
    ground (arith, (get_peer_marks 0 x id pm).3, bytes_beq_iff x id)
step_version pm (suspects x) id p q old new room =
    ground (arith, (get_peer_marks 0 x id pm).0, bytes_beq_iff x id)
step_version pm (dies x) id p q old new room =
    ground (arith, (get_peer_marks 0 x id pm).1, bytes_beq_iff x id)
step_version pm (revives now x) id p q old new room =
    ground (arith, (get_peer_marks now x id pm).2, bytes_beq_iff x id)
