-- ===== src/Gossip/Engine/Knowledge.antt =====
-- What a node learns from the pushes of another: HandleMessage of gossip/gossip.go.
use magic_tun.Base.{
  ℕ, ◌^◌, ◌≤◌, ◌<◌, ◌≡◌, refl, ◌∙◌, inl, inr, false, ◌&&◌, some, List, [], ◌∷◌, arith, ok, eqb,
  length, All, In, Bool-cases, Option-cases, Result-cases, bytes_eq, bytes_beq_iff, ◌==◌,
}
use magic_tun.Identity.{NodeId, equal}
use magic_tun.Wire.{msg_gossip_push, msg_gossip_pull, msg_ping, msg_pong}
use magic_tun.Wire.Gossip.{PeerEntry, encode_gossip_push, decode_gossip_push}
use magic_tun.Wire.Gossip.RoundTrip.{IsPeerEntry, decode_gossip_push-encode_gossip_push}
use magic_tun.Gossip.Peer.{Peer, PeerManager, supersedes, add_or_update, get_peer, mark_alive}
use magic_tun.Gossip.Peer.Views.{accepts, stored, get_peer-add_or_update}
use magic_tun.Gossip.Peer.Invariant.{
  IsManager, revives, step, step-IsManager, add_or_update-IsManager,
}
use magic_tun.Gossip.Engine.{
  Engine, peer_of, handle_entry, handle_push, push_entries, build_gossip_push, handle_message,
  handle_push_message,
}

-- The peer is known, at a version that is at least `v`.
abbrev pub IsKnownAt : ℕ → NodeId → PeerManager → Type 0
IsKnownAt v id pm = (q : Peer) × (get_peer id pm ≡ some q) × (v ≤ q.version)

add_or_update-IsKnownAt :
    (now v : ℕ) (p : Peer) (j : NodeId) (pm : PeerManager)
    → IsKnownAt v j pm
    → IsKnownAt v j (add_or_update now p pm).1
add_or_update-IsKnownAt now v p j pm (q, e, h) = elim (Bool-cases (accepts p pm && p.id == j)) [
  | inl yes_news ↦ (
    stored now p (get_peer p.id pm),
    ground (arith, get_peer-add_or_update now p pm j, bytes_beq_iff p.id j),
    ground (arith, bytes_beq_iff p.id j),
  )
  | inr other ↦ (q, ground (arith, get_peer-add_or_update now p pm j), h)
]

add_or_update-IsKnownAt_self :
    (now : ℕ) (p : Peer) (pm : PeerManager)
    → equal p.id pm.self_id ≡ false
    → IsKnownAt 0 p.id pm
    → IsKnownAt p.version p.id (add_or_update now p pm).1
add_or_update-IsKnownAt_self now p pm other (q, e, h) = elim (Bool-cases (supersedes p q)) [
  | inl yes_news ↦ (
    stored now p (get_peer p.id pm),
    ground (arith, get_peer-add_or_update now p pm p.id, bytes_beq_iff p.id p.id),
    ground (arith, e),
  )
  | inr old ↦ (q, ground (arith, get_peer-add_or_update now p pm p.id, e), ground arith)
]

add_or_update-IsKnownAt_new :
    (now : ℕ) (p : Peer) (pm : PeerManager)
    → equal p.id pm.self_id ≡ false
    → IsKnownAt 0 p.id (add_or_update now p pm).1
add_or_update-IsKnownAt_new now p pm other = elim (Option-cases (get_peer p.id pm)) [
  | inl e ↦ (
    stored now p (get_peer p.id pm),
    ground (arith, get_peer-add_or_update now p pm p.id, bytes_beq_iff p.id p.id),
    omega arith,
  )
  | inr (q, e) ↦ add_or_update-IsKnownAt now 0 p p.id pm (q, e, omega arith)
]

add_or_update-self_id :
    (now : ℕ) (p : Peer) (pm : PeerManager) → (add_or_update now p pm).1.self_id ≡ pm.self_id
unfolding add_or_update
add_or_update-self_id now p pm = ground arith

handle_entry-self_id :
    (now : ℕ) (self_id : NodeId) (entry : PeerEntry) (pm : PeerManager)
    → (handle_entry now self_id entry pm).0.self_id ≡ pm.self_id
unfolding handle_entry
handle_entry-self_id now self_id entry pm =
    ground (arith, add_or_update-self_id now (peer_of entry) pm)

handle_entry-IsKnownAt :
    (now v : ℕ) (self_id j : NodeId) (entry : PeerEntry) (pm : PeerManager)
    → IsKnownAt v j pm
    → IsKnownAt v j (handle_entry now self_id entry pm).0
unfolding handle_entry
handle_entry-IsKnownAt now v self_id j entry pm h = elim (Bool-cases (equal entry.id self_id)) [
  | inl own ↦ rw (own, handle_entry) h
  | inr other ↦ rw (other, handle_entry) (add_or_update-IsKnownAt now v (peer_of entry) j pm h)
]

handle_push-IsKnownAt :
    (now v : ℕ) (self_id j : NodeId) (entries : List PeerEntry) (pm : PeerManager)
    → IsKnownAt v j pm
    → IsKnownAt v j (handle_push now self_id entries pm).0
unfolding handle_push
handle_push-IsKnownAt now v self_id j [] pm h = h
handle_push-IsKnownAt now v self_id j (entry ∷ entries) pm h =
    handle_push-IsKnownAt now v self_id j entries (handle_entry now self_id entry pm).0
      (handle_entry-IsKnownAt now v self_id j entry pm h)

handle_entry_lem :
    (now : ℕ) (self_id : NodeId) (entry : PeerEntry) (pm : PeerManager)
    → pm.self_id ≡ self_id
    → equal entry.id self_id ≡ false
    → IsKnownAt 0 entry.id (handle_entry now self_id entry pm).0
      × (IsKnownAt 0 entry.id pm
          → IsKnownAt entry.version entry.id (handle_entry now self_id entry pm).0)
unfolding handle_entry
handle_entry_lem now self_id entry pm same other =
    let other' : equal entry.id pm.self_id ≡ false = rw same other in
    rw (other, handle_entry)
      (
        add_or_update-IsKnownAt_new now (peer_of entry) pm other',
        λ h. add_or_update-IsKnownAt_self now (peer_of entry) pm other' h,
      )

-- After a push, a node knows every peer that an entry of it describes, itself excepted; and a peer that
-- it knew before is known at no lower a version than the entry's.
pub handle_push_lem :
    (now : ℕ) (self_id : NodeId) (entries : List PeerEntry) (pm : PeerManager) (entry : PeerEntry)
    → pm.self_id ≡ self_id
    → In entry entries
    → equal entry.id self_id ≡ false
    → IsKnownAt 0 entry.id (handle_push now self_id entries pm).0
      × (IsKnownAt 0 entry.id pm
          → IsKnownAt entry.version entry.id (handle_push now self_id entries pm).0)
unfolding handle_push
handle_push_lem now self_id [] pm entry same i other = absurd i
handle_push_lem now self_id (x ∷ entries) pm entry same (inl e) other =
    let pm' = (handle_entry now self_id x pm).0 in
    let (new, old) = handle_entry_lem now self_id x pm same (rw (← e) other) in
    rw e (
      handle_push-IsKnownAt now 0 self_id x.id entries pm' new,
      λ h. handle_push-IsKnownAt now x.version self_id x.id entries pm' (old h),
    )
handle_push_lem now self_id (x ∷ entries) pm entry same (inr i) other =
    let pm' = (handle_entry now self_id x pm).0 in
    let (new, old) =
      handle_push_lem now self_id entries pm' entry (handle_entry-self_id now self_id x pm ∙ same) i
        other in
    (new, λ h. old (handle_entry-IsKnownAt now 0 self_id entry.id x pm h))

handle_push_message_ok :
    (now : ℕ) (bytes : List ℕ) (entries : List PeerEntry) (e : Engine)
    → decode_gossip_push bytes ≡ ok entries
    → (handle_push_message now bytes e).1.0.peers ≡ (handle_push now e.self_id entries e.peers).0
handle_push_message_ok now bytes entries e read = rw (read, handle_push_message) refl

pub handle_message_push :
    (now : ℕ) (from : NodeId) (entries : List PeerEntry) (e : Engine)
    → decode_gossip_push (encode_gossip_push entries) ≡ ok entries
    → (handle_message now from (encode_gossip_push entries) e).1.0.peers
      ≡ (handle_push now e.self_id entries e.peers).0
unfolding handle_message encode_gossip_push
handle_message_push now from entries e read =
    handle_push_message_ok now (encode_gossip_push entries) entries e read

-- Two nodes a and b: when b handles the push that a builds, b learns of a itself and of every peer that
-- a knows, b excepted; and what b already knew of such a peer is now at no lower a version than a's. The
-- condition is that a's entries fit the format: fewer than 65536, each with 16 bytes of identifier, 32 of
-- key, a 64-bit version and fewer than 256 bytes of address.
pub handle_message-build_gossip_push :
    (now : ℕ) (a b : Engine) (from : NodeId) (entry : PeerEntry)
    → length (push_entries a) < 2 ^ 16
    → All IsPeerEntry (push_entries a)
    → b.peers.self_id ≡ b.self_id
    → In entry (push_entries a)
    → equal entry.id b.self_id ≡ false
    → IsKnownAt 0 entry.id (handle_message now from (build_gossip_push a) b).1.0.peers
      × (IsKnownAt 0 entry.id b.peers
          → IsKnownAt entry.version entry.id
              (handle_message now from (build_gossip_push a) b).1.0.peers)
unfolding handle_message build_gossip_push
handle_message-build_gossip_push now a b from entry small fit same i other =
    let read = decode_gossip_push-encode_gossip_push (push_entries a) small fit in
    let got = handle_push_lem now b.self_id (push_entries a) b.peers entry same i other in
    rw (handle_message_push now from (push_entries a) b read) got

handle_entry-IsManager :
    (now : ℕ) (self_id : NodeId) (entry : PeerEntry) (pm : PeerManager)
    → IsManager pm
    → IsManager (handle_entry now self_id entry pm).0
unfolding handle_entry
handle_entry-IsManager now self_id entry pm h = elim (Bool-cases (equal entry.id self_id)) [
  | inl own ↦ rw (own, handle_entry) h
  | inr other ↦ rw (other, handle_entry) (add_or_update-IsManager now (peer_of entry) pm h)
]

handle_push-IsManager :
    (now : ℕ) (self_id : NodeId) (entries : List PeerEntry) (pm : PeerManager)
    → IsManager pm
    → IsManager (handle_push now self_id entries pm).0
      × ((handle_push now self_id entries pm).0.self_id ≡ pm.self_id)
unfolding handle_push
handle_push-IsManager now self_id [] pm h = (h, refl)
handle_push-IsManager now self_id (entry ∷ entries) pm h =
    let pm' = (handle_entry now self_id entry pm).0 in
    let (good, same) =
      handle_push-IsManager now self_id entries pm'
        (handle_entry-IsManager now self_id entry pm h) in
    (good, same ∙ handle_entry-self_id now self_id entry pm)

mark_alive-self_id :
    (now : ℕ) (id : NodeId) (pm : PeerManager) → (mark_alive now id pm).self_id ≡ pm.self_id
unfolding mark_alive
mark_alive-self_id now id pm = ground arith

mark_alive-IsManager :
    (now : ℕ) (id : NodeId) (pm : PeerManager) → IsManager pm → IsManager (mark_alive now id pm)
unfolding step
mark_alive-IsManager now id pm h = step-IsManager pm (revives now id) h

handle_push_message-IsManager :
    (now : ℕ) (bytes : List ℕ) (e : Engine)
    → IsManager e.peers
    → IsManager (handle_push_message now bytes e).1.0.peers
      × ((handle_push_message now bytes e).1.0.peers.self_id ≡ e.peers.self_id)
handle_push_message-IsManager now bytes e h = elim (Result-cases (decode_gossip_push bytes)) [
  | inl (entries, q) ↦
      rw (q, handle_push_message) (handle_push-IsManager now e.self_id entries e.peers h)
  | inr (inl (x, q)) ↦ rw (q, handle_push_message) (h, refl)
  | inr (inr q) ↦ rw (q, handle_push_message) (h, refl)
]

-- Whatever message arrives, the node's own identifiers stay, and the peers stay well-formed: each under
-- its own identifier, once, and none under this node's.
pub handle_message-IsManager :
    (now : ℕ) (from : NodeId) (bytes : List ℕ) (e : Engine)
    → IsManager e.peers
    → IsManager (handle_message now from bytes e).1.0.peers
      × ((handle_message now from bytes e).1.0.peers.self_id ≡ e.peers.self_id)
unfolding handle_message
handle_message-IsManager now from [] e h = (h, refl)
handle_message-IsManager now from (t ∷ bytes) e h = elim (Bool-cases (eqb t msg_gossip_push)) [
  | inl a ↦ rw (a, handle_message) (handle_push_message-IsManager now (t ∷ bytes) e h)
  | inr a ↦
      rw (a, handle_message)
        (elim (Bool-cases (eqb t msg_gossip_pull)) [
          | inl b ↦ rw b (h, refl)
          | inr b ↦ rw b (elim (Bool-cases (eqb t msg_ping)) [
            | inl c ↦ rw c (h, refl)
            | inr c ↦ rw c (elim (Bool-cases (eqb t msg_pong)) [
              | inl d ↦
                  rw d
                    (mark_alive-IsManager now from e.peers h, mark_alive-self_id now from e.peers)
              | inr d ↦ rw d (h, refl)
            ])
          ])
        ])
]
