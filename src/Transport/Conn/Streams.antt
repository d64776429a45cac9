-- ===== src/Transport/Conn/Streams.antt =====
-- The streams of one connection side by side: readLoop of transport/conn.go, frame after frame.
pub mod Pushed
pub mod Delivery
use magic_tun.Base.{
  ℕ, suc, ◌+◌, ◌≤◌, ◌<◌, ◌≡◌, refl, sym, ap, ◌∙◌, ◌⊎◌, inl, inr, Bool, true, false, Option, none,
  some, List, [], ◌∷◌, ◌++◌, arith, eqb, eqb_iff, if◌then◌else◌, length, All, Bool-cases,
  Option-cases, append_assoc, append-nil, nat_eq, get, get_elem?, set, length-append, subst,
}
use magic_tun.Transport.Frame.{Frame, frame_data}
use magic_tun.Transport.Conn.{Stream, Conn, Wait, done, blocks, stops, Picks, push, handle_frame}
use magic_tun.Transport.Conn.Reading.{
  flat, pending, pushed, handle_frame_push, pending-push, get_elem?-set_self, get_elem?-set_other,
}

-- The turns of readLoop for frames that follow one another
abbrev pub and_then : (Conn → Wait Conn) → Wait Conn → Wait Conn
and_then f (done c) = f c
and_then f blocks = blocks
and_then f (stops c) = stops c

-- With what the selects of each turn take where they may take either
unfoldable pub handle_frames : (ℕ → Picks) → List Frame → Conn → Wait Conn
handle_frames picks [] c = done c
handle_frames picks (f ∷ fs) c =
    and_then (handle_frames (λ i. picks (suc i)) fs) (handle_frame (picks 0) f c)

-- The payloads of the frames of one stream, in their order
abbrev pub payloads : ℕ → List Frame → List (List ℕ)
payloads id [] = []
payloads id (f ∷ fs) =
    let rest = payloads id fs in if eqb f.stream_id id then f.payload ∷ rest else rest

-- The stream `s` is the one of the number `id`, at `ref` of the store.
abbrev pub IsStream : Conn → ℕ → ℕ → Stream → Type 0
IsStream c id ref s = (get id c.streams ≡ some ref) × (get_elem? c.store ref ≡ some s) × (s.id ≡ id)

-- A data frame of a stream of the connection
abbrev pub IsFor : Conn → Frame → Type 0
IsFor c f = (f.type ≡ frame_data) × ((ref : ℕ) × (s : Stream) × IsStream c f.stream_id ref s)

-- The connection is open, the map gives different streams to different numbers, and each has room for
-- its frames.
pub record HasRoom (fs : List Frame) (c : Conn) : Type 0 where
  pub is_open : c.closed ≡ false
  pub frames : All (IsFor c) fs
  pub own :
      (id ref : ℕ) (s : Stream)
      → get id c.streams ≡ some ref
      → get_elem? c.store ref ≡ some s
      → s.id ≡ id
  pub room :
      (id ref : ℕ) (s : Stream)
      → IsStream c id ref s
      → length s.read_ch + length (payloads id fs) ≤ s.cap

-- Each stream has got the payloads of its frames, behind what was pending.
abbrev pub HasReceived : List Frame → Conn → Conn → Type 0
HasReceived fs c c' =
    (id ref : ℕ) (s : Stream)
    → IsStream c id ref s
    → (t : Stream) × IsStream c' id ref t × (pending t ≡ pending s ++ flat (payloads id fs))
