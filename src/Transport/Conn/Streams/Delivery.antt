-- ===== src/Transport/Conn/Streams/Delivery.antt =====
-- What the data frames that readLoop of transport/conn.go reads do to the streams of a connection.
use magic_tun.Base.{
  ℕ, suc, ◌<◌, ◌≡◌, refl, sym, ap, ◌∙◌, inl, inr, List, [], ◌∷◌, ◌++◌, arith, eqb_iff, length,
  append_assoc, append-nil, nat_eq, get, get_elem?,
}
use magic_tun.Transport.Frame.{Frame}
use magic_tun.Transport.Conn.{Picks, Stream, Conn, done, push}
use magic_tun.Transport.Conn.Reading.{flat, pending, pushed, handle_frame_push, pending-push}
use magic_tun.Transport.Conn.Streams.{handle_frames, payloads, IsStream, HasRoom, HasReceived}
use magic_tun.Transport.Conn.Streams.Pushed.{
  same_ref, same_stream, payloads_self, payloads_other, frame_kept, HasRoom-pushed,
}

module _ (f : Frame) (fs : List Frame) (ref : ℕ) (s : Stream) (c c' : Conn)
    (at : IsStream c f.stream_id ref s) (h : HasRoom (f ∷ fs) c)
    (later : HasReceived fs (pushed f.payload ref s c) c') where
  received_first : HasReceived (f ∷ fs) c c'
  received_first j k t here = elim (frame_kept f fs ref s c at h j k t here) [
    | inl (e, there) ↦
        let (got, at', bytes) = later j ref (push f.payload s) there in
        let q : ref ≡ k = same_ref (get j c.streams) ref k there.0 here.0 in
        let same : s ≡ t = same_stream (get_elem? c.store k) s t (rw q at at.1) here.1 in
        let first = (eqb_iff f.stream_id j).1 e in
        let rest = flat (payloads j fs) in
        (
          got,
          rw (← q) at',
          rw (← same) (
              rw first (
                bytes
                ∙ ap (λ (xs : List ℕ). xs ++ rest) (pending-push f.payload s)
                ∙ append_assoc (pending s) f.payload rest)),
        )
    | inr (e, there) ↦
        let (got, at', bytes) = later j k t there in (got, at', rw (payloads_other j f fs e) bytes)
  ]

-- Data frames of several streams of an open connection, in any order: if each stream has room in its
-- channel for its frames, the read loop delivers them all without waiting, and every stream then has
-- pending what it had before and behind that the payloads of its own frames, in their order, and nothing
-- else.
pub handle_frames-HasReceived :
    (picks : ℕ → Picks) (fs : List Frame) (c : Conn)
    → HasRoom fs c
    → (c' : Conn) × (handle_frames picks fs c ≡ done c') × HasReceived fs c c'
unfolding handle_frames
handle_frames-HasReceived picks [] c h =
    (c, refl, (λ id ref s at. (s, at, sym (append-nil (pending s)))))
handle_frames-HasReceived picks (f ∷ fs) c h =
    let (typed, (ref, s, at)) = h.frames.0 in
    let counted = ap (length {A = List ℕ}) (payloads_self f fs) in
    let low : length s.read_ch < s.cap = omega (arith, h.room f.stream_id ref s at) in
    let (c', handled, later) =
      handle_frames-HasReceived (λ i. picks (suc i)) fs (pushed f.payload ref s c)
        (HasRoom-pushed f fs ref s c at h) in
    (
      c',
      rw (handle_frame_push (picks 0) f c ref s h.is_open at.0 at.1 typed low) handled,
      received_first f fs ref s c c' at h later,
    )
