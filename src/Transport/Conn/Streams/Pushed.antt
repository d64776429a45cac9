-- ===== src/Transport/Conn/Streams/Pushed.antt =====
-- What one data frame of readLoop, in transport/conn.go, does to the streams of a connection.
use magic_tun.Base.{
  ℕ, ◌+◌, ◌≤◌, ◌≡◌, refl, sym, ap, ◌∙◌, ◌⊎◌, inl, inr, false, Option, none, some, List, [], ◌∷◌,
  ◌++◌, arith, eqb, eqb_iff, length, All, Bool-cases, nat_eq, get, get_elem?, set, length-append,
  subst,
}
use magic_tun.Transport.Frame.{Frame}
use magic_tun.Transport.Conn.{Stream, Conn, push}
use magic_tun.Transport.Conn.Reading.{pushed, get_elem?-set_self, get_elem?-set_other}
use magic_tun.Transport.Conn.Streams.{payloads, IsStream, IsFor, HasRoom}

abbrev stream_or : Stream → Option Stream → Stream
stream_or d none = d
stream_or d (some s) = s

abbrev ref_or : Option ℕ → ℕ
ref_or none = 0
ref_or (some n) = n

pub same_ref : (o : Option ℕ) (a b : ℕ) → o ≡ some a → o ≡ some b → a ≡ b
same_ref o a b p q = ap ref_or (sym p ∙ q)

pub same_stream : (o : Option Stream) (s t : Stream) → o ≡ some s → o ≡ some t → s ≡ t
same_stream o s t p q = ap (stream_or s) (sym p ∙ q)

module _ (payload : List ℕ) (id ref : ℕ) (s : Stream) (c : Conn) (at : IsStream c id ref s) where
  -- What a pushed frame does to the streams
  pushed_same : IsStream (pushed payload ref s c) id ref (push payload s)
  pushed_same = (at.0, get_elem?-set_self c.store ref s (push payload s) at.1, at.2)

  pushed_other :
      (j k : ℕ) (t : Stream)
      → ¬ (id ≡ j)
      → IsStream c j k t
      → IsStream (pushed payload ref s c) j k t
  pushed_other j k t other (e, g, own) = (
    e,
    get_elem?-set_other c.store ref k (push payload s) (λ q. other (
          sym at.2
          ∙ ap (λ (x : Stream). x.id) (same_stream (get_elem? c.store k) s t (rw q at at.1) g)
          ∙ own))
        ∙ g,
    own,
  )

  -- A stream after the push is the pushed one, or one from before it.
  pushed_inv :
      (j k : ℕ) (t : Stream)
      → get j c.streams ≡ some k
      → get_elem? (pushed payload ref s c).store k ≡ some t
      → ((k ≡ ref) × (t ≡ push payload s)) ⊎ ((¬ (ref ≡ k)) × (get_elem? c.store k ≡ some t))
  pushed_inv j k t e g = elim (Bool-cases (eqb ref k)) [
    | inl same ↦
        let q : ref ≡ k = (eqb_iff ref k).0 same in
        let here = get_elem?-set_self c.store ref s (push payload s) at.1 in
        inl (
          sym q,
          same_stream (get_elem? (set c.store ref (push payload s)) k) t (push payload s) g
              (ap (λ (n : ℕ). get_elem? (set c.store ref (push payload s)) n) (sym q) ∙ here),
        )
    | inr other ↦
        let n : ¬ (ref ≡ k) = λ q. cc (sym other ∙ (eqb_iff ref k).1 q) in
        inr (n, sym (get_elem?-set_other c.store ref k (push payload s) n) ∙ g)
  ]

pub length-snoc : (xs : List (List ℕ)) (x : List ℕ) → length (xs ++ x ∷ []) ≡ length xs + 1
length-snoc xs x = omega (arith, length-append xs (x ∷ []))

payloads_rest :
    (id : ℕ) (f : Frame) (fs : List Frame) → length (payloads id fs) ≤ length (payloads id (f ∷ fs))
payloads_rest id f fs = ground arith

pub payloads_self :
    (f : Frame) (fs : List Frame)
    → payloads f.stream_id (f ∷ fs) ≡ f.payload ∷ payloads f.stream_id fs
payloads_self f fs = rw ((eqb_iff f.stream_id f.stream_id).1 refl) refl

pub payloads_other :
    (id : ℕ) (f : Frame) (fs : List Frame)
    → eqb f.stream_id id ≡ false
    → payloads id (f ∷ fs) ≡ payloads id fs
payloads_other id f fs e = rw e refl

module _ (f : Frame) (fs : List Frame) (ref : ℕ) (s : Stream) (c : Conn)
    (at : IsStream c f.stream_id ref s) (h : HasRoom (f ∷ fs) c) where
  pub frame_kept :
      (j k : ℕ) (t : Stream)
      → IsStream c j k t
      → ((f.stream_id ≡ j) × IsStream (pushed f.payload ref s c) j ref (push f.payload s))
        ⊎ ((eqb f.stream_id j ≡ false) × IsStream (pushed f.payload ref s c) j k t)
  frame_kept j k t here = elim (Bool-cases (eqb f.stream_id j)) [
    | inl same ↦
        let q : f.stream_id ≡ j = (eqb_iff f.stream_id j).0 same in
        inl (
          q,
          subst (λ (n : ℕ). IsStream (pushed f.payload ref s c) n ref (push f.payload s)) q
              (pushed_same f.payload f.stream_id ref s c at),
        )
    | inr other ↦
        let n : ¬ (f.stream_id ≡ j) = λ q. cc (sym other ∙ (eqb_iff f.stream_id j).1 q) in
        inr (other, pushed_other f.payload f.stream_id ref s c at j k t n here)
  ]

  frames_kept : (gs : List Frame) → All (IsFor c) gs → All (IsFor (pushed f.payload ref s c)) gs
  frames_kept [] hs = tt
  frames_kept (g ∷ gs) ((typed, (k, t, here)), hs) = elim (frame_kept g.stream_id k t here) [
    | inl (e, there) ↦ ((typed, (ref, push f.payload s, there)), frames_kept gs hs)
    | inr (e, there) ↦ ((typed, (k, t, there)), frames_kept gs hs)
  ]

  own_kept :
      (j k : ℕ) (t : Stream)
      → get j c.streams ≡ some k
      → get_elem? (pushed f.payload ref s c).store k ≡ some t
      → t.id ≡ j
  own_kept j k t e g = elim (pushed_inv f.payload f.stream_id ref s c at j k t e g) [
    | inl (here, same) ↦
        let q : s.id ≡ j = h.own j ref s (e ∙ ap some here) at.1 in
        ap (λ (x : Stream). x.id) same ∙ q
    | inr (other, g') ↦ h.own j k t e g'
  ]

  room_self : length (push f.payload s).read_ch + length (payloads f.stream_id fs) ≤ s.cap
  room_self =
      let before = h.room f.stream_id ref s at in
      let counted = ap (length {A = List ℕ}) (payloads_self f fs) in
      omega (arith, length-snoc s.read_ch f.payload)

  room_kept :
      (j k : ℕ) (t : Stream)
      → IsStream (pushed f.payload ref s c) j k t
      → length t.read_ch + length (payloads j fs) ≤ t.cap
  room_kept j k t (e, g, own) = elim (pushed_inv f.payload f.stream_id ref s c at j k t e g) [
    | inl (here, same) ↦
        let q : f.stream_id ≡ j = sym at.2 ∙ h.own j ref s (e ∙ ap some here) at.1 in
        rw same (rw (← q) room_self)
    | inr (other, g') ↦ omega (arith, h.room j k t (e, g', own), payloads_rest j f fs)
  ]

  pub HasRoom-pushed : HasRoom fs (pushed f.payload ref s c)
  HasRoom-pushed = record {
    is_open = h.is_open;
    frames = frames_kept fs h.frames.1;
    own = own_kept;
    room = room_kept;
  }
