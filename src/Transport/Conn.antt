-- ===== src/Transport/Conn.antt =====
-- transport/conn.go: a connection and its streams. The code shares a stream by its pointer, and one that
-- was closed leaves the map while its reader still holds it; so the model has a store, in which a
-- stream's reference is its position, and the map gives references. A channel is the list of what it
-- holds, with the code's capacity; where the code would block on a full one, `Wait` says so.
pub mod Reading
pub mod Streams
pub mod Opening
pub mod Vacancy
pub mod Accepting
use magic_tun.Base.{
  ℕ, zero, suc, ◌+◌, ◌%◌, ◌^◌, ◌≡◌, ap, Bool, true, false, not, ◌&&◌, Option, none, some, List, [],
  ◌∷◌, ◌++◌, Result, ok, err, if◌then◌else◌, ltb, eqb, length, take, drop, get_elem?, set, nat_eq,
  get, put, delete,
}
use magic_tun.Transport.Frame.{Frame, frame_data, frame_close, control_stream_id, write_frame}
use magic_tun.Transport.Frame

-- A nil payload in a channel is the empty list: ReadFrame makes no empty one.
pub record Stream : Type 0 where
  pub id : ℕ
  pub cap : ℕ
  pub read_ch : List (List ℕ)
  pub buf : List ℕ
  pub closed : Bool

pub record Conn : Type 0 where
  pub store : List Stream
  pub streams : List (ℕ × ℕ)
  pub next_id : ℕ
  pub accept_ch : List ℕ
  pub closed : Bool

-- With the capacity of its channel
abbrev pub new_stream : ℕ → ℕ → Stream
new_stream cap id = record { id = id; cap = cap; read_ch = []; buf = []; closed = false }

-- newConn, without its goroutine
abbrev pub new_conn : Conn
new_conn = record {
  store = new_stream 64 control_stream_id ∷ [];
  streams = (control_stream_id, 0) ∷ [];
  next_id = 1;
  accept_ch = [];
  closed = false;
}

-- `&Stream{…}; c.streams[id] = s`
abbrev pub add_stream : ℕ → Conn → Conn
add_stream id c = record c {
  store = c.store ++ new_stream 16 id ∷ [];
  streams = put id (length c.store) c.streams;
}

-- `c.nextID += 2` on a uint32, and the overflow check
abbrev pub next_odd : ℕ → ℕ
next_odd id = let n = (id + 2) % 2 ^ 32 in if ltb n 2 then 1 else n

-- The loop of OpenStream
unfoldable pub find_id : ℕ → Conn → Option ℕ × Conn
find_id zero c = (none, c)
find_id (suc attempts) c =
    let id = c.next_id in
    let c' = record c { next_id = next_odd id } in
    let rest = find_id attempts c' in
    elim (get id c.streams) [ none ↦ (some (length c.store), add_stream id c') | some _ ↦ rest ]

-- OpenStream: the reference of the new stream, or `none` for an error
unfoldable pub open_stream : Conn → Option ℕ × Conn
open_stream c = if c.closed then (none, c) else find_id 1000 c

-- One select of AcceptStream, where it does not block: a stream that waits
unfoldable pub accept_stream : Conn → Option ℕ × Conn
accept_stream c = elim c.accept_ch [
  | [] ↦ (none, c)
  | ref ∷ refs ↦ (some ref, record c { accept_ch = refs })
]

unfoldable pub modify : (Stream → Stream) → ℕ → Conn → Conn
modify f ref c = elim (get_elem? c.store ref) [
  | none ↦ c
  | some s ↦ record c { store = set c.store ref (f s) }
]

-- A step that goes on, waits for room in a channel, or returns because the connection has ended.
pub data Wait {ℓ} (A : Type ℓ) : Type ℓ where
  done : A → Wait A
  blocks : Wait A
  stops : A → Wait A

abbrev done_or {ℓ} : {A : Type ℓ} → A → Wait A → A
done_or d (done a) = a
done_or d blocks = d
done_or d (stops a) = d

pub done_injective {ℓ} : {A : Type ℓ} {a b : A} → done a ≡ done b → a ≡ b
done_injective {a = a} e = ap (done_or a) e

-- `select { case s.readCh <- nil: default: }`
abbrev pub offer_nil : Stream → Stream
offer_nil s =
    if ltb (length s.read_ch) s.cap then record s { read_ch = s.read_ch ++ [] ∷ [] } else s

-- `s.readCh <- f.Payload`
abbrev pub push : List ℕ → Stream → Stream
push payload s = record s { read_ch = s.read_ch ++ payload ∷ [] }

-- A select between a send, with the step behind it, and `<-c.done`. Where there is room and the
-- connection is closed, Go takes either: `picks_done` says which.
abbrev pub send_or_done : Bool → Bool → Conn → Wait Conn → Wait Conn
send_or_done picks_done room c sent =
    if room && not (c.closed && picks_done) then sent else if c.closed then stops c else blocks

-- The frame's part behind the lookup of its stream
unfoldable pub deliver : Bool → Frame → ℕ → Conn → Wait Conn
unfolding modify
deliver picks_done f ref c =
    let closes = record (modify (λ s. offer_nil (record s { closed = true })) ref c) {
      streams = delete f.stream_id c.streams;
    } in
    elim (get_elem? c.store ref) [
      | none ↦ done c
      | some s ↦
          if eqb f.type frame_close
          then done closes
          else send_or_done picks_done (ltb (length s.read_ch) s.cap) c
              (done (modify (push f.payload) ref c))
    ]

-- What the two selects of a turn take where they may take either
abbrev pub Picks : Type 0
Picks = Bool × Bool

-- One turn of readLoop, for a frame that was read
unfoldable pub handle_frame : Picks → Frame → Conn → Wait Conn
handle_frame picks f c = elim (get f.stream_id c.streams) [
  | some ref ↦ deliver picks.1 f ref c
  | none ↦
      let ref = length c.store in
      let c' = add_stream f.stream_id c in
      send_or_done picks.0 (ltb (length c.accept_ch) 64) c'
        (deliver picks.1 f ref (record c' { accept_ch = c.accept_ch ++ ref ∷ [] }))
]

-- What Read returns: bytes, or one of its two errors
pub data ReadError : Type 0 where
  stream_closed conn_closed : ReadError

-- Stream.Read into a slice of `n` bytes
unfoldable pub read_stream : ℕ → Stream → Wait (Result ReadError (List ℕ) × Stream)
read_stream n s = elim s.buf [
  | b ∷ buf ↦ done (ok (take n (b ∷ buf)), record s { buf = drop n (b ∷ buf) })
  | [] ↦ elim s.read_ch [
    | [] ↦ blocks
    | [] ∷ rest ↦
        done (if s.closed then err stream_closed else err conn_closed, record s { read_ch = rest })
    | (b ∷ bs) ∷ rest ↦
        done (ok (take n (b ∷ bs)), record s { read_ch = rest; buf = drop n (b ∷ bs) })
  ]
]

-- Stream.Write: the bytes that go to the connection, or `none` for an error
unfoldable pub write_stream : List ℕ → Stream → Option (List ℕ)
write_stream b s =
    if s.closed
    then none
    else elim (write_frame (record { type = frame_data; stream_id = s.id; payload = b })) [
      | ok bytes ↦ some bytes
      | err _ ↦ none
      | Result.panic ↦ none
    ]

-- Stream.Close, with the bytes of the frame that it sends
unfoldable pub close_stream : Stream → List ℕ × Stream
close_stream s =
    if s.closed
    then ([], s)
    else elim (write_frame (record { type = frame_close; stream_id = s.id; payload = [] })) [
      | ok bytes ↦ (bytes, record s { closed = true })
      | err _ ↦ ([], record s { closed = true })
      | Result.panic ↦ ([], record s { closed = true })
    ]

abbrev close_one : Stream → Stream
close_one s = if s.closed then s else offer_nil (record s { closed = true })

unfoldable pub close_refs : List (ℕ × ℕ) → Conn → Conn
close_refs [] c = c
close_refs ((id, ref) ∷ m) c = close_refs m (modify close_one ref c)

unfoldable pub close_all : Conn → Conn
close_all c = if c.closed then c else close_refs c.streams (record c { closed = true })

-- ControlStream
abbrev pub control_stream : Conn → Option ℕ
control_stream c = get control_stream_id c.streams
