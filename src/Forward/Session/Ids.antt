-- ===== src/Forward/Session/Ids.antt =====
-- The numbers that Create of forward/session.go hands out.
use magic_tun.Base.{ℕ, suc, ◌+◌, ◌%◌, ◌^◌, ◌<◌, ◌≡◌, ◌≢◌, Option, List, [], ◌∷◌, arith, nat_eq}
use magic_tun.Identity.{NodeId}
use magic_tun.Forward.Session.{UdpAddr, SessionTable, create}

-- A call of Create: the time, the two addresses and the next hop.
abbrev pub Call : Type 0
Call = ℕ × Option UdpAddr × Option UdpAddr × NodeId

-- The number that the first call after `calls` gets.
unfoldable pub id_after : SessionTable → List Call → ℕ
id_after st [] = st.next_id
id_after st ((now, c, t, h) ∷ calls) = id_after (create now c t h st).1 calls

abbrev pub count : List Call → ℕ
count [] = 0
count (c ∷ cs) = suc (count cs)

id_after_lem :
    (st : SessionTable) (calls : List Call)
    → st.next_id < 2 ^ 32
    → id_after st calls ≡ (st.next_id + count calls) % 2 ^ 32
unfolding id_after create
id_after_lem st [] h = omega arith
id_after_lem st ((now, c, t, n) ∷ calls) h =
    omega (arith, id_after_lem (create now c t n st).1 calls (omega arith))

-- Create hands out no number twice within 2^32 calls: after a call of it and any further calls, up to
-- 2^32 - 1 in all, the next number is not the one that the first call got.
pub id_after_ne :
    (st : SessionTable) (call : Call) (calls : List Call)
    → st.next_id < 2 ^ 32
    → count (call ∷ calls) < 2 ^ 32
    → id_after st (call ∷ calls) ≢ id_after st []
unfolding id_after
id_after_ne st call calls h few = λ same. omega (arith, id_after_lem st (call ∷ calls) h, same)
