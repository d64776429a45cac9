-- ===== src/Forward/Session/Views.antt =====
-- What every operation of forward/session.go does to each session, and what it keeps.
use magic_tun.Base.{
  ℕ, ◌≡◌, refl, inl, inr, Option, none, some, List, [], ◌∷◌, arith, if◌then◌else◌, eqb_iff,
  Bool-cases, Option-cases, All, nat_eq, ◌==◌, get, get-put, get-delete, HasDistinctKeys,
  put-HasDistinctKeys, delete-HasDistinctKeys, All-get, All-put, All-delete,
}
use mathlib.Core.Option
use magic_tun.Identity.{NodeId}
use magic_tun.Forward.Session.{
  UdpAddr, UdpSession, SessionTable, new_session, create, create_with_id, lookup, touch, remove,
  is_expired, drop_expired, gc,
}

abbrev pub IsOwn : ℕ × UdpSession → Type 0
IsOwn (id, s) = s.id ≡ id

-- Each session stands under its own number, once.
pub record IsSessionTable (st : SessionTable) : Type 0 where
  pub own : All IsOwn st.sessions
  pub keys : HasDistinctKeys st.sessions

-- The calls that change the table.
pub data Op : Type 0 where
  creates : ℕ → Option UdpAddr → Option UdpAddr → NodeId → Op
  adopts : ℕ → ℕ → Option UdpAddr → Option UdpAddr → NodeId → Op
  touches : ℕ → ℕ → Op
  removes : ℕ → Op
  collects : ℕ → Op

unfoldable pub step : SessionTable → Op → SessionTable
step st (creates now c t h) = (create now c t h st).1
step st (adopts now id c t h) = (create_with_id now id c t h st).1
step st (touches now id) = touch now id st
step st (removes id) = remove id st
step st (collects now) = gc now st

-- What is left of a session at a garbage collection.
abbrev pub if_live : ℕ → ℕ → UdpSession → Option UdpSession
if_live now ttl s = if is_expired now ttl s then none else some s

abbrev pub kept : ℕ → ℕ → Option UdpSession → Option UdpSession
kept now ttl none = none
kept now ttl (some s) = if_live now ttl s

abbrev pub touched : ℕ → UdpSession → UdpSession
touched now s = record s { last_used = now }

-- The sessions as a function: what a lookup of `j` finds after an operation, by what lookups found
-- before it.
abbrev pub after : SessionTable → Op → ℕ → Option UdpSession
after st (creates now c t h) j =
    if st.next_id == j then some (new_session now st.next_id c t h) else lookup j st
after st (adopts now id c t h) j = if id == j then some (new_session now id c t h) else lookup j st
after st (touches now id) j =
    if id == j then Option.map (touched now) (lookup id st) else lookup j st
after st (removes id) j = if id == j then none else lookup j st
after st (collects now) j = kept now st.ttl (lookup j st)

get-drop_expired-none :
    (now ttl j : ℕ) (m : List (ℕ × UdpSession))
    → get j m ≡ none
    → get j (drop_expired now ttl m) ≡ none
unfolding get drop_expired
get-drop_expired-none now ttl j [] h = refl
get-drop_expired-none now ttl j ((id, s) ∷ m) h = ground (arith, get-drop_expired-none now ttl j m)

get-drop_expired :
    (now ttl j : ℕ) (m : List (ℕ × UdpSession))
    → HasDistinctKeys m
    → get j (drop_expired now ttl m) ≡ kept now ttl (get j m)
unfolding get drop_expired
get-drop_expired now ttl j [] h = refl
get-drop_expired now ttl j ((id, s) ∷ m) (h, hs) =
    ground (arith, eqb_iff id j, get-drop_expired now ttl j m hs, get-drop_expired-none now ttl j m)

drop_expired-HasDistinctKeys :
    (now ttl : ℕ) (m : List (ℕ × UdpSession))
    → HasDistinctKeys m
    → HasDistinctKeys (drop_expired now ttl m)
unfolding drop_expired
drop_expired-HasDistinctKeys now ttl [] h = tt
drop_expired-HasDistinctKeys now ttl ((id, s) ∷ m) (h, hs) =
    elim (Bool-cases (is_expired now ttl s)) [
      | inl e ↦ rw e (drop_expired-HasDistinctKeys now ttl m hs)
      | inr e ↦
          rw e (get-drop_expired-none now ttl id m h, drop_expired-HasDistinctKeys now ttl m hs)
    ]

drop_expired-IsOwn :
    (now ttl : ℕ) (m : List (ℕ × UdpSession)) → All IsOwn m → All IsOwn (drop_expired now ttl m)
unfolding drop_expired
drop_expired-IsOwn now ttl [] h = tt
drop_expired-IsOwn now ttl ((id, s) ∷ m) (h, hs) = elim (Bool-cases (is_expired now ttl s)) [
  | inl e ↦ rw e (drop_expired-IsOwn now ttl m hs)
  | inr e ↦ rw e (h, drop_expired-IsOwn now ttl m hs)
]

-- A creation puts a new session under its number, in the place of one that had it; a touch writes the
-- time of the one session that it names, if there is one; a removal forgets it; and a garbage
-- collection forgets exactly the sessions that were not used for longer than the time to live. All
-- others stay as they were.
pub lookup-step :
    (st : SessionTable) (op : Op) (j : ℕ)
    → IsSessionTable st
    → lookup j (step st op) ≡ after st op j
unfolding step create create_with_id touch remove gc
lookup-step st (creates now c t h) j v = get-put st.next_id j _ st.sessions
lookup-step st (adopts now id c t h) j v = get-put id j _ st.sessions
lookup-step st (touches now id) j v = elim (Option-cases (get id st.sessions)) [
  | inl e ↦ rw (e, touch) (ground (arith, e, eqb_iff id j))
  | inr (s, e) ↦ rw (e, touch) (get-put id j _ st.sessions)
]
lookup-step st (removes id) j v = get-delete id j st.sessions
lookup-step st (collects now) j v = get-drop_expired now st.ttl j st.sessions v.keys

-- Every operation keeps each session under its own number, once.
pub step-IsSessionTable :
    (st : SessionTable) (op : Op) → IsSessionTable st → IsSessionTable (step st op)
unfolding step create create_with_id touch remove gc
step-IsSessionTable st (creates now c t h) v = record {
  own = All-put IsOwn st.next_id _ st.sessions refl v.own;
  keys = put-HasDistinctKeys st.next_id _ st.sessions v.keys;
}
step-IsSessionTable st (adopts now id c t h) v = record {
  own = All-put IsOwn id _ st.sessions refl v.own;
  keys = put-HasDistinctKeys id _ st.sessions v.keys;
}
step-IsSessionTable st (touches now id) v = elim (Option-cases (get id st.sessions)) [
  | inl e ↦ rw (e, touch) v
  | inr (s, e) ↦
      rw (e, touch)
        (record {
          own = All-put IsOwn id _ st.sessions (All-get IsOwn id s st.sessions v.own e) v.own;
          keys = put-HasDistinctKeys id _ st.sessions v.keys;
        })
]
step-IsSessionTable st (removes id) v = record {
  own = All-delete IsOwn id st.sessions v.own;
  keys = delete-HasDistinctKeys id st.sessions v.keys;
}
step-IsSessionTable st (collects now) v = record {
  own = drop_expired-IsOwn now st.ttl st.sessions v.own;
  keys = drop_expired-HasDistinctKeys now st.ttl st.sessions v.keys;
}
