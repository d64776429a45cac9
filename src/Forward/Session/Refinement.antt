-- ===== src/Forward/Session/Refinement.antt =====
-- The table of forward/session.go as a function from numbers to sessions, with a counter.
use magic_tun.Base.{
  ℕ, ◌+◌, ◌^◌, ◌<◌, ◌≡◌, refl, ◌∙◌, subst, eqb, leb, Option, none, some, List, [], ◌∷◌, arith,
  if◌then◌else◌, nat_eq, ◌==◌, get,
}
use mathlib.Core.Option
use magic_tun.Identity.{NodeId}
use magic_tun.Forward.Session.{
  UdpAddr, UdpSession, SessionTable, new_session_table, create, create_with_id, lookup, touch,
  remove, gc,
}
use magic_tun.Forward.Session.Views.{
  IsSessionTable, Op, creates, adopts, touches, removes, collects, step, kept, touched, lookup-step,
  step-IsSessionTable,
}

-- What the table promises: the sessions as a function of their numbers, and the next number.
pub record Sessions : Type 0 where
  pub find : ℕ → Option UdpSession
  pub next : ℕ

-- A session that is made for a client's datagram or a peer's.
abbrev pub made : ℕ → ℕ → Option UdpAddr → Option UdpAddr → NodeId → UdpSession
made now id client target next_hop = record {
  id = id;
  client_addr = client;
  target_addr = target;
  next_hop = next_hop;
  created_at = now;
  last_used = now;
}

abbrev pub update : ℕ → Option UdpSession → (ℕ → Option UdpSession) → ℕ → Option UdpSession
update id s find j = if id == j then s else find j

-- A session lives until its last use is longer ago than the time to live.
abbrev pub unless_stale : ℕ → ℕ → Option UdpSession → Option UdpSession
unless_stale now ttl none = none
unless_stale now ttl (some s) = if leb now (s.last_used + ttl) then some s else none

abbrev pub perform : ℕ → Op → Sessions → Sessions
perform ttl (creates now c t h) a = record {
  find = update a.next (some (made now a.next c t h)) a.find;
  next = if eqb (a.next + 1) (2 ^ 32) then 0 else a.next + 1;
}
perform ttl (adopts now id c t h) a = record a {
  find = update id (some (made now id c t h)) a.find;
}
perform ttl (touches now id) a = record a {
  find = update id (Option.map (touched now) (a.find id)) a.find;
}
perform ttl (removes id) a = record a { find = update id none a.find }
perform ttl (collects now) a = record a { find = λ j. unless_stale now ttl (a.find j) }

abbrev pub perform_all : ℕ → List Op → Sessions → Sessions
perform_all ttl [] a = a
perform_all ttl (op ∷ ops) a = perform_all ttl ops (perform ttl op a)

unfoldable pub run : List Op → SessionTable → SessionTable
run [] st = st
run (op ∷ ops) st = run ops (step st op)

abbrev IsView : SessionTable → Sessions → Type 0
IsView st a = ((j : ℕ) → lookup j st ≡ a.find j) × ((st.next_id ≡ a.next) × (st.next_id < 2 ^ 32))

kept_lem : (now ttl : ℕ) (s : Option UdpSession) → kept now ttl s ≡ unless_stale now ttl s
kept_lem now ttl none = refl
kept_lem now ttl (some s) = ground arith

step-IsView :
    (st : SessionTable) (op : Op) (a : Sessions)
    → IsSessionTable st
    → IsView st a
    → IsView (step st op) (perform st.ttl op a)
unfolding step create create_with_id touch remove gc
step-IsView st (creates now c t h) a v (same, (next, low)) = (
  (λ j. lookup-step st (creates now c t h) j v ∙ rw next (rw (same j) refl)),
  (ground (arith, next, low), omega arith),
)
step-IsView st (adopts now id c t h) a v (same, (next, low)) =
    ((λ j. lookup-step st (adopts now id c t h) j v ∙ rw (same j) refl), (next, low))
step-IsView st (touches now id) a v (same, (next, low)) = (
  (λ j. lookup-step st (touches now id) j v ∙ rw (same j, same id) refl),
  (ground (arith, next), ground (arith, low)),
)
step-IsView st (removes id) a v (same, (next, low)) =
    ((λ j. lookup-step st (removes id) j v ∙ rw (same j) refl), (next, low))
step-IsView st (collects now) a v (same, (next, low)) = (
  (λ j. lookup-step st (collects now) j v ∙ (kept_lem now st.ttl (lookup j st) ∙ rw (same j) refl)),
  (next, low),
)

ttl-step : (st : SessionTable) (op : Op) → (step st op).ttl ≡ st.ttl
unfolding step create create_with_id touch remove gc
ttl-step st (creates now c t h) = refl
ttl-step st (adopts now id c t h) = refl
ttl-step st (touches now id) = ground arith
ttl-step st (removes id) = refl
ttl-step st (collects now) = refl

run-IsView :
    (ops : List Op) (st : SessionTable) (a : Sessions)
    → IsSessionTable st
    → IsView st a
    → IsView (run ops st) (perform_all st.ttl ops a)
unfolding run
run-IsView [] st a v w = w
run-IsView (op ∷ ops) st a v w =
    subst (λ (ttl : ℕ). IsView (run ops (step st op)) (perform_all ttl ops (perform st.ttl op a)))
      (ttl-step st op)
      (run-IsView ops (step st op) (perform st.ttl op a) (step-IsSessionTable st op v)
        (step-IsView st op a v w))

-- After any calls on a new table, a lookup of any number gives, and Create hands out next, what they do
-- for a function from numbers to sessions and a counter: a creation puts a new session, under the next
-- number or the one it is given, in the place of any that had it, and counts on after the former, from
-- 2^32 - 1 to 0; a touch writes the time of the one session that it names, if there is one; a removal
-- forgets it; and a garbage collection forgets exactly the sessions whose last use is longer ago than
-- the time to live.
pub lookup-run :
    (ttl : ℕ) (ops : List Op) (j : ℕ)
    → (lookup j (run ops (new_session_table ttl))
        ≡ (perform_all ttl ops (record { find = λ i. none; next = 1 })).find j)
      × ((run ops (new_session_table ttl)).next_id
          ≡ (perform_all ttl ops (record { find = λ i. none; next = 1 })).next)
unfolding get
lookup-run ttl ops j =
    let (found, (next, low)) =
      run-IsView ops (new_session_table ttl) (record { find = λ i. none; next = 1 })
        (record { own = tt; keys = tt }) ((λ i. refl), (refl, omega arith)) in
    (found j, next)
