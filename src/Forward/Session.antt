-- ===== src/Forward/Session.antt =====
-- forward/session.go: the table of UDP sessions. The code shares a session by its pointer and writes
-- only its LastUsed, through the table; the model keeps it by value. `now` is what time.Now returns.
pub mod Views
pub mod Refinement
pub mod Ids
use magic_tun.Base.{
  ℕ, ◌+◌, ◌-◌, ◌%◌, ◌^◌, Bool, not, Option, none, some, List, [], ◌∷◌, if◌then◌else◌, ltb, nat_eq,
  get, put, delete,
}
use magic_tun.Identity.{NodeId}

-- net.UDPAddr
pub record UdpAddr : Type 0 where
  pub ip : List ℕ
  pub port : ℕ

-- A nil address is `none`.
pub record UdpSession : Type 0 where
  pub id : ℕ
  pub client_addr : Option UdpAddr
  pub target_addr : Option UdpAddr
  pub next_hop : NodeId
  pub created_at : ℕ
  pub last_used : ℕ

pub record SessionTable : Type 0 where
  pub sessions : List (ℕ × UdpSession)
  pub next_id : ℕ
  pub ttl : ℕ

abbrev pub new_session_table : ℕ → SessionTable
new_session_table ttl = record { sessions = []; next_id = 1; ttl = ttl }

abbrev pub new_session : ℕ → ℕ → Option UdpAddr → Option UdpAddr → NodeId → UdpSession
new_session now id client target next_hop = record {
  id = id;
  client_addr = client;
  target_addr = target;
  next_hop = next_hop;
  created_at = now;
  last_used = now;
}

-- CreateWithID
unfoldable pub create_with_id :
    ℕ → ℕ → Option UdpAddr → Option UdpAddr → NodeId → SessionTable → UdpSession × SessionTable
create_with_id now id client target next_hop st =
    let s = new_session now id client target next_hop in
    (s, record st { sessions = put id s st.sessions })

-- Create. The counter is a uint32.
unfoldable pub create :
    ℕ → Option UdpAddr → Option UdpAddr → NodeId → SessionTable → UdpSession × SessionTable
create now client target next_hop st =
    let s = new_session now st.next_id client target next_hop in
    (s, record st { sessions = put st.next_id s st.sessions; next_id = (st.next_id + 1) % 2 ^ 32 })

abbrev pub lookup : ℕ → SessionTable → Option UdpSession
lookup id st = get id st.sessions

unfoldable pub touch : ℕ → ℕ → SessionTable → SessionTable
touch now id st = elim (get id st.sessions) [
  | none ↦ st
  | some s ↦ record st { sessions = put id (record s { last_used = now }) st.sessions }
]

unfoldable pub remove : ℕ → SessionTable → SessionTable
remove id st = record st { sessions = delete id st.sessions }

abbrev pub is_expired : ℕ → ℕ → UdpSession → Bool
is_expired now ttl s = ltb ttl (now - s.last_used)

unfoldable pub drop_expired : ℕ → ℕ → List (ℕ × UdpSession) → List (ℕ × UdpSession)
drop_expired now ttl [] = []
drop_expired now ttl ((id, s) ∷ m) =
    let rest = drop_expired now ttl m in if is_expired now ttl s then rest else (id, s) ∷ rest

unfoldable pub gc : ℕ → SessionTable → SessionTable
gc now st = record st { sessions = drop_expired now st.ttl st.sessions }
