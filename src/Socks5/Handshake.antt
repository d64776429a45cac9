-- ===== src/Socks5/Handshake.antt =====
-- socks5/handshake.go. What the client sends is a list of bytes; what is written to it, a list of
-- writes. `ip_string` is net.IP.String and `join` is net.JoinHostPort with the port in decimal: the
-- texts are bytes. `writes` says whether the answer to the greeting can be written.
pub mod Accepts
use magic_tun.Base.{
  ℕ, zero, suc, ◌+◌, ◌*◌, Bool, true, false, not, ◌||◌, ◌&&◌, List, [], ◌∷◌, ◌++◌, Result, ok, err,
  panic, ◌>>=◌, ◌>>◌, fail_if, if◌then◌else◌, ltb, eqb, length, take, drop, replicate,
}
use magic_tun.Wire.Codec.{put_u16, field}

abbrev pub socks5_version : ℕ
socks5_version = 0x05

abbrev pub cmd_connect : ℕ
cmd_connect = 0x01

abbrev pub cmd_udp_associate : ℕ
cmd_udp_associate = 0x03

abbrev pub auth_none : ℕ
auth_none = 0x00

abbrev pub auth_no_accept : ℕ
auth_no_accept = 0xFF

abbrev pub rep_success : ℕ
rep_success = 0x00

abbrev pub rep_cmd_not_supported : ℕ
rep_cmd_not_supported = 0x07

abbrev pub rep_addr_not_support : ℕ
rep_addr_not_support = 0x08

abbrev pub addr_type_ipv4 : ℕ
addr_type_ipv4 = 0x01

abbrev pub addr_type_domain : ℕ
addr_type_domain = 0x03

abbrev pub addr_type_ipv6 : ℕ
addr_type_ipv6 = 0x04

pub data Error : Type 0 where
  eof bad_version no_method write_failed bad_command bad_addr_type : Error

pub record SocksRequest : Type 0 where
  pub cmd : ℕ
  pub target_addr : List ℕ

-- sendReply, with the 4-byte form of the address, or no byte of it
abbrev pub send_reply : ℕ → List ℕ → ℕ → List ℕ
send_reply rep bind_addr bind_port =
    socks5_version ∷ rep ∷ 0 ∷ addr_type_ipv4 ∷ (field 4 bind_addr ++ put_u16 bind_port)

-- io.ReadFull
unfoldable pub read_full : ℕ → List ℕ → Result Error (List ℕ × List ℕ)
read_full n bytes = if ltb (length bytes) n then err eof else ok (take n bytes, drop n bytes)

-- buf[i]
abbrev pub byte_at : List ℕ → ℕ → ℕ
byte_at [] i = 0
byte_at (b ∷ bs) zero = b
byte_at (b ∷ bs) (suc i) = byte_at bs i

-- The greeting: the client's methods
unfoldable pub read_methods : List ℕ → Result Error (List ℕ × List ℕ)
read_methods bytes = do
  (buf, rest) ← read_full 2 bytes
  fail_if (not (eqb (byte_at buf 0) socks5_version)) bad_version
  read_full (byte_at buf 1) rest

unfoldable pub no_auth_offered : List ℕ → Bool
no_auth_offered [] = false
no_auth_offered (m ∷ ms) = eqb m auth_none || no_auth_offered ms

-- The address of a request, by its type: the host's text
unfoldable pub read_host : (List ℕ → List ℕ) → ℕ → List ℕ → Result Error (List ℕ × List ℕ)
read_host ip_string atyp bytes =
    if eqb atyp addr_type_ipv4
    then (do (addr, rest) ← read_full 4 bytes; ok (ip_string addr, rest))
    else if eqb atyp addr_type_ipv6
    then (do (addr, rest) ← read_full 16 bytes; ok (ip_string addr, rest))
    else if eqb atyp addr_type_domain
    then (do (len, rest) ← read_full 1 bytes; read_full (byte_at len 0) rest)
    else err bad_addr_type

unfoldable pub read_request :
    (List ℕ → List ℕ) → (List ℕ → ℕ → List ℕ) → List ℕ → Result Error (SocksRequest × List ℕ)
read_request ip_string join bytes = do
  (buf, rest) ← read_full 4 bytes
  fail_if (not (eqb (byte_at buf 0) socks5_version)) bad_version
  fail_if (not (eqb (byte_at buf 1) cmd_connect) && not (eqb (byte_at buf 1) cmd_udp_associate))
      bad_command
  (host, rest) ← read_host ip_string (byte_at buf 3) rest
  (port, rest) ← read_full 2 rest
  ok (
    record { cmd = byte_at buf 1; target_addr = join host (byte_at port 0 * 256 + byte_at port 1) },
    rest,
  )

-- The replies that are sent just before an error is returned
abbrev pub error_replies : Error → List (List ℕ)
error_replies bad_command = send_reply rep_cmd_not_supported [] 0 ∷ []
error_replies bad_addr_type = send_reply rep_addr_not_support [] 0 ∷ []
error_replies _ = []

abbrev pub request_replies : Result Error (SocksRequest × List ℕ) → List (List ℕ)
request_replies (ok _) = []
request_replies (err e) = error_replies e
request_replies panic = []

-- handleHandshake behind the greeting
unfoldable pub answer :
    (List ℕ → List ℕ)
    → (List ℕ → ℕ → List ℕ)
    → Bool
    → List ℕ
    → List ℕ
    → Result Error (SocksRequest × List ℕ) × List (List ℕ)
answer ip_string join writes methods rest =
    let request = read_request ip_string join rest in
    if not (no_auth_offered methods)
    then (err no_method, (socks5_version ∷ auth_no_accept ∷ []) ∷ [])
    else if not writes
    then (err write_failed, [])
    else (request, (socks5_version ∷ auth_none ∷ []) ∷ request_replies request)

-- handleHandshake: the request and what the client sent behind it, or an error; and the writes
unfoldable pub handle_handshake :
    (List ℕ → List ℕ)
    → (List ℕ → ℕ → List ℕ)
    → Bool
    → List ℕ
    → Result Error (SocksRequest × List ℕ) × List (List ℕ)
handle_handshake ip_string join writes bytes = elim (read_methods bytes) [
  | err e ↦ (err e, [])
  | panic ↦ (panic, [])
  | ok (methods, rest) ↦ answer ip_string join writes methods rest
]

-- SendSuccessReply and SendErrorReply
abbrev pub send_success_reply : List ℕ
send_success_reply = send_reply rep_success (0 ∷ 0 ∷ 0 ∷ 0 ∷ []) 0

abbrev pub send_error_reply : ℕ → List ℕ
send_error_reply rep = send_reply rep (0 ∷ 0 ∷ 0 ∷ 0 ∷ []) 0
