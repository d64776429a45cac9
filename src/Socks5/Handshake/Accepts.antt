-- ===== src/Socks5/Handshake/Accepts.antt =====
-- What the handshake makes of a client that follows RFC 1928.
use magic_tun.Base.{
  ℕ, ◌+◌, ◌*◌, ◌/◌, ◌%◌, ◌^◌, ◌<◌, ◌≡◌, refl, ◌∙◌, ◌⊎◌, Bool, true, false, not, ◌&&◌, List, [], ◌∷◌,
  ◌++◌, arith, ok, err, if◌then◌else◌, eqb, length, append_assoc, length-append, take-append_length,
  drop-append_length, le→ltb,
}
use magic_tun.Wire.Codec.{put_u16}
use magic_tun.Socks5.Handshake.{
  no_method, SocksRequest, read_full, read_methods, no_auth_offered, read_host, read_request,
  answer, handle_handshake,
}

-- The three forms of a target.
pub data Target : Type 0 where
  v4 v6 domain : List ℕ → Target

-- An address of 4 or 16 bytes, or a name of at most 255.
abbrev pub IsTarget : Target → Type 0
IsTarget (v4 a) = length a ≡ 4
IsTarget (v6 a) = length a ≡ 16
IsTarget (domain d) = length d < 256

abbrev pub type_of : Target → ℕ
type_of (v4 a) = 1
type_of (v6 a) = 4
type_of (domain d) = 3

abbrev pub target_bytes : Target → List ℕ
target_bytes (v4 a) = a
target_bytes (v6 a) = a
target_bytes (domain d) = length d ∷ d

abbrev pub host_of : (List ℕ → List ℕ) → Target → List ℕ
host_of ip_string (v4 a) = ip_string a
host_of ip_string (v6 a) = ip_string a
host_of ip_string (domain d) = d

-- A client's greeting and its request.
abbrev pub greeting : List ℕ → List ℕ
greeting methods = 5 ∷ length methods ∷ methods

abbrev pub request : ℕ → Target → ℕ → List ℕ
request cmd t port = 5 ∷ cmd ∷ 0 ∷ type_of t ∷ (target_bytes t ++ put_u16 port)

pub read_full-append :
    (n : ℕ) (xs rest : List ℕ) → length xs ≡ n → read_full n (xs ++ rest) ≡ ok (xs, rest)
unfolding read_full
read_full-append n xs rest h =
    rw (le→ltb (length (xs ++ rest)) n (omega (arith, length-append xs rest)))
      (rw (take-append_length n xs rest h, drop-append_length n xs rest h) refl)

read_methods-greeting :
    (methods rest : List ℕ) → read_methods (greeting methods ++ rest) ≡ ok (methods, rest)
unfolding read_methods
read_methods-greeting methods rest =
    rw (read_full-append 2 (5 ∷ length methods ∷ []) (methods ++ rest) refl)
      (read_full-append (length methods) methods rest refl)

read_host_lem :
    (ip_string : List ℕ → List ℕ) (t : Target) (rest : List ℕ)
    → IsTarget t
    → read_host ip_string (type_of t) (target_bytes t ++ rest) ≡ ok (host_of ip_string t, rest)
unfolding read_host
read_host_lem ip_string (v4 a) rest h = rw (read_full-append 4 a rest h) refl
read_host_lem ip_string (v6 a) rest h = rw (read_full-append 16 a rest h) refl
read_host_lem ip_string (domain d) rest h =
    rw (read_full-append 1 (length d ∷ []) (d ++ rest) refl)
      (read_full-append (length d) d rest refl)

read_request-request :
    (ip_string : List ℕ → List ℕ) (join : List ℕ → ℕ → List ℕ) (cmd : ℕ) (t : Target) (port : ℕ)
    (rest : List ℕ)
    → (cmd ≡ 1) ⊎ (cmd ≡ 3)
    → IsTarget t
    → port < 2 ^ 16
    → read_request ip_string join (request cmd t port ++ rest)
      ≡ ok (record { cmd = cmd; target_addr = join (host_of ip_string t) port }, rest)
unfolding read_request
read_request-request ip_string join cmd t port rest c h p =
    let known : not (eqb cmd 1) && not (eqb cmd 3) ≡ false = ground (arith, c) in
    let number : port / 256 % 256 * 256 + port % 256 ≡ port = omega arith in
    rw
      (read_full-append 4 (5 ∷ cmd ∷ 0 ∷ type_of t ∷ []) ((target_bytes t ++ put_u16 port) ++ rest)
        refl)
      (rw known (
        rw (append_assoc (target_bytes t) (put_u16 port) rest) (
          rw (read_host_lem ip_string t (put_u16 port ++ rest) h)
            (rw (read_full-append 2 (put_u16 port) rest refl) (rw number refl)))))

handle_handshake_ok :
    (ip_string : List ℕ → List ℕ) (join : List ℕ → ℕ → List ℕ) (writes : Bool)
    (bytes methods rest : List ℕ)
    → read_methods bytes ≡ ok (methods, rest)
    → handle_handshake ip_string join writes bytes ≡ answer ip_string join writes methods rest
unfolding handle_handshake
handle_handshake_ok ip_string join writes bytes methods rest e = rw (e, handle_handshake) refl

answer_ok :
    (ip_string : List ℕ → List ℕ) (join : List ℕ → ℕ → List ℕ) (methods bytes rest : List ℕ)
    (r : SocksRequest)
    → read_request ip_string join bytes ≡ ok (r, rest)
    → answer ip_string join true methods bytes ≡ (
        if no_auth_offered methods
        then (ok (r, rest), (5 ∷ 0 ∷ []) ∷ [])
        else (err no_method, (5 ∷ 255 ∷ []) ∷ []))
unfolding answer
answer_ok ip_string join methods bytes rest r e = rw (e, answer) (ground arith)

-- A client that greets with fewer than 256 methods and then asks for a connection or a UDP association,
-- to an IPv4 or IPv6 address or a name: if it offers to go without authentication, it is told that this
-- was chosen, and its request is read, with the bytes behind it untouched; and if it does not, it is told
-- that no method will do, and the handshake fails. Nothing else is written to it. The condition is that
-- the connection can be written.
pub handle_handshake-request :
    (ip_string : List ℕ → List ℕ) (join : List ℕ → ℕ → List ℕ) (methods : List ℕ) (cmd : ℕ)
    (t : Target) (port : ℕ) (rest : List ℕ)
    → length methods < 256
    → (cmd ≡ 1) ⊎ (cmd ≡ 3)
    → IsTarget t
    → port < 2 ^ 16
    → handle_handshake ip_string join true (greeting methods ++ (request cmd t port ++ rest)) ≡ (
        if no_auth_offered methods
        then (
          ok (record { cmd = cmd; target_addr = join (host_of ip_string t) port }, rest),
          (5 ∷ 0 ∷ []) ∷ [],
        )
        else (err no_method, (5 ∷ 255 ∷ []) ∷ []))
handle_handshake-request ip_string join methods cmd t port rest few c h p =
    handle_handshake_ok ip_string join true (greeting methods ++ (request cmd t port ++ rest))
      methods (request cmd t port ++ rest)
      (read_methods-greeting methods (request cmd t port ++ rest))
    ∙ answer_ok ip_string join methods (request cmd t port ++ rest) rest _
        (read_request-request ip_string join cmd t port rest c h p)
